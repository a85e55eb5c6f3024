-- ===== src/Hub/Allowlist/Policies.antt =====
-- What `boxNetworkPolicy`, `effectiveAllowlist` and `unionSorted` collect.
use llmbox.Prelude.{
  ◌≡◌, ◌↔◌, ◌⊎◌, inl, inr, true, List, [], ◌∷◌, ◌++◌, arith, ℤ, if◌then◌else◌, Str, str_eq, str_le,
  str_le_total, str_le_trans, contains_iff, sort-In, IsSorted, sort-IsSorted, In, In-append, Any,
  Bool-cases,
}
use llmbox.HubStore.Database.{AllowlistGroup}
use llmbox.Isolation.{DomainRule}
use llmbox.Hub.Allowlist.{
  applies, Flattened, add_domain, add_domains, add_groups, box_network_policy, ttl_or_default,
  add_new, add_all_new, collect_domains, effective_allowlist, union_sorted,
}

-- The group is global or assigned to the box, and lists the domain.
abbrev pub Permits : List Str → Str → AllowlistGroup → Type 0
Permits assigned d g = ((g.is_global ≡ true) ⊎ In g.id assigned) × In d g.domains

applies_iff :
    (assigned : List Str) (g : AllowlistGroup)
    → (applies assigned g ≡ true) ↔ ((g.is_global ≡ true) ⊎ In g.id assigned)
applies_iff assigned g = ground (arith, contains_iff assigned g.id)

abbrev pub HasPattern : Str → List DomainRule → Type 0
HasPattern d = Any (λ r. r.pattern ≡ d)

HasPattern-append :
    (d : Str) (xs ys : List DomainRule)
    → HasPattern d (xs ++ ys) ↔ (HasPattern d xs ⊎ HasPattern d ys)
HasPattern-append d [] ys = ground arith
HasPattern-append d (x ∷ xs) ys = ground (arith, HasPattern-append d xs ys)

-- `seen` holds the patterns of the rules.
abbrev Agrees : Flattened → Type 0
Agrees st = (d : Str) → In d st.seen ↔ HasPattern d st.rules

add_domain-Agrees : (ttl : ℤ) (x : Str) (st : Flattened) → Agrees st → Agrees (add_domain ttl x st)
unfolding add_domain
add_domain-Agrees ttl x st v d =
    ground
      (arith, v d, HasPattern-append d st.rules (record { pattern = x; ttl_seconds = ttl } ∷ []))

add_domain_lem :
    (ttl : ℤ) (x d : Str) (st : Flattened)
    → In d (add_domain ttl x st).seen ↔ (In d st.seen ⊎ (x ≡ d))
unfolding add_domain
add_domain_lem ttl x d st = ground (arith, contains_iff st.seen x, contains_iff st.seen d)

add_domains-Agrees :
    (ttl : ℤ) (xs : List Str) (st : Flattened) → Agrees st → Agrees (add_domains ttl xs st)
unfolding add_domains
add_domains-Agrees ttl [] st v = v
add_domains-Agrees ttl (x ∷ xs) st v =
    add_domains-Agrees ttl xs (add_domain ttl x st) (add_domain-Agrees ttl x st v)

add_domains_lem :
    (ttl : ℤ) (xs : List Str) (d : Str) (st : Flattened)
    → In d (add_domains ttl xs st).seen ↔ (In d st.seen ⊎ In d xs)
unfolding add_domains
add_domains_lem ttl [] d st = ground arith
add_domains_lem ttl (x ∷ xs) d st =
    ground (arith, add_domains_lem ttl xs d (add_domain ttl x st), add_domain_lem ttl x d st)

module _ (assigned : List Str) where
  step : AllowlistGroup → Flattened → Flattened
  step g st =
      if applies assigned g then add_domains (ttl_or_default g.ttl_seconds) g.domains st else st

  step-Agrees : (g : AllowlistGroup) (st : Flattened) → Agrees st → Agrees (step g st)
  unfolding step
  step-Agrees g st v = elim (Bool-cases (applies assigned g)) [
    | inl on ↦ rw on (add_domains-Agrees (ttl_or_default g.ttl_seconds) g.domains st v)
    | inr off ↦ rw off v
  ]

  step_lem :
      (g : AllowlistGroup) (d : Str) (st : Flattened)
      → In d (step g st).seen ↔ (In d st.seen ⊎ Permits assigned d g)
  unfolding step
  step_lem g d st =
      let (to, from) = add_domains_lem (ttl_or_default g.ttl_seconds) g.domains d st in
      elim (Bool-cases (applies assigned g)) [
        | inl on ↦ rw on (
          λ i. elim (to i) [ inl j ↦ inl j | inr k ↦ inr ((applies_iff assigned g).0 on, k) ],
          λ i. elim i [ inl j ↦ from (inl j) | inr (_, k) ↦ from (inr k) ],
        )
        | inr off ↦ rw off (
          λ i. inl i,
          λ i. elim i [ inl j ↦ j | inr (who, _) ↦ cc ((applies_iff assigned g).1 who) ],
        )
      ]

  add_groups-Agrees :
      (gs : List AllowlistGroup) (st : Flattened) → Agrees st → Agrees (add_groups assigned gs st)
  unfolding add_groups step
  add_groups-Agrees [] st v = v
  add_groups-Agrees (g ∷ gs) st v = add_groups-Agrees gs (step g st) (step-Agrees g st v)

  add_groups_lem :
      (gs : List AllowlistGroup) (d : Str) (st : Flattened)
      → In d (add_groups assigned gs st).seen ↔ (In d st.seen ⊎ Any (Permits assigned d) gs)
  unfolding add_groups step
  add_groups_lem [] d st = ground arith
  add_groups_lem (g ∷ gs) d st =
      let (to, from) = add_groups_lem gs d (step g st) in
      let (into, back) = step_lem g d st in
      (
        λ i. elim (to i) [
          | inl j ↦ elim (into j) [ inl k ↦ inl k | inr p ↦ inr (inl p) ]
          | inr k ↦ inr (inr k)
        ],
        λ i. elim i [
          | inl k ↦ from (inl (back (inl k)))
          | inr (inl p) ↦ from (inl (back (inr p)))
          | inr (inr k) ↦ from (inr k)
        ],
      )

  -- The policy of a box has a rule for a domain exactly when a group that is global or assigned
  -- to the box lists the domain.
  pub box_network_policy_iff :
      (groups : List AllowlistGroup) (d : Str)
      → HasPattern d (box_network_policy groups assigned).rules ↔ Any (Permits assigned d) groups
  unfolding box_network_policy
  box_network_policy_iff groups d =
      let st : Flattened = record { seen = []; rules = [] } in
      ground (arith, add_groups_lem groups d st, add_groups-Agrees groups st (λ d. ground arith) d)

pub add_new_lem : (s d : Str) (out : List Str) → In d (add_new s out) ↔ (In d out ⊎ (s ≡ d))
unfolding add_new
add_new_lem s d out =
    ground (arith, contains_iff out s, contains_iff out d, In-append d out (s ∷ []))

add_all_new_lem :
    (ss : List Str) (d : Str) (out : List Str) → In d (add_all_new ss out) ↔ (In d out ⊎ In d ss)
unfolding add_all_new
add_all_new_lem [] d out = ground arith
add_all_new_lem (s ∷ ss) d out =
    ground (arith, add_all_new_lem ss d (add_new s out), add_new_lem s d out)

collect_domains_lem :
    (assigned : List Str) (gs : List AllowlistGroup) (d : Str) (out : List Str)
    → In d (collect_domains assigned gs out) ↔ (In d out ⊎ Any (Permits assigned d) gs)
unfolding collect_domains
collect_domains_lem assigned [] d out = ground arith
collect_domains_lem assigned (g ∷ gs) d out = elim (Bool-cases (applies assigned g)) [
  | inl on ↦
      let here = collect_domains_lem assigned gs d (add_all_new g.domains out) in
      rw on (ground (arith, here, add_all_new_lem g.domains d out, contains_iff assigned g.id))
  | inr off ↦ ground (arith, collect_domains_lem assigned gs d out, contains_iff assigned g.id)
]

-- The domains that the hub shows for a box are those that the policy it pushes has a rule for.
effective_allowlist_iff :
    (groups : List AllowlistGroup) (assigned : List Str) (d : Str)
    → In d (effective_allowlist groups assigned).0
      ↔ HasPattern d (box_network_policy groups assigned).rules
unfolding effective_allowlist
effective_allowlist_iff groups assigned d =
    let (to, from) = box_network_policy_iff assigned groups d in
    let (into, back) = collect_domains_lem assigned groups d [] in
    let (down, up) = sort-In str_le d (collect_domains assigned groups []) in
    (
      λ i. elim (into (down i)) [ inl never ↦ absurd never | inr p ↦ from p ],
      λ h. up (back (inr (to h))),
    )

-- The union of two lists of domains is sorted, and holds what either list holds.
union_sorted_lem :
    (a b : List Str)
    → IsSorted str_le (union_sorted a b) × ((d : Str) → In d (union_sorted a b) ↔ (In d a ⊎ In d b))
unfolding union_sorted
union_sorted_lem a b = (
  sort-IsSorted str_le str_le_total str_le_trans (add_all_new (a ++ b) []),
  λ d. ground (
    arith,
    sort-In str_le d (add_all_new (a ++ b) []),
    add_all_new_lem (a ++ b) d [],
    In-append d a b,
  ),
)
