-- ===== src/Hub/Allowlist/Domains/Normalizing.antt =====
-- What `normalizeDomains` returns, and what it refuses.
use llmbox.Prelude.{
  ◌≡◌, ◌≢◌, ◌↔◌, refl, sym, subst, ◌∙◌, ◌⊎◌, inl, inr, true, false, List, [], ◌∷◌, ◌++◌, Str,
  str_eq, str_le, str_le_total, str_le_trans, str_beq_iff, ◌==◌, Result, ok, failed, sort, sort-In,
  IsSorted, sort-IsSorted, sort-All, In, All, Any, Bool-cases, contains, Result-cases,
}
use llmbox.Prelude.Regex.{matches}
use llmbox.Hub.Allowlist.{add_new}
use llmbox.Hub.Allowlist.Policies.{add_new_lem}
use llmbox.Hub.Allowlist.Domains.{
  domain_pattern, normal_form, collect_normal, sorted, normalize_domains,
}

-- An entry that is not blank, and what is stored for it.
abbrev pub Stores : Str → Str → Type 0
Stores d raw = (normal_form raw ≡ d) × (d ≢ [])

collect_normal_lem :
    (entries out found : List Str) (d : Str)
    → collect_normal entries out ≡ ok found
    → In d found ↔ (In d out ⊎ Any (Stores d) entries)
unfolding collect_normal
collect_normal_lem [] out found d h =
    let e : out ≡ found = cc h in
    (
      λ i. inl (subst (In d) (sym e) i),
      λ i. elim i [ inl j ↦ subst (In d) e j | inr never ↦ absurd never ],
    )
collect_normal_lem (raw ∷ rest) out found d h = elim (Bool-cases (normal_form raw == [])) [
  | inl blank ↦
      let (to, from) = collect_normal_lem rest out found d (rw (blank, collect_normal) at h) in
      let none_left = (str_beq_iff (normal_form raw) []).0 blank in
      (
        λ i. elim (to i) [ inl j ↦ inl j | inr k ↦ inr (inr k) ],
        λ i. elim i [
          | inl j ↦ from (inl j)
          | inr (inl (same, full)) ↦ absurd (full (sym same ∙ none_left))
          | inr (inr k) ↦ from (inr k)
        ],
      )
  | inr full ↦ elim (Bool-cases (matches domain_pattern (normal_form raw))) [
    | inr bad ↦ cc (rw (full, bad, collect_normal) at h)
    | inl good ↦
        let (to, from) =
          collect_normal_lem rest (add_new (normal_form raw) out) found d
            (rw (full, good, collect_normal) at h) in
        let (into, back) = add_new_lem (normal_form raw) d out in
        let nonempty : normal_form raw ≢ [] = λ e. cc ((str_beq_iff (normal_form raw) []).1 e) in
        (
          λ i. elim (to i) [
            | inl j ↦ elim (into j) [
              | inl old ↦ inl old
              | inr new ↦ inr (inl (new, λ e. nonempty (new ∙ e)))
            ]
            | inr k ↦ inr (inr k)
          ],
          λ i. elim i [
            | inl j ↦ from (inl (back (inl j)))
            | inr (inl (same, _)) ↦ from (inl (back (inr same)))
            | inr (inr k) ↦ from (inr k)
          ],
        )
  ]
]

All-append_one :
    (P : Str → Type 0) (d : Str) (out : List Str) → P d → All P out → All P (out ++ d ∷ [])
All-append_one P d [] p v = (p, tt)
All-append_one P d (x ∷ out) p v = (v.0, All-append_one P d out p v.1)

All-add_new :
    (P : Str → Type 0) (d : Str) (out : List Str) → P d → All P out → All P (add_new d out)
unfolding add_new
All-add_new P d out p v = elim (Bool-cases (contains out d)) [
  | inl old ↦ rw old v
  | inr new ↦ rw new (All-append_one P d out p v)
]

-- Every stored entry has passed the pattern.
collect_normal-matches :
    (entries out found : List Str)
    → All (λ d. matches domain_pattern d ≡ true) out
    → collect_normal entries out ≡ ok found
    → All (λ d. matches domain_pattern d ≡ true) found
unfolding collect_normal
collect_normal-matches [] out found v h =
    subst (All (λ d. matches domain_pattern d ≡ true)) (cc h) v
collect_normal-matches (raw ∷ rest) out found v h = elim (Bool-cases (normal_form raw == [])) [
  | inl blank ↦ collect_normal-matches rest out found v (rw (blank, collect_normal) at h)
  | inr full ↦ elim (Bool-cases (matches domain_pattern (normal_form raw))) [
    | inr bad ↦ cc (rw (full, bad, collect_normal) at h)
    | inl good ↦
        collect_normal-matches rest (add_new (normal_form raw) out) found
          (All-add_new (λ d. matches domain_pattern d ≡ true) (normal_form raw) out good v)
          (rw (full, good, collect_normal) at h)
  ]
]

sorted_ok :
    (r : Result Str (List Str)) (found : List Str)
    → sorted r ≡ ok found
    → (out : List Str) × (r ≡ ok out) × (found ≡ sort str_le out)
unfolding sorted
sorted_ok (ok out) found h = (out, refl, cc h)
sorted_ok (failed raw) found h = cc h

-- A list of domains that is accepted is stored sorted, every stored domain matches the pattern, and
-- the stored domains are exactly the lower-cased, trimmed forms of the entries that are not blank.
pub normalize_domains_lem :
    (entries found : List Str)
    → normalize_domains entries ≡ ok found
    → IsSorted str_le found
      × All (λ d. matches domain_pattern d ≡ true) found
      × ((d : Str) → In d found ↔ Any (Stores d) entries)
unfolding normalize_domains
normalize_domains_lem entries found h =
    let (out, e, same) = sorted_ok (collect_normal entries []) found h in
    rw same (
      sort-IsSorted str_le str_le_total str_le_trans out,
      sort-All str_le (λ d. matches domain_pattern d ≡ true) out
          (collect_normal-matches entries [] out tt e),
      λ d.
          let (to, from) = collect_normal_lem entries [] out d e in
          let (down, up) = sort-In str_le d out in
          (
            λ i. elim (to (down i)) [ inl never ↦ absurd never | inr k ↦ k ],
            λ k. up (from (inr k)),
          ),
    )

-- An entry that is neither blank nor a domain.
abbrev IsRefused : Str → Type 0
IsRefused raw = (normal_form raw ≢ []) × (matches domain_pattern (normal_form raw) ≡ false)

collect_normal-IsRefused :
    (entries out : List Str) (e : Str)
    → collect_normal entries out ≡ failed e
    → Any IsRefused entries
unfolding collect_normal
collect_normal-IsRefused [] out e h = cc h
collect_normal-IsRefused (raw ∷ rest) out e h = elim (Bool-cases (normal_form raw == [])) [
  | inl blank ↦ inr (collect_normal-IsRefused rest out e (rw (blank, collect_normal) at h))
  | inr full ↦ elim (Bool-cases (matches domain_pattern (normal_form raw))) [
    | inr bad ↦ inl ((λ e. cc ((str_beq_iff (normal_form raw) []).1 e)), bad)
    | inl good ↦ inr (
        collect_normal-IsRefused rest (add_new (normal_form raw) out) e
          (rw (full, good, collect_normal) at h))
  ]
]

collect_normal_stops :
    (entries out found : List Str) → Any IsRefused entries → collect_normal entries out ≢ ok found
unfolding collect_normal
collect_normal_stops [] out found i h = i
collect_normal_stops (raw ∷ rest) out found i h = elim (Bool-cases (normal_form raw == [])) [
  | inl blank ↦ elim i [
    | inl (full, _) ↦ full ((str_beq_iff (normal_form raw) []).0 blank)
    | inr j ↦ collect_normal_stops rest out found j (rw (blank, collect_normal) at h)
  ]
  | inr full ↦ elim (Bool-cases (matches domain_pattern (normal_form raw))) [
    | inr bad ↦ cc (rw (full, bad, collect_normal) at h)
    | inl good ↦ elim i [
      | inl (_, bad) ↦ cc
      | inr j ↦
          collect_normal_stops rest (add_new (normal_form raw) out) found j
            (rw (full, good, collect_normal) at h)
    ]
  ]
]

sorted_failed : (r : Result Str (List Str)) (e : Str) → sorted r ≡ failed e → r ≡ failed e
unfolding sorted
sorted_failed (ok out) e h = cc h
sorted_failed (failed raw) e h = h

-- A list of domains is refused exactly when one of its entries is not blank and does not match the
-- pattern in its lower-cased, trimmed form.
normalize_domains_refuses_iff :
    (entries : List Str)
    → ((raw : Str) × (normalize_domains entries ≡ failed raw)) ↔ Any IsRefused entries
unfolding normalize_domains sorted
normalize_domains_refuses_iff entries = (
  λ (raw, h).
      collect_normal-IsRefused entries [] raw (sorted_failed (collect_normal entries []) raw h),
  λ i. elim (Result-cases (collect_normal entries [])) [
    | inl (found, h) ↦ absurd (collect_normal_stops entries [] found i h)
    | inr (e, h) ↦ (e, rw h refl)
  ],
)
