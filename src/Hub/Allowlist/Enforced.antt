-- ===== src/Hub/Allowlist/Enforced.antt =====
-- From the hub's groups to the resolver's answers on the spoke that the policy is pushed to.
use llmbox.Prelude.{
  ◌≡◌, ◌≢◌, ◌↔◌, refl, sym, subst, inl, inr, none, List, [], ◌∷◌, map, arith, Str, str_eq, beq_refl,
  Any, All, Option-cases, get-put, get-del,
}
use llmbox.Netfw.Firewall.{Programmer}
use llmbox.Dnsd.Policy.{Rule, StaticPolicy, normalize_name, set, rules_of, allowed}
use llmbox.Dnsd.Policy.Matching.{Matches}
use llmbox.Dnsd.Policy.Deciding.{FirstRule, here, later, box_rules, allowed_iff, blocked_iff}
use llmbox.HubStore.Database.{AllowlistGroup}
use llmbox.Isolation.{DomainRule, Enforcer, rules_from_policy, to_rule, set_network_policy}
use llmbox.Hub.Allowlist.{box_network_policy}
use llmbox.Hub.Allowlist.Policies.{Permits, HasPattern, box_network_policy_iff}

-- Some group that applies to the box lists a domain that covers the name.
abbrev pub IsPermitted : List AllowlistGroup → List Str → Str → Type 0
IsPermitted groups assigned name = (d : Str) × Any (Permits assigned d) groups × Matches d name

FirstRule-Any :
    (name : Str) {rules : List Rule} {r : Rule}
    → FirstRule name rules r
    → Any (λ r. Matches r.pattern name) rules
FirstRule-Any name (here m) = inl m
FirstRule-Any name (later miss first) = inr (FirstRule-Any name first)

Any-not_All : {A : Type 0} (P : A → Type 0) (xs : List A) → Any P xs → All (λ x. ¬ P x) xs → ⊥
Any-not_All P [] i a = i
Any-not_All P (x ∷ xs) (inl p) a = a.0 p
Any-not_All P (x ∷ xs) (inr i) a = Any-not_All P xs i a.1

-- The patterns of the rules that the spoke makes of a policy.
Any-to_rule :
    (name : Str) (rs : List DomainRule)
    → Any (λ r. Matches r.pattern name) (map to_rule rs)
      ↔ ((d : Str) × HasPattern d rs × Matches d name)
Any-to_rule name [] = ((λ i. absurd i), (λ (d, i, m). absurd i))
Any-to_rule name (r ∷ rs) =
    let (to, from) = Any-to_rule name rs in
    (
      λ i. elim i [
        | inl m ↦ (r.pattern, inl refl, m)
        | inr j ↦ let (d, k, m) = to j in (d, inr k, m)
      ],
      λ (d, i, m). elim i [
        | inl e ↦ inl (subst (λ p. Matches p name) (sym e) m)
        | inr k ↦ inr (from (d, k, m))
      ],
    )

box_rules-set_own :
    (p : StaticPolicy) (box : Str) (rules : List Rule) → box_rules (set box rules p) box ≡ rules
unfolding set rules_of
box_rules-set_own p box [] = ground (arith, get-del box box p, beq_refl {A = Str} box)
box_rules-set_own p box (r ∷ rules) =
    ground (arith, get-put box box (r ∷ rules) p, beq_refl {A = Str} box)

module _ (P : Programmer) (box : Str) (groups : List AllowlistGroup) (assigned : List Str)
    (e : Enforcer P) where
  abbrev pub pushed : StaticPolicy
  pushed = (set_network_policy P box (box_network_policy groups assigned) e).policy

  own_rules : box_rules pushed box ≡ map to_rule (box_network_policy groups assigned).rules
  unfolding set_network_policy rules_from_policy box_network_policy
  own_rules = box_rules-set_own e.policy box _

  -- Once the policy that the hub computes for a box is pushed to its spoke, the resolver permits
  -- a name to the box exactly when a global group, or one that is assigned to the box, lists a
  -- domain that covers the normalized name.
  pub pushed_policy_iff :
      (qname : Str)
      → (allowed pushed box qname ≢ none) ↔ IsPermitted groups assigned (normalize_name qname)
  pushed_policy_iff qname =
      let name = normalize_name qname in
      let (to, from) = Any-to_rule name (box_network_policy groups assigned).rules in
      (
        λ some_ttl. elim (Option-cases (allowed pushed box qname)) [
          | inl blocked ↦ absurd (some_ttl blocked)
          | inr (t, permitted) ↦
              let (r, first, _) = (allowed_iff pushed box qname t).0 permitted in
              let (d, h, m) =
                to (
                  subst (Any (λ r. Matches r.pattern name)) own_rules (FirstRule-Any name first)) in
              (d, (box_network_policy_iff assigned groups d).0 h, m)
        ],
        λ (d, p, m) blocked.
            let i = from (d, (box_network_policy_iff assigned groups d).1 p, m) in
            Any-not_All (λ (r : Rule). Matches r.pattern name) (box_rules pushed box)
              (subst (Any (λ r. Matches r.pattern name)) (sym own_rules) i)
              ((blocked_iff pushed box qname).0 blocked),
      )
