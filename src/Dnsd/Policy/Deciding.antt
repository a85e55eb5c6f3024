-- ===== src/Dnsd/Policy/Deciding.antt =====
-- What `Allowed` answers after any history of `Set` and `Remove`.
use llmbox.Prelude.{
  ◌≡◌, ap, ◌∙◌, ◌↔◌, inl, inr, none, some, List, [], ◌∷◌, arith, ℤ, Str, str_eq, ◌==◌,
  if◌then◌else◌, get, get-put, get-del, All, Bool-cases, to_lower,
}
use llmbox.Dnsd.Policy.{
  Rule, StaticPolicy, normalize_name, match_domain, set, remove, first_match, rules_of, allowed,
}
use llmbox.Dnsd.Policy.Matching.{Matches, match_domain_iff, normalize-to_lower}

-- The rules that decide for a box.
abbrev pub box_rules : StaticPolicy → Str → List Rule
box_rules p box = rules_of (get box p)

-- `r` is the first rule whose pattern covers the name.
pub data FirstRule (name : Str) : List Rule → Rule → Type 0 where
  here : {r : Rule} {rules : List Rule} → Matches r.pattern name → FirstRule name (r ∷ rules) r
  later :
      {r s : Rule} {rules : List Rule}
      → ¬ Matches s.pattern name
      → FirstRule name rules r
      → FirstRule name (s ∷ rules) r

first_match-FirstRule :
    (name : Str) (rules : List Rule) (t : ℤ)
    → first_match name rules ≡ some t
    → (r : Rule) × FirstRule name rules r × (r.ttl ≡ t)
unfolding first_match
first_match-FirstRule name [] t h = cc
first_match-FirstRule name (r ∷ rules) t h = elim (Bool-cases (match_domain r.pattern name)) [
  | inl hit ↦ (r, here ((match_domain_iff r.pattern name).0 hit), ground arith)
  | inr miss ↦
      let (s, first, e) = first_match-FirstRule name rules t (rw miss at h) in
      (s, later (λ m. cc ((match_domain_iff r.pattern name).1 m)) first, e)
]

FirstRule-first_match :
    (name : Str) {rules : List Rule} {r : Rule}
    → FirstRule name rules r
    → first_match name rules ≡ some r.ttl
unfolding first_match
FirstRule-first_match name (here {r} m) = rw ((match_domain_iff r.pattern name).1 m)
FirstRule-first_match name (later {s} miss first) =
    elim (Bool-cases (match_domain s.pattern name)) [
      | inl hit ↦ absurd (miss ((match_domain_iff s.pattern name).0 hit))
      | inr unmatched ↦ rw unmatched (FirstRule-first_match name first)
    ]

first_match-none :
    (name : Str) (rules : List Rule)
    → (first_match name rules ≡ none) ↔ All (λ r. ¬ Matches r.pattern name) rules
unfolding first_match
first_match-none name [] = ground arith
first_match-none name (r ∷ rules) =
    let (to, from) = match_domain_iff r.pattern name in
    elim (Bool-cases (match_domain r.pattern name)) [
      | inl hit ↦ rw hit ((λ e. cc), (λ a. absurd (a.0 (to hit))))
      | inr miss ↦ rw miss (
        λ e. ((λ m. cc (from m)), (first_match-none name rules).0 e),
        λ a. (first_match-none name rules).1 a.1,
      )
    ]

module _ (p : StaticPolicy) (box qname : Str) where
  -- The policy permits a name with a TTL exactly when the first of the box's rules that matches
  -- the normalized name has that TTL.
  pub allowed_iff :
      (t : ℤ)
      → (allowed p box qname ≡ some t)
        ↔ ((r : Rule) × FirstRule (normalize_name qname) (box_rules p box) r × (r.ttl ≡ t))
  unfolding allowed
  allowed_iff t = (
    first_match-FirstRule (normalize_name qname) (box_rules p box) t,
    λ (r, first, e). FirstRule-first_match (normalize_name qname) first ∙ ap some e,
  )

  -- The policy blocks a name exactly when none of the box's rules matches the normalized name.
  pub blocked_iff :
      (allowed p box qname ≡ none)
      ↔ All (λ r. ¬ Matches r.pattern (normalize_name qname)) (box_rules p box)
  unfolding allowed
  blocked_iff = first_match-none (normalize_name qname) (box_rules p box)

  allowed-to_lower : allowed p box (to_lower qname) ≡ allowed p box qname
  unfolding allowed
  allowed-to_lower = rw (normalize-to_lower qname)

-- `Set` decides for its own box by the new rules alone, and for no other box.
allowed-set :
    (p : StaticPolicy) (box other qname : Str) (rules : List Rule)
    → allowed (set box rules p) other qname
      ≡ (if box == other then first_match (normalize_name qname) rules else allowed p other qname)
unfolding allowed set first_match rules_of
allowed-set p box other qname [] = ground (arith, get-del box other p)
allowed-set p box other qname (r ∷ rules) = ground (arith, get-put box other (r ∷ rules) p)

-- `Remove` blocks every query of its box, and changes no other box.
allowed-remove :
    (p : StaticPolicy) (box other qname : Str)
    → allowed (remove box p) other qname ≡ (if box == other then none else allowed p other qname)
unfolding allowed remove first_match rules_of
allowed-remove p box other qname = ground (arith, get-del box other p)
