-- ===== src/Hub/Allowlist/Domains/Accepting.antt =====
-- A domain that the hub accepts is in the form in which the resolver compares names.
use llmbox.Prelude.{
  ℕ, ◌≡◌, refl, ap, ◌∙◌, true, [], ◌∷◌, ◌++◌, arith, Str, to_lower, lower_byte, trim_dot, All,
  nat_beq, ◌⊎◌, inl, inr, Bool-cases, nat_beq_iff, ◌||◌,
}
use llmbox.Prelude.Regex.{matches, between}
use llmbox.Prelude.Regex.Bytes.{Within, Tail, matches-All, matches-last}
use llmbox.Dnsd.Policy.{normalize_name}
use llmbox.Hub.Allowlist.Domains.{domain_pattern, label, lower_or_digit}

-- A byte that lower-casing leaves as it is.
abbrev IsLower : ℕ → Type 0
IsLower c = lower_byte c ≡ c

pattern-Within : Within IsLower domain_pattern
unfolding lower_byte
pattern-Within =
    let dot : (c : ℕ) → nat_beq c b'.' ≡ true → IsLower c = λ c h. ground arith in
    let asterisk : (c : ℕ) → nat_beq c b'*' ≡ true → IsLower c = λ c h. ground arith in
    let letter : (c : ℕ) → between b'a' b'z' c ≡ true → IsLower c = λ c h. ground arith in
    let word : (c : ℕ) → lower_or_digit c ≡ true → IsLower c = λ c h. ground arith in
    let inner : (c : ℕ) → (lower_or_digit c || nat_beq c b'-') ≡ true → IsLower c =
      λ c h. ground arith in
    let name : Within IsLower label = (word, ((inner, word), tt)) in
    (((asterisk, dot), tt), (((name, dot), (name, dot)), (letter, (letter, letter))))

pattern-Tail : Tail b'.' domain_pattern
pattern-Tail = ((((refl, inr refl), inl refl), inl refl), inl refl)

decide-IsLower : (c : ℕ) → IsLower c ⊎ (¬ IsLower c)
decide-IsLower c = elim (Bool-cases (nat_beq (lower_byte c) c)) [
  | inl same ↦ inl ((nat_beq_iff (lower_byte c) c).0 same)
  | inr other ↦ inr (λ e. cc ((nat_beq_iff (lower_byte c) c).1 e))
]

to_lower_fixed : (s : Str) → All IsLower s → to_lower s ≡ s
unfolding to_lower
to_lower_fixed [] v = refl
to_lower_fixed (c ∷ s) v = rw (v.0, to_lower_fixed s v.1) refl

trim_dot_cases : (s : Str) → (trim_dot s ≡ s) ⊎ ((t : Str) × (s ≡ t ++ b'.' ∷ []))
unfolding trim_dot
trim_dot_cases [] = inl refl
trim_dot_cases (c ∷ []) = elim (Bool-cases (nat_beq c b'.')) [
  | inl dot ↦ inr ([], ground (arith, nat_beq_iff c b'.'))
  | inr other ↦ inl (rw other refl)
]
trim_dot_cases (c ∷ d ∷ s) = elim (trim_dot_cases (d ∷ s)) [
  | inl same ↦ inl (ap (λ r. c ∷ r) same)
  | inr (t, e) ↦ inr (c ∷ t, ap (λ r. c ∷ r) e)
]

-- A domain that matches the hub's pattern is already in the normal form in which the resolver of a
-- spoke compares names.
pub accepted_domain_is_normal : (d : Str) → matches domain_pattern d ≡ true → normalize_name d ≡ d
unfolding normalize_name
accepted_domain_is_normal d h =
    let lower =
      to_lower_fixed d (matches-All IsLower decide-IsLower domain_pattern d pattern-Within h) in
    elim (trim_dot_cases d) [
      | inl same ↦ ap trim_dot lower ∙ same
      | inr (t, dotted) ↦
          cc (matches-last b'.' domain_pattern t pattern-Tail, ap (matches domain_pattern) dotted)
    ]
