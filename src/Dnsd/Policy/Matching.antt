-- ===== src/Dnsd/Policy/Matching.antt =====
-- What a pattern matches: an exact name, or every name below a wildcard's suffix.
use llmbox.Prelude.{
  ◌≡◌, sym, ap, ◌∙◌, ◌↔◌, inl, inr, true, none, some, ◌∷◌, ◌++◌, Str, codes, str_beq_iff, str_eq,
  to_lower, to_lower_idem, trim_dot, cut_prefix, cut_prefix_iff, has_suffix, has_suffix-append,
  has_suffix_split, Option-cases, ◌==◌,
}
use llmbox.Dnsd.Policy.{normalize_name, match_domain}

-- When a pattern covers an already normalised name.
pub data Matches (pattern name : Str) : Type 0 where
  exact :
      cut_prefix (codes "*.") (normalize_name pattern) ≡ none
      → name ≡ normalize_name pattern
      → Matches pattern name
  wildcard :
      (below suffix : Str)
      → normalize_name pattern ≡ codes "*." ++ suffix
      → name ≡ below ++ b'.' ∷ suffix
      → Matches pattern name

module _ (pattern name : Str) where
  match_domain_plain :
      cut_prefix (codes "*.") (normalize_name pattern) ≡ none
      → match_domain pattern name ≡ (name == normalize_name pattern)
  unfolding match_domain
  match_domain_plain plain = rw (plain, match_domain)

  match_domain_star :
      (suffix : Str)
      → cut_prefix (codes "*.") (normalize_name pattern) ≡ some suffix
      → match_domain pattern name ≡ has_suffix name (b'.' ∷ suffix)
  unfolding match_domain
  match_domain_star suffix star = rw (star, match_domain)

  match_domain-Matches : match_domain pattern name ≡ true → Matches pattern name
  match_domain-Matches h = elim (Option-cases (cut_prefix (codes "*.") (normalize_name pattern))) [
    | inl plain ↦
        exact plain
          ((str_beq_iff name (normalize_name pattern)).0 (sym (match_domain_plain plain) ∙ h))
    | inr (suffix, star) ↦
        let (below, e) =
          has_suffix_split name (b'.' ∷ suffix) (sym (match_domain_star suffix star) ∙ h) in
        wildcard below suffix ((cut_prefix_iff (codes "*.") (normalize_name pattern) suffix).0 star)
          e
  ]

  Matches-match_domain : Matches pattern name → match_domain pattern name ≡ true
  Matches-match_domain (exact plain e) =
      match_domain_plain plain ∙ (str_beq_iff name (normalize_name pattern)).1 e
  Matches-match_domain (wildcard below suffix star e) =
      match_domain_star suffix
        ((cut_prefix_iff (codes "*.") (normalize_name pattern) suffix).1 star)
      ∙ rw e (has_suffix-append below (b'.' ∷ suffix))

  -- A pattern covers exactly the names that `Matches` describes.
  pub match_domain_iff : (match_domain pattern name ≡ true) ↔ Matches pattern name
  match_domain_iff = (match_domain-Matches, Matches-match_domain)

-- Case and a trailing root dot make no difference to the name that is matched.
pub normalize-to_lower : (q : Str) → normalize_name (to_lower q) ≡ normalize_name q
unfolding normalize_name
normalize-to_lower q = ap trim_dot (to_lower_idem q)
