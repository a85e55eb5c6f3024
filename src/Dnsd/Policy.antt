-- ===== src/Dnsd/Policy.antt =====
-- internal/spoke/dnsd/allowlist.go: the allowlist rules of each box. Query names and patterns are
-- ASCII, as names in DNS presentation format are.
pub mod Matching
pub mod Deciding
use llmbox.Prelude.{
  Bool, Option, none, some, List, [], ◌∷◌, ℤ, if◌then◌else◌, Str, codes, str_eq, to_lower, trim_dot,
  cut_prefix, has_suffix, ◌==◌, Table, get, put, del,
}

pub record Rule : Type 0 where
  pub pattern : Str
  pub ttl : ℤ

-- `StaticPolicy`, its map.
abbrev pub StaticPolicy : Type 0
StaticPolicy = Table Str (List Rule)

-- `NewStaticPolicy`.
abbrev new_static_policy : StaticPolicy
new_static_policy = []

unfoldable pub normalize_name : Str → Str
normalize_name qname = trim_dot (to_lower qname)

unfoldable pub match_domain : Str → Str → Bool
unfolding normalize_name
match_domain pattern name =
    let normal = normalize_name pattern in
    elim (cut_prefix (codes "*.") normal) [
      | some suffix ↦ has_suffix name (b'.' ∷ suffix)
      | none ↦ name == normal
    ]

-- `Set`: no rules remove the box.
unfoldable pub set : Str → List Rule → StaticPolicy → StaticPolicy
set box [] p = del box p
set box (r ∷ rules) p = put box (r ∷ rules) p

unfoldable pub remove : Str → StaticPolicy → StaticPolicy
remove box p = del box p

-- The loop of `Allowed`.
unfoldable pub first_match : Str → List Rule → Option ℤ
first_match name [] = none
first_match name (r ∷ rules) =
    if match_domain r.pattern name then some r.ttl else first_match name rules

-- `p.rules[boxID]`, which is empty for an unknown box.
unfoldable pub rules_of : Option (List Rule) → List Rule
rules_of none = []
rules_of (some rules) = rules

-- `Allowed`: the TTL of the first rule that matches.
unfoldable pub allowed : StaticPolicy → Str → Str → Option ℤ
unfolding first_match rules_of normalize_name
allowed p box qname = first_match (normalize_name qname) (rules_of (get box p))
