-- ===== src/Hub/Allowlist/Domains.antt =====
-- internal/hub/allowlist.go, `normalizeDomains` and `domainPattern`: which domains an operator may
-- list, and in which form they are stored.
pub mod Normalizing
pub mod Accepting
use llmbox.Prelude.{
  ℕ, ◌≡◌, ◌≢◌, ◌↔◌, refl, sym, ap, subst, ◌∙◌, ◌⊎◌, inl, inr, Bool, true, false, ◌||◌, Option, none,
  some, List, [], ◌∷◌, ◌++◌, arith, ltb, leb, nat_beq, if◌then◌else◌, Str, str_eq, str_le,
  str_le_total, str_le_trans, str_beq_iff, ◌==◌, to_lower, trim_space, Result, ok, failed, sort,
  sort-In, IsSorted, sort-IsSorted, sort-All, In, All, Any, Bool-cases, contains, contains_iff,
  In-append, Result-cases,
}
use llmbox.Prelude.Regex.{Regex, byte, seq, star, matches, optional, many1, literal, between}
use llmbox.Hub.Allowlist.{add_new}
use llmbox.Hub.Allowlist.Policies.{add_new_lem}

abbrev pub lower_or_digit : ℕ → Bool
lower_or_digit c = between b'a' b'z' c || between b'0' b'9' c

-- `[a-z0-9]([a-z0-9-]*[a-z0-9])?`.
abbrev pub label : Regex
label =
    seq (byte lower_or_digit)
      (optional (seq (star (byte (λ c. lower_or_digit c || nat_beq c b'-'))) (byte lower_or_digit)))

-- `^(\*\.)?([a-z0-9]([a-z0-9-]*[a-z0-9])?\.)+[a-z]{2,}$`.
abbrev pub domain_pattern : Regex
domain_pattern = seq (optional (seq (literal b'*') (literal b'.'))) (
    seq (many1 (seq label (literal b'.')))
      (seq (byte (between b'a' b'z')) (many1 (byte (between b'a' b'z')))))

-- One entry as it is stored.
pub normal_form : Str → Str
unfolding trim_space
normal_form raw = to_lower (trim_space raw)

-- The loop of `normalizeDomains`, with the entry that it refuses.
pub collect_normal : List Str → List Str → Result Str (List Str)
unfolding normal_form
collect_normal [] out = ok out
collect_normal (raw ∷ rest) out =
    let d = normal_form raw in
    let skipped = collect_normal rest out in
    let added = collect_normal rest (add_new d out) in
    if d == [] then skipped else if matches domain_pattern d then added else failed raw

pub sorted : Result Str (List Str) → Result Str (List Str)
sorted (ok out) = ok (sort str_le out)
sorted (failed raw) = failed raw

-- `normalizeDomains`.
unfoldable pub normalize_domains : List Str → Result Str (List Str)
unfolding collect_normal sorted
normalize_domains entries = sorted (collect_normal entries [])
