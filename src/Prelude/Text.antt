-- ===== src/Prelude/Text.antt =====
-- Go strings as lists of bytes, and the parts of Go's package strings that the source calls.
use Prim.Native.Nat.{ℕ, ◌+◌}
use Prim.Native.Char.{code}
use Prim.Native.String.{String}
use mathlib.Core.Path.{◌≡◌, refl, ap}
use mathlib.Core.Logic.{◌↔◌, ◌⊎◌, inl, inr}
use mathlib.Core.Bool.{Bool, true, false, ◌&&◌, ◌||◌}
use mathlib.Core.Option.{Option, none, some}
use mathlib.Core.List.{List, [], ◌∷◌, ◌++◌}
use native.Mathlib.Omega.{arith}
use llmbox.Prelude.Tests.{ltb, leb, nat_beq, if◌then◌else◌, Bool-cases, Eq}

abbrev pub Str : Type 0
Str = List ℕ

-- The code points of a literal, which are its bytes where it is ASCII.
abbrev pub codes : String → Str
codes String.[] = []
codes (String.◌∷◌ c s) = code c ∷ codes s

unfoldable pub str_beq : Str → Str → Bool
str_beq [] [] = true
str_beq (x ∷ xs) (y ∷ ys) = nat_beq x y && str_beq xs ys
str_beq _ _ = false

pub str_beq_iff : (s t : Str) → (str_beq s t ≡ true) ↔ (s ≡ t)
unfolding str_beq
str_beq_iff [] [] = ground arith
str_beq_iff (x ∷ xs) (y ∷ ys) = ground (arith, str_beq_iff xs ys)
str_beq_iff [] (y ∷ ys) = ground arith
str_beq_iff (x ∷ xs) [] = ground arith

instance abbrev pub str_eq : Eq Str
str_eq = record { beq = str_beq; beq_iff = str_beq_iff }

-- `a <= b` on strings: bytewise, a prefix first.
unfoldable pub str_le : Str → Str → Bool
str_le [] t = true
str_le (x ∷ xs) [] = false
str_le (x ∷ xs) (y ∷ ys) = ltb x y || nat_beq x y && str_le xs ys

pub str_le_total : (s t : Str) → (str_le s t ≡ true) ⊎ (str_le t s ≡ true)
unfolding str_le
str_le_total [] t = inl refl
str_le_total (x ∷ xs) [] = inr refl
str_le_total (x ∷ xs) (y ∷ ys) = ground (arith, str_le_total xs ys)

pub str_le_trans : (s t u : Str) → str_le s t ≡ true → str_le t u ≡ true → str_le s u ≡ true
unfolding str_le
str_le_trans [] t u h k = refl
str_le_trans (x ∷ xs) [] u h k = ground arith
str_le_trans (x ∷ xs) (y ∷ ys) [] h k = ground arith
str_le_trans (x ∷ xs) (y ∷ ys) (z ∷ zs) h k = ground (arith, str_le_trans xs ys zs)

pub str_le_antisym : (s t : Str) → str_le s t ≡ true → str_le t s ≡ true → s ≡ t
unfolding str_le
str_le_antisym [] [] h k = refl
str_le_antisym [] (y ∷ ys) h k = ground arith
str_le_antisym (x ∷ xs) [] h k = ground arith
str_le_antisym (x ∷ xs) (y ∷ ys) h k = ground (arith, str_le_antisym xs ys)

-- `strings.ToLower` on ASCII text.
unfoldable pub lower_byte : ℕ → ℕ
lower_byte c = if leb b'A' c && leb c b'Z' then c + 32 else c

unfoldable pub to_lower : Str → Str
to_lower [] = []
to_lower (c ∷ s) = lower_byte c ∷ to_lower s

pub to_lower_idem : (s : Str) → to_lower (to_lower s) ≡ to_lower s
unfolding to_lower lower_byte
to_lower_idem [] = refl
to_lower_idem (c ∷ s) = ground (arith, to_lower_idem s)

pub to_lower-append : (s t : Str) → to_lower (s ++ t) ≡ to_lower s ++ to_lower t
unfolding to_lower
to_lower-append [] t = refl
to_lower-append (c ∷ s) t = ground (arith, to_lower-append s t)

-- `strings.CutPrefix`: the rest behind the prefix, or nothing.
unfoldable pub cut_prefix : Str → Str → Option Str
cut_prefix [] s = some s
cut_prefix (p ∷ ps) [] = none
cut_prefix (p ∷ ps) (c ∷ s) = if nat_beq p c then cut_prefix ps s else none

pub cut_prefix_iff : (p s r : Str) → (cut_prefix p s ≡ some r) ↔ (s ≡ p ++ r)
unfolding cut_prefix
cut_prefix_iff [] s r = ground arith
cut_prefix_iff (x ∷ p) [] r = ground arith
cut_prefix_iff (x ∷ p) (c ∷ s) r = ground (arith, cut_prefix_iff p s r)

-- `strings.HasSuffix`: one of the tails is the suffix.
unfoldable pub has_suffix : Str → Str → Bool
has_suffix [] t = str_beq [] t
has_suffix (c ∷ s) t = str_beq (c ∷ s) t || has_suffix s t

pub has_suffix-append : (p t : Str) → has_suffix (p ++ t) t ≡ true
unfolding has_suffix
has_suffix-append [] [] = ground (arith, str_beq_iff [] [])
has_suffix-append [] (c ∷ t) = ground (arith, str_beq_iff (c ∷ t) (c ∷ t))
has_suffix-append (x ∷ p) t = ground (arith, has_suffix-append p t)

pub has_suffix_split : (s t : Str) → has_suffix s t ≡ true → (p : Str) × (s ≡ p ++ t)
unfolding has_suffix
has_suffix_split [] t h = ([], (str_beq_iff [] t).0 h)
has_suffix_split (c ∷ s) t h = elim (Bool-cases (str_beq (c ∷ s) t)) [
  | inl whole ↦ ([], (str_beq_iff (c ∷ s) t).0 whole)
  | inr other ↦ let (p, q) = has_suffix_split s t (rw other at h) in (c ∷ p, ap (◌∷◌ c) q)
]

-- `strings.TrimSuffix` of the one byte `.`, as an initial segment and a last byte.
unfoldable pub trim_dot : Str → Str
trim_dot [] = []
trim_dot (c ∷ []) = if nat_beq c b'.' then [] else c ∷ []
trim_dot (c ∷ d ∷ s) = c ∷ trim_dot (d ∷ s)

pub trim_dot-append : (s : Str) → trim_dot (s ++ b'.' ∷ []) ≡ s
unfolding trim_dot
trim_dot-append [] = refl
trim_dot-append (c ∷ []) = refl
trim_dot-append (c ∷ d ∷ s) = ground (arith, trim_dot-append (d ∷ s))
