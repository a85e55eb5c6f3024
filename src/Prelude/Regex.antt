-- ===== src/Prelude/Regex.antt =====
-- The part of Go's package regexp that the source uses: patterns over bytes, matched as a whole.
pub mod Bytes
use Prim.Native.Nat.{ℕ, zero, suc}
use mathlib.Core.Bool.{Bool, true, false, ◌&&◌, ◌||◌}
use mathlib.Core.List.{List, [], ◌∷◌}
use llmbox.Prelude.Tests.{leb, nat_beq, if◌then◌else◌}

pub data Regex : Type 0 where
  nothing : Regex
  empty_text : Regex
  byte : (ℕ → Bool) → Regex
  seq : Regex → Regex → Regex
  alt : Regex → Regex → Regex
  star : Regex → Regex

abbrev pub accepts_empty : Regex → Bool
accepts_empty nothing = false
accepts_empty empty_text = true
accepts_empty (byte p) = false
accepts_empty (seq r s) = accepts_empty r && accepts_empty s
accepts_empty (alt r s) = accepts_empty r || accepts_empty s
accepts_empty (star r) = true

-- The pattern of what may follow a first byte.
abbrev pub after_byte : ℕ → Regex → Regex
after_byte c nothing = nothing
after_byte c empty_text = nothing
after_byte c (byte p) = if p c then empty_text else nothing
after_byte c (seq r s) =
    let left = seq (after_byte c r) s in
    let right = after_byte c s in if accepts_empty r then alt left right else left
after_byte c (alt r s) = alt (after_byte c r) (after_byte c s)
after_byte c (star r) = seq (after_byte c r) (star r)

-- `^r$` matches.
unfoldable pub matches : Regex → List ℕ → Bool
matches r [] = accepts_empty r
matches r (c ∷ s) = matches (after_byte c r) s

-- `r?`, `r+`, a literal byte and a class.
abbrev pub optional : Regex → Regex
optional r = alt r empty_text

abbrev pub many1 : Regex → Regex
many1 r = seq r (star r)

abbrev pub literal : ℕ → Regex
literal c = byte (λ d. nat_beq d c)

abbrev pub between : ℕ → ℕ → ℕ → Bool
between a b c = leb a c && leb c b

-- `r{0,n}`.
abbrev pub up_to : ℕ → Regex → Regex
up_to zero r = empty_text
up_to (suc n) r = alt empty_text (seq r (up_to n r))
