-- ===== src/Prelude/Spaces.antt =====
-- Go's `strings.TrimSpace` on ASCII text.
use Prim.Native.Nat.{ℕ}
use mathlib.Core.Bool.{Bool, ◌&&◌, ◌||◌}
use mathlib.Core.List.{[], ◌∷◌}
use llmbox.Prelude.Tests.{leb, nat_beq, if◌then◌else◌, ◌==◌}
use llmbox.Prelude.Text.{Str, str_eq}

abbrev is_space : ℕ → Bool
is_space c = nat_beq c 32 || (leb 9 c && leb c 13)

abbrev trim_left : Str → Str
trim_left [] = []
trim_left (c ∷ s) = if is_space c then trim_left s else c ∷ s

abbrev trim_right : Str → Str
trim_right [] = []
trim_right (c ∷ s) =
    let rest = trim_right s in
    if is_space c then (if rest == [] then [] else c ∷ rest) else c ∷ rest

unfoldable pub trim_space : Str → Str
trim_space s = trim_right (trim_left s)
