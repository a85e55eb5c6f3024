-- ===== src/Box/Identifiers.antt =====
-- internal/shared/sandbox/sandbox.go, `ValidBoxID`.
use llmbox.Prelude.{ℕ, Bool, ◌||◌, nat_beq, Str, to_lower, str_eq, ◌==◌}
use llmbox.Prelude.Regex.{Regex, byte, seq, matches, optional, between, up_to}

abbrev pub lower_or_digit : ℕ → Bool
lower_or_digit c = between b'a' b'z' c || between b'0' b'9' c

-- `^[a-z0-9]([a-z0-9-]{0,61}[a-z0-9])?$`.
abbrev box_id_pattern : Regex
box_id_pattern = seq (byte lower_or_digit) (
    optional
      (seq (up_to 61 (byte (λ c. lower_or_digit c || nat_beq c b'-'))) (byte lower_or_digit)))

unfoldable pub valid_box_id : Str → Bool
unfolding matches
valid_box_id id = matches box_id_pattern id

-- `strings.EqualFold` on ASCII text.
unfoldable pub equal_fold : Str → Str → Bool
equal_fold s t = to_lower s == to_lower t
