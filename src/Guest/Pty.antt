-- ===== src/Guest/Pty.antt =====
-- internal/guest/pty.go: the control messages that carry keystrokes and window sizes to a terminal,
-- and the loop that applies them. The processes and the copying of output are left out.
pub mod Pumping
use llmbox.Prelude.{
  ℕ, zero, suc, ◌*◌, ◌%◌, ◌^◌, Bool, true, false, Option, none, some, List, [], ◌∷◌, ◌++◌, ltb,
  nat_beq, if◌then◌else◌, length, take, drop, Str, Result, ok, failed,
}
use llmbox.Netfw.Firewall.{Error}
use llmbox.Guest.Words.{Bytes, put_uint32, uint32, put_uint16, uint16, read_full, Writer, write}

abbrev pub msg_data : ℕ
msg_data = 0

abbrev pub msg_resize : ℕ
msg_resize = 1

abbrev pub control_header_len : ℕ
control_header_len = 5

abbrev pub max_control_payload : ℕ
max_control_payload = 2 ^ 20

-- `encodePTYControl`.
unfoldable pub encode_control : ℕ → Bytes → Bytes
encode_control msg_type payload = msg_type ∷ put_uint32 (length payload % 2 ^ 32) ++ payload

-- `encodePTYResize`.
unfoldable pub encode_resize : ℕ → ℕ → Bytes
unfolding encode_control
encode_resize cols rows = encode_control msg_resize (put_uint16 cols ++ put_uint16 rows)

-- `sizeOr`.
size_or : ℕ → ℕ → ℕ
size_or v fallback = if nat_beq v 0 then fallback else v

-- The master of a terminal, with its size.
pub record Terminal : Type 0 where
  pub master : Writer
  pub cols : ℕ
  pub rows : ℕ

-- One message from what the connection still delivers; `none` makes the loop return.
abbrev with_payload : ℕ → Bytes × Result Str Bytes → Option (ℕ × Bytes × Bytes)
with_payload msg_type (r, failed e) = none
with_payload msg_type (r, ok payload) = some (msg_type, payload, r)

abbrev read_payload : Bytes × Result Str Bytes → Option (ℕ × Bytes × Bytes)
read_payload (r, failed e) = none
read_payload (r, ok []) = none
read_payload (r, ok (msg_type ∷ size)) =
    let n = uint32 size in
    if ltb max_control_payload n then none else with_payload msg_type (read_full n r)

unfoldable pub next_message : Bytes → Option (ℕ × Bytes × Bytes)
next_message r = read_payload (read_full control_header_len r)

-- The `switch` on a message: the terminal, and whether the loop goes on.
abbrev resized : Bytes → Terminal → Terminal
resized payload t =
    if nat_beq (length payload) 4
    then record t { cols = uint16 (take 2 payload); rows = uint16 (drop 2 payload) }
    else t

abbrev typed : Terminal → Writer × Error → Terminal × Bool
typed t (w, none) = (record t { master = w }, true)
typed t (w, some e) = (record t { master = w }, false)

unfoldable pub apply_message : ℕ → Bytes → Terminal → Terminal × Bool
apply_message msg_type payload t =
    if nat_beq msg_type msg_data
    then typed t (write payload t.master)
    else (if nat_beq msg_type msg_resize then (resized payload t, true) else (t, true))

-- `pumpPTYInput`, with fuel: the terminal when the loop returns, or nothing when the fuel ran out.
unfoldable pub pump_input : ℕ → Bytes → Terminal → Option Terminal
pump_input zero r t = none
pump_input (suc fuel) r t = elim (next_message r) [
  | none ↦ some t
  | some (msg_type, payload, rest) ↦
      let applied = apply_message msg_type payload t in
      elim applied.1 [ false ↦ some applied.0 | true ↦ pump_input fuel rest applied.0 ]
]
