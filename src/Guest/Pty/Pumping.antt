-- ===== src/Guest/Pty/Pumping.antt =====
-- That the loop over control messages returns, and does what the messages that were sent say.
use llmbox.Prelude.{
  ℕ, zero, suc, ◌+◌, ◌%◌, ◌^◌, ◌≤◌, ◌<◌, ◌≡◌, refl, ap, ◌∙◌, inl, inr, Bool, true, false, some,
  List, [], ◌∷◌, ◌++◌, append_assoc, arith, ltb, Bool-cases, Option-cases, All, length,
  length-append, Str, Result, ok, failed,
}
use llmbox.Guest.Words.{
  Bytes, put_uint32, uint32, uint32-put_uint32, length-put_uint32, put_uint16, uint16, read_full,
  read_full-append, read_full-le, read_full_ok, write,
}
use llmbox.Guest.Pty.{
  Terminal, msg_data, msg_resize, control_header_len, max_control_payload, encode_control,
  encode_resize, with_payload, read_payload, next_message, apply_message, pump_input,
}

with_payload-some :
    (x t : ℕ) (p : Bytes × Result Str Bytes) (payload rest : Bytes)
    → with_payload x p ≡ some (t, payload, rest)
    → p.0 ≡ rest
with_payload-some x t (r, failed e) payload rest h = cc h
with_payload-some x t (r, ok b) payload rest h = cc h

read_payload-some :
    (p : Bytes × Result Str Bytes) (t : ℕ) (payload rest : Bytes)
    → read_payload p ≡ some (t, payload, rest)
    → (b : Bytes) × (p.1 ≡ ok b) × (length rest ≤ length p.0)
read_payload-some (r, failed e) t payload rest h = cc h
read_payload-some (r, ok []) t payload rest h = cc h
read_payload-some (r, ok (x ∷ size)) t payload rest h =
    elim (Bool-cases (ltb max_control_payload (uint32 size))) [
      | inl large ↦ cc (rw large at h)
      | inr small ↦
          let same =
            with_payload-some x t (read_full (uint32 size) r) payload rest (rw small at h) in
          (x ∷ size, refl, omega (arith, read_full-le (uint32 size) r, ap length same))
    ]

-- A message takes at least its header from the connection.
next_message_shrinks :
    (r : Bytes) (t : ℕ) (payload rest : Bytes)
    → next_message r ≡ some (t, payload, rest)
    → length rest + control_header_len ≤ length r
unfolding next_message
next_message_shrinks r t payload rest h =
    let (b, read, left) = read_payload-some (read_full control_header_len r) t payload rest h in
    omega (arith, read_full_ok control_header_len r b read)

-- The loop returns: each round takes a header from the connection, so as much fuel as there are
-- bytes is more than enough.
pub pump_returns :
    (fuel : ℕ) (r : Bytes) (t : Terminal)
    → length r < fuel
    → (final : Terminal) × (pump_input fuel r t ≡ some final)
unfolding pump_input
pump_returns zero r t h = absurd (omega arith)
pump_returns (suc fuel) r t h = elim (Option-cases (next_message r)) [
  | inl ended ↦ (t, rw (ended, pump_input) refl)
  | inr ((msg_type, payload, rest), got) ↦
      let (applied, on) = apply_message msg_type payload t in
      elim (Bool-cases on) [
        | inr stop ↦ (applied, rw (got, stop, pump_input) refl)
        | inl go ↦
            let shorter = next_message_shrinks r msg_type payload rest got in
            let (final, e) = pump_returns fuel rest applied (omega arith) in
            (final, rw (got, go, pump_input) e)
      ]
]

next_message-encode :
    (msg_type : ℕ) (payload rest : Bytes)
    → length payload ≤ max_control_payload
    → next_message (encode_control msg_type payload ++ rest) ≡ some (msg_type, payload, rest)
unfolding next_message encode_control
next_message-encode msg_type payload rest h =
    let m = length payload % 2 ^ 32 in
    let size : uint32 (put_uint32 m) ≡ length payload =
      uint32-put_uint32 m (omega arith) ∙ omega arith in
    let small : ltb max_control_payload (length payload) ≡ false = ground arith in
    let five : control_header_len ≡ length (msg_type ∷ put_uint32 m) =
      omega (arith, length-put_uint32 m) in
    ap next_message (append_assoc (msg_type ∷ put_uint32 m) payload rest)
    ∙ ap read_payload (read_full-append 5 (msg_type ∷ put_uint32 m) (payload ++ rest) five)
    ∙ rw (size, small)
        (ap (with_payload msg_type) (read_full-append (length payload) payload rest refl))

-- What the other side sends: keystrokes, or a window size.
pub data Message : Type 0 where
  keys : Bytes → Message
  window : ℕ → ℕ → Message

abbrev pub encoded : Message → Bytes
encoded (keys b) = encode_control msg_data b
encoded (window cols rows) = encode_resize cols rows

abbrev pub sent : List Message → Bytes
sent [] = []
sent (m ∷ ms) = encoded m ++ sent ms

abbrev IsSendable : Message → Type 0
IsSendable (keys b) = length b ≤ max_control_payload
IsSendable (window cols rows) = (cols < 2 ^ 16) × (rows < 2 ^ 16)

-- The terminal after the messages: all keystrokes in order, and the last size.
abbrev pub after : List Message → Terminal → Terminal
after [] t = t
after (keys b ∷ ms) t =
    after ms (record t { master = record { written = t.master.written ++ b; faults = [] } })
after (window cols rows ∷ ms) t = after ms (record t { cols = cols; rows = rows })

pump_one :
    (fuel msg_type : ℕ) (payload rest : Bytes) (t u : Terminal)
    → length payload ≤ max_control_payload
    → apply_message msg_type payload t ≡ (u, true)
    → pump_input (suc fuel) (encode_control msg_type payload ++ rest) t ≡ pump_input fuel rest u
unfolding pump_input
pump_one fuel msg_type payload rest t u h e =
    rw
      (
        next_message-encode msg_type payload rest h,
        ap (λ (p : Terminal × Bool). p.1) e,
        ap (λ (p : Terminal × Bool). p.0) e,
        pump_input,
      )
      refl

apply_keys :
    (b : Bytes) (t : Terminal)
    → t.master.faults ≡ []
    → apply_message msg_data b t
      ≡ (record t { master = record { written = t.master.written ++ b; faults = [] } }, true)
unfolding apply_message write
apply_keys b t fine = ground arith

apply_window :
    (cols rows : ℕ) (t : Terminal)
    → cols < 2 ^ 16
    → rows < 2 ^ 16
    → apply_message msg_resize (put_uint16 cols ++ put_uint16 rows) t
      ≡ (record t { cols = cols; rows = rows }, true)
unfolding apply_message put_uint16 uint16
apply_window cols rows t hc hr = ground arith

length-encode : (msg_type : ℕ) (b : Bytes) → 0 < length (encode_control msg_type b)
unfolding encode_control
length-encode msg_type b = omega arith

four : (cols rows : ℕ) → length (put_uint16 cols ++ put_uint16 rows) ≤ max_control_payload
unfolding put_uint16
four cols rows = omega arith

stops : (fuel : ℕ) (t : Terminal) → pump_input (suc fuel) [] t ≡ some t
unfolding pump_input next_message read_full
stops fuel t = refl

-- When the other side sends keystrokes of at most the largest payload and window sizes of 16 bits,
-- and writes to the terminal do not fail, the loop with more fuel than bytes returns, with all
-- keystrokes typed in order and the last size set.
pub pump_sent :
    (ms : List Message) (fuel : ℕ) (t : Terminal)
    → All IsSendable ms
    → t.master.faults ≡ []
    → length (sent ms) < fuel
    → pump_input fuel (sent ms) t ≡ some (after ms t)
unfolding encode_resize
pump_sent ms zero t fit fine enough = absurd (omega arith)
pump_sent [] (suc fuel) t fit fine enough = stops fuel t
pump_sent (keys b ∷ ms) (suc fuel) t (fits, fit) fine enough =
    let u : Terminal = record t {
      master = record { written = t.master.written ++ b; faults = [] };
    } in
    pump_one fuel msg_data b (sent ms) t u fits (apply_keys b t fine)
    ∙ pump_sent ms fuel u fit refl (
        omega
          (arith, length-append (encode_control msg_data b) (sent ms), length-encode msg_data b))
pump_sent (window cols rows ∷ ms) (suc fuel) t ((hc, hr), fit) fine enough =
    let b = put_uint16 cols ++ put_uint16 rows in
    pump_one fuel msg_resize b (sent ms) t (record t { cols = cols; rows = rows }) (four cols rows)
      (apply_window cols rows t hc hr)
    ∙ pump_sent ms fuel (record t { cols = cols; rows = rows }) fit fine
        (omega (
          arith,
          length-append (encode_control msg_resize b) (sent ms),
          length-encode msg_resize b,
        ))
