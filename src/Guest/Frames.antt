-- ===== src/Guest/Frames.antt =====
-- internal/guest/proto.go: frames of JSON behind a length. The JSON codec of a payload is a
-- parameter.
pub mod Round
pub mod Bounds
use llmbox.Prelude.{
  ℕ, ◌*◌, ◌%◌, ◌^◌, Option, none, some, ◌++◌, ltb, if◌then◌else◌, length, Str, codes, decimal,
  Result, ok, failed,
}
use llmbox.Netfw.Firewall.{Error}
use llmbox.Guest.Words.{Bytes, put_uint32, uint32, read_full, Writer, write}

-- `json.Marshal` and `json.Unmarshal` at a type.
pub record Json (A : Type 0) : Type 0 where
  pub marshal : A → Result Str Bytes
  pub unmarshal : Bytes → Result Str A

abbrev pub max_frame : ℕ
max_frame = 16 * 2 ^ 20

abbrev too_large : ℕ → Str
too_large n = codes "frame too large: " ++ decimal n ++ codes " bytes"

-- `writeFrame`.
abbrev write_body : Bytes → Writer × Error → Writer × Error
write_body b (w, some e) = (w, some e)
write_body b (w, none) = write b w

abbrev send_encoded : Writer → Result Str Bytes → Writer × Error
send_encoded w (failed e) = (w, some (codes "encoding frame: " ++ e))
send_encoded w (ok b) =
    if ltb max_frame (length b)
    then (w, some (too_large (length b)))
    else write_body b (write (put_uint32 (length b % 2 ^ 32)) w)

unfoldable pub write_frame : {A : Type 0} → Json A → A → Writer → Writer × Error
write_frame J v w = send_encoded w (J.marshal v)

-- `readFrame`, from what the connection still delivers.
abbrev decode_body : {A : Type 0} → Json A → Bytes × Result Str Bytes → Bytes × Result Str A
decode_body J (r, failed e) = (r, failed e)
decode_body J (r, ok b) = (r, J.unmarshal b)

abbrev read_body : {A : Type 0} → Json A → Bytes × Result Str Bytes → Bytes × Result Str A
read_body J (r, failed e) = (r, failed e)
read_body J (r, ok hdr) =
    let n = uint32 hdr in
    if ltb max_frame n then (r, failed (too_large n)) else decode_body J (read_full n r)

unfoldable pub read_frame : {A : Type 0} → Json A → Bytes → Bytes × Result Str A
read_frame J r = read_body J (read_full 4 r)
