-- ===== src/Guest/Frames/Round.antt =====
-- What is written as frames is read back as frames, and how large a frame can be.
use llmbox.Prelude.{
  ◌%◌, ◌^◌, ◌≤◌, ◌≡◌, refl, sym, ap, ◌∙◌, inl, inr, false, none, some, [], ◌++◌, append_assoc,
  arith, ltb, Bool-cases, length, Str, Result, ok, failed,
}
use llmbox.Netfw.Firewall.{Error}
use llmbox.Guest.Words.{
  Bytes, put_uint32, uint32, uint32-put_uint32, read_full-append, length-put_uint32, Writer, write,
  write_done, write_fine,
}
use llmbox.Guest.Frames.{
  Json, max_frame, write_body, send_encoded, write_frame, read_frame, read_body, decode_body,
}

write_body_done :
    (b : Bytes) (r : Writer × Error)
    → (write_body b r).1 ≡ none
    → (r.1 ≡ none) × ((write b r.0).1 ≡ none) × ((write_body b r).0.written ≡ r.0.written ++ b)
write_body_done b (w, some e) h = cc h
write_body_done b (w, none) h = (refl, h, write_done b w h)

module _ {A : Type 0} (J : Json A) where
  -- The bytes of a frame.
  abbrev pub framed : Bytes → Bytes
  framed b = put_uint32 (length b % 2 ^ 32) ++ b

  pub read_frame-framed :
      (b rest : Bytes)
      → length b ≤ max_frame
      → read_frame J (framed b ++ rest) ≡ (rest, J.unmarshal b)
  unfolding read_frame
  read_frame-framed b rest h =
      let m = length b % 2 ^ 32 in
      let size : uint32 (put_uint32 m) ≡ length b =
        uint32-put_uint32 m (omega arith) ∙ omega arith in
      let small : ltb max_frame (length b) ≡ false = ground arith in
      ap (λ r. read_frame J r) (append_assoc (put_uint32 m) b rest)
      ∙ ap (read_body J) (read_full-append 4 (put_uint32 m) (b ++ rest) (sym (length-put_uint32 m)))
      ∙ rw (size, small) (ap (decode_body J) (read_full-append (length b) b rest refl))

  send_encoded_done :
      (r : Result Str Bytes) (w : Writer)
      → (send_encoded w r).1 ≡ none
      → (b : Bytes) × (r ≡ ok b)
        × (length b ≤ max_frame)
        × ((send_encoded w r).0.written ≡ w.written ++ framed b)
  send_encoded_done (failed e) w h = cc h
  send_encoded_done (ok b) w h = elim (Bool-cases (ltb max_frame (length b))) [
    | inl large ↦ cc (rw large at h)
    | inr small ↦
        let header = put_uint32 (length b % 2 ^ 32) in
        let (first, second, all) = write_body_done b (write header w) (rw small at h) in
        (
          b,
          refl,
          ground arith,
          rw small (
              all ∙ ap (λ x. x ++ b) (write_done header w first) ∙ append_assoc w.written header b),
        )
  ]

  write_frame_done :
      (v : A) (w : Writer)
      → (write_frame J v w).1 ≡ none
      → (b : Bytes) × (J.marshal v ≡ ok b)
        × (length b ≤ max_frame)
        × ((write_frame J v w).0.written ≡ w.written ++ framed b)
  unfolding write_frame
  write_frame_done v w h = send_encoded_done (J.marshal v) w h

  -- A value whose encoding fits into a frame and is decoded to it.
  abbrev pub Carries : A → Type 0
  Carries v = (b : Bytes) × (J.marshal v ≡ ok b) × (length b ≤ max_frame) × (J.unmarshal b ≡ ok v)

  -- Such a value is written as a frame when the connection takes it.
  pub write_frame-Carries :
      (v : A) (w : Writer) (c : Carries v)
      → w.faults ≡ []
      → write_frame J v w ≡ (record { written = w.written ++ framed c.0; faults = [] }, none)
  unfolding write_frame
  write_frame-Carries v w (b, encoded, fits, decoded) fine =
      let header = put_uint32 (length b % 2 ^ 32) in
      let small : ltb max_frame (length b) ≡ false = ground arith in
      ap (send_encoded w) encoded
      ∙ rw small (
          ap (write_body b) (write_fine header w fine)
          ∙ write_fine b (record { written = w.written ++ header; faults = [] }) refl
          ∙ ap (λ (x : Bytes). (record { written = x; faults = [] }, none))
              (append_assoc w.written header b))

  -- For a value that its codec decodes from its encoding, what was written as a frame without an
  -- error is read back as the value, and what follows it on the connection is left there.
  pub read_frame-write_frame :
      (v : A) (w : Writer)
      → ((b : Bytes) → J.marshal v ≡ ok b → J.unmarshal b ≡ ok v)
      → (write_frame J v w).1 ≡ none
      → (sent : Bytes) × ((write_frame J v w).0.written ≡ w.written ++ sent)
        × ((rest : Bytes) → read_frame J (sent ++ rest) ≡ (rest, ok v))
  read_frame-write_frame v w lawful h =
      let (b, encoded, fits, out) = write_frame_done v w h in
      (
        framed b,
        out,
        λ rest. read_frame-framed b rest fits ∙ ap (λ r. (rest, r)) (lawful b encoded),
      )
