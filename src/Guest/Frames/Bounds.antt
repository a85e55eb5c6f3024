-- ===== src/Guest/Frames/Bounds.antt =====
-- How much of a connection a frame takes, whatever the connection delivers.
use llmbox.Prelude.{
  ◌+◌, ◌≤◌, ◌≡◌, refl, ap, inl, inr, arith, ltb, Bool-cases, length, Str, Result, ok, failed,
}
use llmbox.Guest.Words.{Bytes, uint32, read_full, read_full-le, read_full_takes, read_full_ok}
use llmbox.Guest.Frames.{Json, max_frame, read_frame, read_body, decode_body}

module _ {A : Type 0} (J : Json A) where
  decode_body_rest : (p : Bytes × Result Str Bytes) → (decode_body J p).0 ≡ p.0
  decode_body_rest (r, ok b) = refl
  decode_body_rest (r, failed e) = refl

  read_body_takes :
      (p : Bytes × Result Str Bytes)
      → (length (read_body J p).0 ≤ length p.0)
        × (length p.0 ≤ length (read_body J p).0 + max_frame)
  read_body_takes (r, failed e) = omega arith
  read_body_takes (r, ok hdr) = elim (Bool-cases (ltb max_frame (uint32 hdr))) [
    | inl large ↦ rw large (omega arith)
    | inr small ↦
        let rest = ap length (decode_body_rest (read_full (uint32 hdr) r)) in
        let bound : uint32 hdr ≤ max_frame = ground arith in
        rw small
          (omega (arith, rest, bound, read_full-le (uint32 hdr) r, read_full_takes (uint32 hdr) r))
  ]

  -- Whatever a connection delivers, reading a frame takes at most a header and the largest body
  -- from it.
  pub read_frame_takes : (r : Bytes) → length r ≤ length (read_frame J r).0 + max_frame + 4
  unfolding read_frame
  read_frame_takes r = omega (arith, read_body_takes (read_full 4 r), read_full_takes 4 r)

  read_body_ok :
      (p : Bytes × Result Str Bytes) (v : A) → (read_body J p).1 ≡ ok v → (b : Bytes) × (p.1 ≡ ok b)
  read_body_ok (r, ok hdr) v h = (hdr, refl)
  read_body_ok (r, failed e) v h = cc h

  pub read_frame_shrinks :
      (r : Bytes) (v : A) → (read_frame J r).1 ≡ ok v → length (read_frame J r).0 + 4 ≤ length r
  unfolding read_frame
  read_frame_shrinks r v h =
      let (b, header) = read_body_ok (read_full 4 r) v h in
      omega (arith, read_body_takes (read_full 4 r), read_full_ok 4 r b header)
