-- ===== src/Guest/Words.antt =====
-- The parts of Go's packages encoding/binary and io that internal/guest uses: big-endian words, and
-- readers and writers of a connection.
use llmbox.Prelude.{
  ℕ, ◌+◌, ◌*◌, ◌/◌, ◌%◌, ◌^◌, ◌≤◌, ◌<◌, ◌≡◌, refl, Option, none, some, List, [], ◌∷◌, ◌++◌, arith,
  leb, nat_beq, if◌then◌else◌, length, take, drop, length-append, length-drop, Str, codes, Result,
  ok, failed,
}
use llmbox.Netfw.Firewall.{Error}

abbrev pub Bytes : Type 0
Bytes = List ℕ

-- `binary.BigEndian.PutUint32` of a uint32, and `Uint32` of four bytes.
unfoldable pub put_uint32 : ℕ → Bytes
put_uint32 n = n / 2 ^ 24 % 256 ∷ n / 2 ^ 16 % 256 ∷ n / 2 ^ 8 % 256 ∷ n % 256 ∷ []

unfoldable pub uint32 : Bytes → ℕ
uint32 (a ∷ b ∷ c ∷ d ∷ _) = ((a * 256 + b) * 256 + c) * 256 + d
uint32 _ = 0

-- `PutUint16` and `Uint16`.
unfoldable pub put_uint16 : ℕ → Bytes
put_uint16 n = n / 2 ^ 8 % 256 ∷ n % 256 ∷ []

unfoldable pub uint16 : Bytes → ℕ
uint16 (a ∷ b ∷ _) = a * 256 + b
uint16 _ = 0

pub uint32-put_uint32 : (n : ℕ) → n < 2 ^ 32 → uint32 (put_uint32 n) ≡ n
unfolding uint32 put_uint32
uint32-put_uint32 n h = omega arith

uint16-put_uint16 : (n : ℕ) → n < 2 ^ 16 → uint16 (put_uint16 n) ≡ n
unfolding uint16 put_uint16
uint16-put_uint16 n h = omega arith

pub length-put_uint32 : (n : ℕ) → length (put_uint32 n) ≡ 4
unfolding put_uint32
length-put_uint32 n = refl

-- `io.ReadFull` of `n` bytes from what a connection still delivers: the bytes and the rest, or,
-- where it ends first, an error with nothing left.
unfoldable pub read_full : ℕ → Bytes → Bytes × Result Str Bytes
read_full n r =
    if leb n (length r)
    then (drop n r, ok (take n r))
    else ([], failed (if nat_beq (length r) 0 then codes "EOF" else codes "unexpected EOF"))

take-append : (xs ys : Bytes) → take (length xs) (xs ++ ys) ≡ xs
take-append [] ys = refl
take-append (x ∷ xs) ys = rw (take-append xs ys) refl

drop-append : (xs ys : Bytes) → drop (length xs) (xs ++ ys) ≡ ys
drop-append [] ys = refl
drop-append (x ∷ xs) ys = drop-append xs ys

-- Reading as many bytes as were put in front gives those.
pub read_full-append :
    (n : ℕ) (xs rest : Bytes) → n ≡ length xs → read_full n (xs ++ rest) ≡ (rest, ok xs)
unfolding read_full
read_full-append n xs rest e =
    rw e (ground (arith, length-append xs rest, take-append xs rest, drop-append xs rest))

-- A read leaves no more than there was, and takes what it was asked for.
pub read_full-le : (n : ℕ) (r : Bytes) → length (read_full n r).0 ≤ length r
unfolding read_full
read_full-le n r = ground (arith, length-drop n r)

-- A read takes no more than it was asked for.
pub read_full_takes : (n : ℕ) (r : Bytes) → length r ≤ length (read_full n r).0 + n
unfolding read_full
read_full_takes n r = ground (arith, length-drop n r)

pub read_full_ok :
    (n : ℕ) (r b : Bytes) → (read_full n r).1 ≡ ok b → length (read_full n r).0 + n ≡ length r
unfolding read_full
read_full_ok n r b h = ground (arith, length-drop n r)

-- A connection that is written to: the bytes that went out, and how the next writes end. A write
-- that fails has sent some of its bytes.
pub record Writer : Type 0 where
  pub written : Bytes
  pub faults : List (Option (ℕ × Str))

unfoldable pub write : Bytes → Writer → Writer × Error
write b w = elim w.faults [
  | [] ↦ (record w { written = w.written ++ b }, none)
  | none ∷ fs ↦ (record { written = w.written ++ b; faults = fs }, none)
  | some (n, e) ∷ fs ↦ (record { written = w.written ++ take n b; faults = fs }, some e)
]

pub write_done :
    (b : Bytes) (w : Writer) → (write b w).1 ≡ none → (write b w).0.written ≡ w.written ++ b
unfolding write
write_done b w h = go w.faults refl
  where
    go : (fs : List (Option (ℕ × Str))) → w.faults ≡ fs → (write b w).0.written ≡ w.written ++ b
    go [] e = rw (e, write) refl
    go (none ∷ fs) e = rw (e, write) refl
    go (some (n, x) ∷ fs) e = cc (rw (e, write) at h)

pub write_fine :
    (b : Bytes) (w : Writer)
    → w.faults ≡ []
    → write b w ≡ (record { written = w.written ++ b; faults = [] }, none)
unfolding write
write_fine b w fine = ground arith
