-- ===== src/Prelude/Regex/Bytes.antt =====
-- The bytes of a text that a pattern matches, and its last one, read off the pattern.
use Prim.Native.Nat.{ℕ}
use mathlib.Core.Path.{◌≡◌, refl}
use mathlib.Core.Logic.{◌⊎◌, inl, inr}
use mathlib.Core.Bool.{true, false, ◌&&◌}
use mathlib.Core.List.{List, [], ◌∷◌, ◌++◌}
use native.Mathlib.Omega.{arith}
use llmbox.Prelude.Tests.{Bool-cases}
use llmbox.Prelude.Lists.{All}
use llmbox.Prelude.Regex.{
  Regex, nothing, empty_text, byte, seq, alt, star, accepts_empty, after_byte, matches,
}

-- Patterns that match no text, recognized by their shape.
Dead : Regex → Type 0
Dead nothing = Unit
Dead empty_text = ⊥
Dead (byte p) = ⊥
Dead (seq r s) = Dead r
Dead (alt r s) = Dead r × Dead s
Dead (star r) = ⊥

Dead-accepts_empty : (r : Regex) → Dead r → accepts_empty r ≡ false
unfolding Dead
Dead-accepts_empty nothing d = refl
Dead-accepts_empty empty_text d = absurd d
Dead-accepts_empty (byte p) d = absurd d
Dead-accepts_empty (seq r s) d = rw (Dead-accepts_empty r d) refl
Dead-accepts_empty (alt r s) d = rw (Dead-accepts_empty r d.0, Dead-accepts_empty s d.1) refl
Dead-accepts_empty (star r) d = absurd d

Dead-after_byte : (c : ℕ) (r : Regex) → Dead r → Dead (after_byte c r)
unfolding Dead
Dead-after_byte c nothing d = tt
Dead-after_byte c empty_text d = absurd d
Dead-after_byte c (byte p) d = absurd d
Dead-after_byte c (seq r s) d = rw (Dead-accepts_empty r d) (Dead-after_byte c r d)
Dead-after_byte c (alt r s) d = (Dead-after_byte c r d.0, Dead-after_byte c s d.1)
Dead-after_byte c (star r) d = absurd d

Dead-matches : (r : Regex) (s : List ℕ) → Dead r → matches r s ≡ false
unfolding matches
Dead-matches r [] d = Dead-accepts_empty r d
Dead-matches r (c ∷ s) d = Dead-matches (after_byte c r) s (Dead-after_byte c r d)

module _ (P : ℕ → Type 0) where
  -- Every class of the pattern holds bytes with the property only.
  abbrev pub Within : Regex → Type 0
  Within nothing = Unit
  Within empty_text = Unit
  Within (byte p) = (c : ℕ) → p c ≡ true → P c
  Within (seq r s) = Within r × Within s
  Within (alt r s) = Within r × Within s
  Within (star r) = Within r

  Within-after_byte : (c : ℕ) (r : Regex) → Within r → Within (after_byte c r)
  Within-after_byte c nothing v = tt
  Within-after_byte c empty_text v = tt
  Within-after_byte c (byte p) v = elim (Bool-cases (p c)) [ inl y ↦ rw y tt | inr n ↦ rw n tt ]
  Within-after_byte c (seq r s) v =
      let left = Within-after_byte c r v.0 in
      let right = Within-after_byte c s v.1 in
      elim (Bool-cases (accepts_empty r)) [
        | inl y ↦ rw y ((left, v.1), right)
        | inr n ↦ rw n (left, v.1)
      ]
  Within-after_byte c (alt r s) v = (Within-after_byte c r v.0, Within-after_byte c s v.1)
  Within-after_byte c (star r) v = (Within-after_byte c r v, v)

  Within-Dead : (c : ℕ) (r : Regex) → Within r → ¬ P c → Dead (after_byte c r)
  unfolding Dead
  Within-Dead c nothing v out = tt
  Within-Dead c empty_text v out = tt
  Within-Dead c (byte p) v out = elim (Bool-cases (p c)) [
    | inl y ↦ absurd (out (v c y))
    | inr n ↦ rw n tt
  ]
  Within-Dead c (seq r s) v out = elim (Bool-cases (accepts_empty r)) [
    | inl y ↦ rw y (Within-Dead c r v.0 out, Within-Dead c s v.1 out)
    | inr n ↦ rw n (Within-Dead c r v.0 out)
  ]
  Within-Dead c (alt r s) v out = (Within-Dead c r v.0 out, Within-Dead c s v.1 out)
  Within-Dead c (star r) v out = Within-Dead c r v out

  pub matches-All :
      (decide : (c : ℕ) → P c ⊎ (¬ P c)) (r : Regex) (s : List ℕ)
      → Within r
      → matches r s ≡ true
      → All P s
  unfolding matches
  matches-All decide r [] v h = tt
  matches-All decide r (c ∷ s) v h = elim (decide c) [
    | inl p ↦ (p, matches-All decide (after_byte c r) s (Within-after_byte c r v) h)
    | inr out ↦ cc (Dead-matches (after_byte c r) s (Within-Dead c r v out))
  ]

module _ (c : ℕ) where
  -- No text that the pattern matches ends in the byte.
  abbrev pub Tail : Regex → Type 0
  Tail nothing = Unit
  Tail empty_text = Unit
  Tail (byte p) = p c ≡ false
  Tail (seq r s) = Tail s × ((accepts_empty s ≡ false) ⊎ Tail r)
  Tail (alt r s) = Tail r × Tail s
  Tail (star r) = Tail r

  Tail-accepts_empty : (r : Regex) → Tail r → accepts_empty (after_byte c r) ≡ false
  Tail-accepts_empty nothing t = refl
  Tail-accepts_empty empty_text t = refl
  Tail-accepts_empty (byte p) t = rw t refl
  Tail-accepts_empty (seq r s) t =
      let right = Tail-accepts_empty s t.0 in
      let left : (accepts_empty (after_byte c r) && accepts_empty s) ≡ false = elim t.1 [
        | inl closed ↦ ground (arith, closed)
        | inr ends ↦ rw (Tail-accepts_empty r ends) refl
      ] in
      elim (Bool-cases (accepts_empty r)) [
        | inl y ↦ rw y (ground (arith, left, right))
        | inr n ↦ rw n left
      ]
  Tail-accepts_empty (alt r s) t = rw (Tail-accepts_empty r t.0, Tail-accepts_empty s t.1) refl
  Tail-accepts_empty (star r) t = rw (Tail-accepts_empty r t) refl

  Tail-after_byte : (d : ℕ) (r : Regex) → Tail r → Tail (after_byte d r)
  Tail-after_byte d nothing t = tt
  Tail-after_byte d empty_text t = tt
  Tail-after_byte d (byte p) t = elim (Bool-cases (p d)) [ inl y ↦ rw y tt | inr n ↦ rw n tt ]
  Tail-after_byte d (seq r s) t =
      let right = Tail-after_byte d s t.0 in
      let left : Tail (seq (after_byte d r) s) =
        (t.0, elim t.1 [ inl closed ↦ inl closed | inr ends ↦ inr (Tail-after_byte d r ends) ]) in
      elim (Bool-cases (accepts_empty r)) [ inl y ↦ rw y (left, right) | inr n ↦ rw n left ]
  Tail-after_byte d (alt r s) t = (Tail-after_byte d r t.0, Tail-after_byte d s t.1)
  Tail-after_byte d (star r) t = (t, inr (Tail-after_byte d r t))

  pub matches-last : (r : Regex) (s : List ℕ) → Tail r → matches r (s ++ c ∷ []) ≡ false
  unfolding matches
  matches-last r [] t = Tail-accepts_empty r t
  matches-last r (d ∷ s) t = matches-last (after_byte d r) s (Tail-after_byte d r t)
