-- ===== src/Netfw/Pinner/Sweeping.antt =====
-- `Sweep`: which pins it drops and which addresses it closes.
use llmbox.Prelude.{
  ◌≡◌, refl, sym, ◌∙◌, inl, inr, Bool, true, false, not, none, some, List, [], ◌∷◌, arith, ℤ, after,
  Str, Bool-cases, if◌then◌else◌, str_eq, Table, get, del, keep, kept, keys, get-del, get-keep,
  In-keys, keys-In, In, contains, contains_iff, sort-In, pair_eq, HasDistinctKeys,
  del-HasDistinctKeys,
}
use llmbox.Netip.{addr_eq}
use llmbox.Netfw.Firewall.{Programmer, Error}
use llmbox.Netfw.Pinner.{
  PinKey, PinState, IsBacked, key_le, first_error, del_all, expired, revoke_all, sweep,
}

get-del_all :
    (k : PinKey) (ks : List PinKey) (m : Table PinKey ℤ)
    → get k (del_all ks m) ≡ (if contains ks k then none else get k m)
unfolding del_all contains
get-del_all k [] m = refl
get-del_all k (j ∷ ks) m = ground (arith, get-del_all k ks (del j m), get-del j k m)

del_all-HasDistinctKeys :
    (ks : List PinKey) (m : Table PinKey ℤ) → HasDistinctKeys m → HasDistinctKeys (del_all ks m)
unfolding del_all
del_all-HasDistinctKeys [] m h = h
del_all-HasDistinctKeys (k ∷ ks) m h =
    del_all-HasDistinctKeys ks (del k m) (del-HasDistinctKeys k m h)

module _ (P : Programmer) (now : ℤ) (s : PinState P) where
  abbrev is_expired : PinKey → ℤ → Bool
  is_expired _ deadline = not (after deadline now)

  pub In-expired :
      (k : PinKey) (d : ℤ)
      → HasDistinctKeys s.pins
      → get k s.pins ≡ some d
      → after d now ≡ false
      → In k (expired P now s)
  unfolding expired
  In-expired k d v h past =
      (sort-In key_le k (keys (keep is_expired s.pins))).1
        (In-keys k d (keep is_expired s.pins) (get-keep is_expired k s.pins v ∙ ground arith))

  expired-In :
      (k : PinKey)
      → HasDistinctKeys s.pins
      → In k (expired P now s)
      → (d : ℤ) × (get k s.pins ≡ some d) × (after d now ≡ false)
  unfolding expired
  expired-In k v i =
      let (d, found) =
        keys-In k (keep is_expired s.pins)
          ((sort-In key_le k (keys (keep is_expired s.pins))).0 i) in
      was_expired d (sym (get-keep is_expired k s.pins v) ∙ found)
    where
      was_expired :
          (d : ℤ)
          → kept is_expired k (get k s.pins) ≡ some d
          → (d : ℤ) × (get k s.pins ≡ some d) × (after d now ≡ false)
      was_expired d e = (d, ground arith, ground arith)

module _ (P : Programmer) where
  revoke_all-some :
      (ks : List PinKey) (e : Str) (fw : P.State) → (revoke_all P ks (some e) fw).1 ≡ some e
  unfolding revoke_all
  revoke_all-some [] e fw = refl
  revoke_all-some ((b, i) ∷ ks) e fw = revoke_all-some ks e (P.revoke b i fw).0

  revoke_all_frame :
      (ks : List PinKey) (e : Error) (fw : P.State) (k : PinKey)
      → ¬ In k ks
      → P.is_open (revoke_all P ks e fw).0 k ≡ P.is_open fw k
  unfolding revoke_all
  revoke_all_frame [] e fw k out = refl
  revoke_all_frame ((b, i) ∷ ks) e fw k out =
      revoke_all_frame ks (first_error e (P.revoke b i fw).1) (P.revoke b i fw).0 k
        (λ there. out (inr there))
      ∙ P.revoke_frame b i fw k (λ same. out (inl (sym same)))

  revoke_all-none :
      (ks : List PinKey) (e : Error) (fw : P.State) → (revoke_all P ks e fw).1 ≡ none → e ≡ none
  revoke_all-none ks none fw h = refl
  revoke_all-none ks (some e) fw h = cc (revoke_all-some ks e fw)

  first_error-none : (e x : Error) → first_error e x ≡ none → x ≡ none
  first_error-none none x h = h
  first_error-none (some e) x h = cc

  pub revoke_all_closes :
      (ks : List PinKey) (e : Error) (fw : P.State) (k : PinKey)
      → (revoke_all P ks e fw).1 ≡ none
      → In k ks
      → P.is_open (revoke_all P ks e fw).0 k ≡ false
  unfolding revoke_all
  revoke_all_closes [] e fw k h i = absurd i
  revoke_all_closes ((b, i) ∷ ks) e fw k h at =
      let called = P.revoke b i fw in
      let head_ok = revoke_all-none ks (first_error e called.1) called.0 h in
      elim (Bool-cases (contains ks k)) [
        | inl later ↦
            revoke_all_closes ks (first_error e called.1) called.0 k h ((contains_iff ks k).0 later)
        | inr last ↦
            let out : ¬ In k ks = λ there. cc ((contains_iff ks k).1 there) in
            let here : k ≡ (b, i) = elim at [
              | inl same ↦ sym same
              | inr there ↦ absurd (out there)
            ] in
            revoke_all_frame ks (first_error e called.1) called.0 k out
            ∙ rw here (P.revoke_closes b i fw (first_error-none e called.1 head_ok))
      ]

module _ (P : Programmer) (now : ℤ) (s : PinState P) (k : PinKey) where
  sweep_pins :
      get k (sweep P now s).0.pins ≡ (if contains (expired P now s) k then none else get k s.pins)
  unfolding sweep
  sweep_pins = get-del_all k (expired P now s) s.pins

  sweep_fw : (sweep P now s).0.fw ≡ (revoke_all P (expired P now s) none s.fw).0
  unfolding sweep
  sweep_fw = refl

  pub sweep_drops_expired :
      (d : ℤ)
      → IsBacked P s
      → get k s.pins ≡ some d
      → after d now ≡ false
      → get k (sweep P now s).0.pins ≡ none
  sweep_drops_expired d v found past =
      sweep_pins
      ∙ rw ((contains_iff (expired P now s) k).1 (In-expired P now s k d v.distinct found past))

  -- From a state whose pins are backed, a sweep that returns nil drops each pin whose deadline
  -- has come, and closes its address.
  pub sweep_closes_expired :
      (d : ℤ)
      → IsBacked P s
      → get k s.pins ≡ some d
      → after d now ≡ false
      → (sweep P now s).1 ≡ none
      → (get k (sweep P now s).0.pins ≡ none) × (P.is_open (sweep P now s).0.fw k ≡ false)
  unfolding sweep
  sweep_closes_expired d v found past done = (
    sweep_drops_expired d v found past,
    revoke_all_closes P (expired P now s) none s.fw k done
        (In-expired P now s k d v.distinct found past),
  )

  untouched :
      ¬ In k (expired P now s)
      → (get k (sweep P now s).0.pins ≡ get k s.pins)
        × (P.is_open (sweep P now s).0.fw k ≡ P.is_open s.fw k)
  unfolding sweep
  untouched out = (
    ground (arith, get-del_all k (expired P now s) s.pins, contains_iff (expired P now s) k, out),
    revoke_all_frame P (expired P now s) none s.fw k out,
  )

  -- From a state whose pins are backed, a sweep keeps each pin whose deadline is ahead, with its
  -- deadline, and leaves its address as it was.
  pub sweep_keeps_live :
      (d : ℤ)
      → IsBacked P s
      → get k s.pins ≡ some d
      → after d now ≡ true
      → (get k (sweep P now s).0.pins ≡ some d)
        × (P.is_open (sweep P now s).0.fw k ≡ P.is_open s.fw k)
  sweep_keeps_live d v found ahead =
      let (pins, open_same) = untouched (λ i. live (expired-In P now s k v.distinct i)) in
      (pins ∙ found, open_same)
    where
      live : (d' : ℤ) × (get k s.pins ≡ some d') × (after d' now ≡ false) → ⊥
      live (d', found', past) = ground arith

  -- What is open without a pin is never closed by a sweep.
  pub sweep_ignores_unpinned :
      IsBacked P s
      → get k s.pins ≡ none
      → (get k (sweep P now s).0.pins ≡ none)
        × (P.is_open (sweep P now s).0.fw k ≡ P.is_open s.fw k)
  sweep_ignores_unpinned v absent =
      let (pins, open_same) = untouched (λ i. gone (expired-In P now s k v.distinct i)) in
      (pins ∙ absent, open_same)
    where
      gone : (d' : ℤ) × (get k s.pins ≡ some d') × (after d' now ≡ false) → ⊥
      gone (d', found', past) = cc

module _ (P : Programmer) (now : ℤ) (s : PinState P) where
  sweep-distinct : IsBacked P s → HasDistinctKeys (sweep P now s).0.pins
  unfolding sweep
  sweep-distinct v = del_all-HasDistinctKeys (expired P now s) s.pins v.distinct

  -- Every pin that a sweep leaves is open, whether a revoke failed or not.
  pub sweep-IsBacked : IsBacked P s → IsBacked P (sweep P now s).0
  sweep-IsBacked v = record { distinct = sweep-distinct v; backed = still_backed }
    where
      still_backed :
          (k : PinKey) (d : ℤ)
          → get k (sweep P now s).0.pins ≡ some d
          → P.is_open (sweep P now s).0.fw k ≡ true
      still_backed k d h = elim (Bool-cases (contains (expired P now s) k)) [
        | inl dropped ↦ cc (h, rw dropped at (sweep_pins P now s k))
        | inr stays ↦
            let out : ¬ In k (expired P now s) = λ i. cc ((contains_iff (expired P now s) k).1 i) in
            let (pins, open_same) = untouched P now s k out in
            open_same ∙ v.backed k d (sym pins ∙ h)
      ]
