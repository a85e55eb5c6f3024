-- ===== src/Box/Fake/Boxes.antt =====
-- The boxes of the backend in memory, by the keys that tell them apart.
use llmbox.Prelude.{
  ℕ, zero, suc, ◌-◌, ◌≤◌, ◌≡◌, ◌≢◌, refl, sym, ap, subst, ◌∙◌, ◌⊎◌, inl, inr, Bool, true, false,
  not, ◌&&◌, Option, none, some, List, [], ◌∷◌, ◌++◌, map, arith, Bool-cases, filter, All, In,
  length, drop, Str, str_eq, str_beq_iff, ◌==◌, decimal, read_digits, read_digits-decimal, ok,
  failed, ◌||◌,
}
use llmbox.Guest.Agent.{Os}
use llmbox.Box.Provisioner.{BoxView, not_found, Key, key_of, without}
use llmbox.Box.Fake.{
  zeros, fake_id, FakeInstance, meta, fake_key, has_id, named, found, first_with, on_id, answers_to,
}

zeros_read : (k : ℕ) (s : Str) → read_digits 0 (zeros k ++ s) ≡ read_digits 0 s
unfolding read_digits
zeros_read zero s = refl
zeros_read (suc k) s = zeros_read k s

-- The ID determines the number.
fake_id-injective : (m n : ℕ) → fake_id m ≡ fake_id n → m ≡ n
unfolding fake_id
fake_id-injective m n e = sym (number m) ∙ ap (λ s. read_digits 0 (drop 7 s)) e ∙ number n
  where
    number : (n : ℕ) → read_digits 0 (drop 7 (fake_id n)) ≡ n
    number n = zeros_read (6 - length (decimal n)) (decimal n) ∙ read_digits-decimal n

module _ (O : Os) where
  abbrev pub Boxes : Type 0
  Boxes = List (FakeInstance O)

  abbrev pub keys : Boxes → List Key
  keys = map (fake_key O)

  first_with-some :
      (p : FakeInstance O → Bool) (xs : Boxes) (i : FakeInstance O)
      → first_with O p xs ≡ some i
      → In (fake_key O i) (keys xs) × (p i ≡ true)
  unfolding first_with
  first_with-some p [] i h = cc h
  first_with-some p (x ∷ xs) i h = elim (Bool-cases (p x)) [
    | inl hit ↦
        let same : x ≡ i = cc (rw (hit, first_with) at h) in
        (inl (ap (fake_key O) same), ap p (sym same) ∙ hit)
    | inr miss ↦
        let (there, holds) = first_with-some p xs i (rw (miss, first_with) at h) in
        (inr there, holds)
  ]

  pub first_with-none :
      (p : FakeInstance O → Bool) (xs : Boxes)
      → first_with O p xs ≡ none
      → All (λ i. p i ≡ false) xs
  unfolding first_with
  first_with-none p [] h = tt
  first_with-none p (x ∷ xs) h = elim (Bool-cases (p x)) [
    | inl hit ↦ cc (rw (hit, first_with) at h)
    | inr miss ↦ (miss, first_with-none p xs (rw (miss, first_with) at h))
  ]

  pub list_keys : (xs : Boxes) → map key_of (map (meta O) xs) ≡ keys xs
  unfolding meta
  list_keys [] = refl
  list_keys (x ∷ xs) = ap (λ ks. fake_key O x ∷ ks) (list_keys xs)

  pub keys-filter :
      (id : Str) (xs : Boxes) → keys (filter (λ i. not (has_id O id i)) xs) ≡ without id (keys xs)
  keys-filter id [] = refl
  keys-filter id (x ∷ xs) = elim (Bool-cases (has_id O id x)) [
    | inl it ↦ rw it (keys-filter id xs)
    | inr apart ↦ rw apart (ap (λ ks. fake_key O x ∷ ks) (keys-filter id xs))
  ]

  pub absent_keys :
      (id : Str) (xs : Boxes) → All (λ i. has_id O id i ≡ false) xs → without id (keys xs) ≡ keys xs
  absent_keys id [] h = refl
  absent_keys id (x ∷ xs) (h, hs) = rw h (ap (λ ks. fake_key O x ∷ ks) (absent_keys id xs hs))

  pub fresh_number :
      (n : ℕ) (xs : Boxes)
      → All (λ i. i.number ≤ n) xs
      → All (λ i. has_id O (fake_id (suc n)) i ≡ false) xs
  fresh_number n [] h = tt
  fresh_number n (x ∷ xs) (h, hs) = (
    elim (Bool-cases (has_id O (fake_id (suc n)) x)) [
      | inr apart ↦ apart
      | inl it ↦
          let same =
            fake_id-injective x.number (suc n)
              ((str_beq_iff (fake_id x.number) (fake_id (suc n))).0 it) in
          absurd (omega (arith, same))
    ],
    fresh_number n xs hs,
  )

  pub added_keys :
      (xs : Boxes) (i : FakeInstance O) → keys (xs ++ i ∷ []) ≡ keys xs ++ fake_key O i ∷ []
  added_keys [] i = refl
  added_keys (x ∷ xs) i = ap (λ ks. fake_key O x ∷ ks) (added_keys xs i)

  pub changed_keys :
      (id : Str) (g : FakeInstance O → FakeInstance O) (xs : Boxes)
      → ((i : FakeInstance O) → fake_key O (g i) ≡ fake_key O i)
      → keys (map (on_id O id g) xs) ≡ keys xs
  changed_keys id g [] same = refl
  changed_keys id g (x ∷ xs) same = elim (Bool-cases (has_id O id x)) [
    | inl it ↦ rw it (both (same x) (changed_keys id g xs same))
    | inr apart ↦ rw apart (ap (λ ks. fake_key O x ∷ ks) (changed_keys id g xs same))
  ]
    where
      both : {k j : Key} {ks js : List Key} → k ≡ j → ks ≡ js → k ∷ ks ≡ j ∷ js
      both e es = rw (e, es) refl

  or_true : (b : Bool) → (b || true) ≡ true
  or_true true = refl
  or_true false = refl

  pub found_ok :
      (id : Str) (xs : Boxes) (p q : Option (FakeInstance O)) (b : BoxView)
      → first_with O (has_id O id) xs ≡ p
      → first_with O (named O id) xs ≡ q
      → found O id p q ≡ ok b
      → In (key_of b) (keys xs) × (answers_to O id b ≡ true)
  unfolding meta
  found_ok id xs (some i) q b ep eq h =
      let same : meta O i ≡ b = cc h in
      let (there, it) = first_with-some (has_id O id) xs i ep in
      subst (λ b. In (key_of b) (keys xs) × (answers_to O id b ≡ true)) same (there, rw it refl)
  found_ok id xs none (some i) b ep eq h =
      let same : meta O i ≡ b = cc h in
      let (there, it) = first_with-some (named O id) xs i eq in
      subst (λ b. In (key_of b) (keys xs) × (answers_to O id b ≡ true)) same
        (there, rw it (or_true (fake_id i.number == id)))
  found_ok id xs none none b ep eq h = cc h

  pub found_failed :
      (id : Str) (xs : Boxes) (p q : Option (FakeInstance O)) (e : Str)
      → first_with O (has_id O id) xs ≡ p
      → first_with O (named O id) xs ≡ q
      → found O id p q ≡ failed (not_found e)
      → All (λ k. ((k.0 ≢ id) × (k.1 ≢ id)) ⊎ (id ≡ [])) (keys xs)
  found_failed id xs (some i) q e ep eq h = cc h
  found_failed id xs none (some i) e ep eq h = cc h
  found_failed id xs none none e ep eq h =
      unknown xs (first_with-none (has_id O id) xs ep) (first_with-none (named O id) xs eq)
    where
      unnamed : (s : Str) → (not (s == []) && s == id) ≡ false → (s ≢ id) ⊎ (id ≡ [])
      unnamed s h = ground (arith, str_beq_iff s [], str_beq_iff s id)

      both :
          {s : Str} → s ≢ id → {t : Str} → (t ≢ id) ⊎ (id ≡ []) → ((s ≢ id) × (t ≢ id)) ⊎ (id ≡ [])
      both h (inl g) = inl (h, g)
      both h (inr g) = inr g

      unknown :
          (xs : Boxes)
          → All (λ i. has_id O id i ≡ false) xs
          → All (λ i. named O id i ≡ false) xs
          → All (λ k. ((k.0 ≢ id) × (k.1 ≢ id)) ⊎ (id ≡ [])) (keys xs)
      unknown [] h g = tt
      unknown (x ∷ xs) (h, hs) (g, gs) =
          let apart : fake_id x.number ≢ id = ground (arith, str_beq_iff (fake_id x.number) id) in
          (both apart (unnamed x.box_id g), unknown xs hs gs)
