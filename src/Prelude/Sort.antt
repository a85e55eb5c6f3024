-- ===== src/Prelude/Sort.antt =====
-- Go's `sort.Strings` and `sort.Slice` by an order given as a test: insertion gives the one
-- sorted list that any correct sort gives.
use mathlib.Core.Path.{◌≡◌}
use mathlib.Core.Logic.{◌↔◌, ◌⊎◌, inl, inr}
use mathlib.Core.Bool.{Bool, true}
use mathlib.Core.List.{List, [], ◌∷◌}
use native.Mathlib.Omega.{arith}
use llmbox.Prelude.Tests.{if◌then◌else◌, Bool-cases}
use llmbox.Prelude.Lists.{All, In}

module _ {A : Type 0} (le : A → A → Bool) where
  unfoldable pub insert : A → List A → List A
  insert a [] = a ∷ []
  insert a (x ∷ xs) = if le a x then a ∷ x ∷ xs else x ∷ insert a xs

  unfoldable pub sort : List A → List A
  unfolding insert
  sort [] = []
  sort (x ∷ xs) = insert x (sort xs)

  pub insert-In : (a b : A) (xs : List A) → In a (insert b xs) ↔ ((b ≡ a) ⊎ In a xs)
  unfolding insert
  insert-In a b [] = ground arith
  insert-In a b (x ∷ xs) = ground (arith, insert-In a b xs)

  pub sort-In : (a : A) (xs : List A) → In a (sort xs) ↔ In a xs
  unfolding sort
  sort-In a [] = ground arith
  sort-In a (x ∷ xs) = ground (arith, insert-In a x (sort xs), sort-In a xs)

  insert-All {κ} : (P : A → Type κ) (b : A) (xs : List A) → P b → All P xs → All P (insert b xs)
  unfolding insert
  insert-All P b [] p h = (p, tt)
  insert-All P b (x ∷ xs) p h = ground (arith, insert-All P b xs p h.1)

  pub sort-All {κ} : (P : A → Type κ) (xs : List A) → All P xs → All P (sort xs)
  unfolding sort
  sort-All P [] h = tt
  sort-All P (x ∷ xs) h = insert-All P x (sort xs) h.0 (sort-All P xs h.1)

  -- Every element is below all that follow it.
  abbrev pub IsSorted : List A → Type 0
  IsSorted [] = Unit
  IsSorted (x ∷ xs) = All (λ y. le x y ≡ true) xs × IsSorted xs

module _ {A : Type 0} (le : A → A → Bool) (total : (a b : A) → (le a b ≡ true) ⊎ (le b a ≡ true))
    (trans : (a b c : A) → le a b ≡ true → le b c ≡ true → le a c ≡ true) where
  pub All-trans :
      (a x : A) (xs : List A)
      → le a x ≡ true
      → All (λ y. le x y ≡ true) xs
      → All (λ y. le a y ≡ true) xs
  All-trans a x [] p h = tt
  All-trans a x (y ∷ xs) p h = (trans a x y p h.0, All-trans a x xs p h.1)

  insert-IsSorted : (b : A) (xs : List A) → IsSorted le xs → IsSorted le (insert le b xs)
  unfolding insert
  insert-IsSorted b [] h = (tt, tt)
  insert-IsSorted b (x ∷ xs) h = elim (Bool-cases (le b x)) [
    | inl below ↦ rw below ((below, All-trans b x xs below h.0), h)
    | inr above ↦ rw above (
      insert-All le (λ y. le x y ≡ true) b xs (ground (arith, total b x)) h.0,
      insert-IsSorted b xs h.1,
    )
  ]

  pub sort-IsSorted : (xs : List A) → IsSorted le (sort le xs)
  unfolding sort
  sort-IsSorted [] = tt
  sort-IsSorted (x ∷ xs) = insert-IsSorted x (sort le xs) (sort-IsSorted xs)
