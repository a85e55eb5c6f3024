-- ===== src/Box/Keys.antt =====
-- Lists of boxes by their IDs, no two of which share a box ID.
use llmbox.Prelude.{
  suc, ◌≤◌, ◌≡◌, refl, ap, ◌⊎◌, inl, inr, Bool, false, List, [], ◌∷◌, ◌++◌, map, arith, Bool-cases,
  length, All, filter, Str, str_eq, str_beq, to_lower,
}
use llmbox.Box.Identifiers.{equal_fold}
use llmbox.Box.Provisioner.{Key}

-- Two boxes that are not known under the same ID.
abbrev pub Apart : Key → Key → Type 0
Apart k j = (k.1 ≡ []) ⊎ (equal_fold k.1 j.1 ≡ false)

abbrev pub HasDistinctIds : List Key → Type 0
HasDistinctIds [] = Unit
HasDistinctIds (k ∷ ks) = All (Apart k) ks × HasDistinctIds ks

abbrev pub IsUnused : Str → List Key → Type 0
IsUnused id = All (λ k. Apart k ([], id))

All-filter : (P : Key → Type 0) (p : Key → Bool) (ks : List Key) → All P ks → All P (filter p ks)
All-filter P p [] h = tt
All-filter P p (k ∷ ks) (h, hs) = elim (Bool-cases (p k)) [
  | inl keep ↦ rw keep (h, All-filter P p ks hs)
  | inr drop ↦ rw drop (All-filter P p ks hs)
]

pub filter-HasDistinctIds :
    (p : Key → Bool) (ks : List Key) → HasDistinctIds ks → HasDistinctIds (filter p ks)
filter-HasDistinctIds p [] h = tt
filter-HasDistinctIds p (k ∷ ks) (h, hs) = elim (Bool-cases (p k)) [
  | inl keep ↦ rw keep (All-filter (Apart k) p ks h, filter-HasDistinctIds p ks hs)
  | inr drop ↦ rw drop (filter-HasDistinctIds p ks hs)
]

All-snoc : (P : Key → Type 0) (ks : List Key) (n : Key) → All P ks → P n → All P (ks ++ n ∷ [])
All-snoc P [] n h p = (p, tt)
All-snoc P (k ∷ ks) n (h, hs) p = (h, All-snoc P ks n hs p)

pub snoc-HasDistinctIds :
    (ks : List Key) (n : Key) → HasDistinctIds ks → IsUnused n.1 ks → HasDistinctIds (ks ++ n ∷ [])
snoc-HasDistinctIds [] n h u = (tt, tt)
snoc-HasDistinctIds (k ∷ ks) n (h, hs) (u, us) =
    (All-snoc (Apart k) ks n h u, snoc-HasDistinctIds ks n hs us)

pub length-filter : (p : Key → Bool) (ks : List Key) → length (filter p ks) ≤ length ks
length-filter p [] = omega arith
length-filter p (k ∷ ks) = ground (arith, length-filter p ks)

pub length-map : {A C : Type 0} (f : A → C) (xs : List A) → length (map f xs) ≡ length xs
length-map f [] = refl
length-map f (x ∷ xs) = ap suc (length-map f xs)

fold-nil : (s : Str) → (s ≡ []) ⊎ (equal_fold s [] ≡ false)
unfolding equal_fold to_lower str_beq
fold-nil [] = inl refl
fold-nil (c ∷ s) = inr refl

-- The empty ID is shared by none.
pub empty-IsUnused : (ks : List Key) → IsUnused [] ks
empty-IsUnused [] = tt
empty-IsUnused (k ∷ ks) = (fold-nil k.1, empty-IsUnused ks)
