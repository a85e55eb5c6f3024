-- ===== src/Prelude/Relations.antt =====
-- Tables of which every two rows are related, and what `keep` and `put` keep of them.
use mathlib.Core.Bool.{Bool}
use mathlib.Core.Logic.{inl, inr}
use mathlib.Core.List.{[], ◌∷◌}
use llmbox.Prelude.Tests.{Eq, ◌==◌, Bool-cases}
use llmbox.Prelude.Lists.{All}
use llmbox.Prelude.Maps.{Table, put, keep}

abbrev pub Pairwise : {K V : Type 0} → (V → V → Type 0) → Table K V → Type 0
Pairwise R [] = Unit
Pairwise R (row ∷ m) = All (λ other. R row.1 other.1) m × Pairwise R m

pub All-keep :
    {K V : Type 0} (P : K × V → Type 0) (p : K → V → Bool) (m : Table K V)
    → All P m
    → All P (keep p m)
unfolding keep
All-keep P p [] h = tt
All-keep P p ((k, s) ∷ m) (h, hs) = elim (Bool-cases (p k s)) [
  | inl stays ↦ rw (stays, keep) (h, All-keep P p m hs)
  | inr goes ↦ rw (goes, keep) (All-keep P p m hs)
]

pub keep-Pairwise :
    {K V : Type 0} (R : V → V → Type 0) (p : K → V → Bool) (m : Table K V)
    → Pairwise R m
    → Pairwise R (keep p m)
unfolding keep
keep-Pairwise R p [] h = tt
keep-Pairwise R p ((k, s) ∷ m) (h, hs) = elim (Bool-cases (p k s)) [
  | inl stays ↦ rw (stays, keep) (All-keep (λ other. R s other.1) p m h, keep-Pairwise R p m hs)
  | inr goes ↦ rw (goes, keep) (keep-Pairwise R p m hs)
]

module _ {K V : Type 0} ⦃e : Eq K⦄ where
  pub All-put :
      (P : K × V → Type 0) (k : K) (s : V) (m : Table K V) → P (k, s) → All P m → All P (put k s m)
  unfolding put
  All-put P k s [] p h = (p, tt)
  All-put P k s ((j, t) ∷ m) p (h, hs) = elim (Bool-cases (j == k)) [
    | inl same ↦ rw (same, put) (p, hs)
    | inr differ ↦ rw (differ, put) (h, All-put P k s m p hs)
  ]

  -- A value that is related to each of a table, both ways.
  pub put-Pairwise :
      (R : V → V → Type 0) (k : K) (s : V) (m : Table K V)
      → All (λ row. R s row.1 × R row.1 s) m
      → Pairwise R m
      → Pairwise R (put k s m)
  unfolding put
  put-Pairwise R k s [] related h = (tt, tt)
  put-Pairwise R k s ((j, t) ∷ m) ((to, from), related) (h, hs) = elim (Bool-cases (j == k)) [
    | inl same ↦ rw (same, put) (after m related, hs)
    | inr differ ↦
        rw (differ, put) (All-put (λ row. R t row.1) k s m from h, put-Pairwise R k s m related hs)
  ]
    where
      after : (m : Table K V) → All (λ row. R s row.1 × R row.1 s) m → All (λ row. R s row.1) m
      after [] h = tt
      after (row ∷ m) ((to, from), hs) = (to, after m hs)
