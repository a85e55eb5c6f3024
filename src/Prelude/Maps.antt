-- ===== src/Prelude/Maps.antt =====
-- A Go map, or a database table with a primary key, as an association list.
use mathlib.Core.Path.{◌≡◌, refl}
use mathlib.Core.Bool.{Bool, true, false, not}
use mathlib.Core.Option.{Option, none, some}
use mathlib.Core.List.{List, [], ◌∷◌}
use mathlib.Core.Logic.{◌↔◌, inl, inr}
use native.Mathlib.Omega.{arith}
use llmbox.Prelude.Tests.{if◌then◌else◌, Eq, ◌==◌}
use llmbox.Prelude.Lists.{In}

abbrev pub Table : Type 0 → Type 0 → Type 0
Table K V = List (K × V)

abbrev pub no_rows : (K V : Type 0) → Table K V
no_rows K V = []

abbrev pub keys : {K V : Type 0} → Table K V → List K
keys [] = []
keys ((k, v) ∷ m) = k ∷ keys m

-- The rows whose key and value pass a test.
unfoldable pub keep : {K V : Type 0} → (K → V → Bool) → Table K V → Table K V
keep p [] = []
keep p ((k, v) ∷ m) = if p k v then (k, v) ∷ keep p m else keep p m

module _ {K V : Type 0} ⦃e : Eq K⦄ where
  -- `m[k]`, with Go's second result as the `Option`.
  unfoldable pub get : K → Table K V → Option V
  get k [] = none
  get k ((j, v) ∷ m) = if j == k then some v else get k m

  -- `m[k] = v`.
  unfoldable pub put : K → V → Table K V → Table K V
  put k v [] = (k, v) ∷ []
  put k v ((j, w) ∷ m) = if j == k then (k, v) ∷ m else (j, w) ∷ put k v m

  -- `delete(m, k)`.
  unfoldable pub del : K → Table K V → Table K V
  unfolding keep
  del k = keep (λ j _. not (j == k))

  pub get-nil : (k : K) → get k (no_rows K V) ≡ none
  unfolding get
  get-nil k = refl

  pub get-put :
      (k j : K) (v : V) (m : Table K V) → get j (put k v m) ≡ (if k == j then some v else get j m)
  unfolding get put
  get-put k j v [] = refl
  get-put k j v ((i, w) ∷ m) =
      ground (arith, e.beq_iff k j, e.beq_iff i k, e.beq_iff i j, get-put k j v m)

  pub get-del : (k j : K) (m : Table K V) → get j (del k m) ≡ (if k == j then none else get j m)
  unfolding get del
  get-del k j [] = ground arith
  get-del k j ((i, w) ∷ m) =
      ground (arith, e.beq_iff k j, e.beq_iff i k, e.beq_iff i j, get-del k j m)

  -- Each key has one row, as in a Go map.
  abbrev pub HasDistinctKeys : Table K V → Type 0
  HasDistinctKeys [] = Unit
  HasDistinctKeys ((k, v) ∷ m) = (get k m ≡ none) × HasDistinctKeys m

  pub keep-none :
      (p : K → V → Bool) (k : K) (m : Table K V) → get k m ≡ none → get k (keep p m) ≡ none
  unfolding get keep
  keep-none p k [] h = refl
  keep-none p k ((j, v) ∷ m) h = ground (arith, keep-none p k m)

  abbrev pub kept : (K → V → Bool) → K → Option V → Option V
  kept p k none = none
  kept p k (some v) = if p k v then some v else none

  pub kept-some :
      (p : K → V → Bool) (k : K) (o : Option V) (v : V)
      → kept p k o ≡ some v
      → (o ≡ some v) × (p k v ≡ true)
  kept-some p k none v h = ground arith
  kept-some p k (some w) v h = ground arith

  pub get-keep :
      (p : K → V → Bool) (k : K) (m : Table K V)
      → HasDistinctKeys m
      → get k (keep p m) ≡ kept p k (get k m)
  unfolding get keep
  get-keep p k [] h = refl
  get-keep p k ((j, v) ∷ m) h = ground (arith, e.beq_iff j k, get-keep p k m h.1, keep-none p k m)

  pub put-HasDistinctKeys :
      (k : K) (v : V) (m : Table K V) → HasDistinctKeys m → HasDistinctKeys (put k v m)
  unfolding get put
  put-HasDistinctKeys k v [] h = (refl, tt)
  put-HasDistinctKeys k v ((j, w) ∷ m) h =
      ground (arith, e.beq_iff j k, e.beq_iff k j, get-put k j v m, put-HasDistinctKeys k v m h.1)

  pub keep-HasDistinctKeys :
      (p : K → V → Bool) (m : Table K V) → HasDistinctKeys m → HasDistinctKeys (keep p m)
  unfolding keep
  keep-HasDistinctKeys p [] h = tt
  keep-HasDistinctKeys p ((j, w) ∷ m) h =
      ground (arith, keep-none p j m h.0, keep-HasDistinctKeys p m h.1)

  pub del-HasDistinctKeys : (k : K) (m : Table K V) → HasDistinctKeys m → HasDistinctKeys (del k m)
  unfolding del
  del-HasDistinctKeys k m = keep-HasDistinctKeys (λ j _. not (j == k)) m

  -- A key is listed exactly when it has a value.
  pub In-keys : (k : K) (v : V) (m : Table K V) → get k m ≡ some v → In k (keys m)
  unfolding get
  In-keys k v [] h = ground arith
  In-keys k v ((j, w) ∷ m) h = ground (arith, e.beq_iff j k, In-keys k v m)

  pub keys-In : (k : K) (m : Table K V) → In k (keys m) → (v : V) × (get k m ≡ some v)
  unfolding get
  keys-In k [] h = absurd h
  keys-In k ((j, w) ∷ m) (inl h) = (w, ground (arith, e.beq_iff j k))
  keys-In k ((j, w) ∷ m) (inr h) = here (j == k) refl (keys-In k m h)
    where
      here :
          (b : Bool)
          → (j == k) ≡ b
          → (v : V) × (get k m ≡ some v)
          → (v : V) × ((if j == k then some w else get k m) ≡ some v)
      here true q r = (w, ground arith)
      here false q (v, r) = (v, ground arith)

  -- With distinct keys, the rows are what `get` finds.
  pub get-In :
      (k : K) (v : V) (m : Table K V) → HasDistinctKeys m → (get k m ≡ some v) ↔ In (k, v) m
  unfolding get
  get-In k v [] h = ground arith
  get-In k v ((j, w) ∷ m) h = ground (arith, e.beq_iff j k, get-In k v m h.1)

-- Every value by a function of it.
abbrev pub map_values : {K V : Type 0} → (V → V) → Table K V → Table K V
map_values f [] = []
map_values f ((k, v) ∷ m) = (k, f v) ∷ map_values f m

abbrev pub mapped : {V : Type 0} → (V → V) → Option V → Option V
mapped f none = none
mapped f (some v) = some (f v)

module _ {K V : Type 0} ⦃e : Eq K⦄ where
  pub get-map_values :
      (k : K) (f : V → V) (m : Table K V) → get k (map_values f m) ≡ mapped f (get k m)
  unfolding get
  get-map_values k f [] = refl
  get-map_values k f ((j, v) ∷ m) = ground (arith, get-map_values k f m)

  pub map_values-HasDistinctKeys :
      (f : V → V) (m : Table K V) → HasDistinctKeys m → HasDistinctKeys (map_values f m)
  map_values-HasDistinctKeys f [] h = tt
  map_values-HasDistinctKeys f ((j, v) ∷ m) (h, hs) =
      (ground (arith, get-map_values j f m), map_values-HasDistinctKeys f m hs)
