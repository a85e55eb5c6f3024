-- ===== src/Hub/Proxies/Pairs.antt =====
-- That a port of a box has one record, and that a repeated creation gives it back.
use llmbox.Prelude.{
  ℕ, ◌≡◌, refl, sym, ap, ◌∙◌, inl, inr, true, false, not, ◌&&◌, none, some, [], ◌∷◌, arith, nat_beq,
  Bool-cases, All, Str, str_eq, str_beq_iff, ◌==◌, to_lower, Table, put, del, keep, Pairwise,
  All-keep, keep-Pairwise, All-put, put-Pairwise,
}
use llmbox.Box.Identifiers.{equal_fold}
use llmbox.Hub.Proxies.{ProxyRecord, fits, first_fit}

-- Two records that are not of the same port of a box.
abbrev Distinct : ProxyRecord → ProxyRecord → Type 0
Distinct r q = fits r.box_id r.port q ≡ false

abbrev pub IsUnfit : Str → ℕ → Table Str ProxyRecord → Type 0
IsUnfit box_id port = All (λ row. fits box_id port row.1 ≡ false)

-- Each row is under its slug, and no two are of the same port of a box.
abbrev pub IsPaired : Table Str ProxyRecord → Type 0
IsPaired m = All (λ row. row.0 ≡ row.1.slug) m × Pairwise Distinct m

-- What fits one record fits each that is of the same port.
fits_same :
    (box_id : Str) (port : ℕ) (r q : ProxyRecord)
    → fits box_id port r ≡ true
    → fits r.box_id r.port q ≡ fits box_id port q
unfolding equal_fold
fits_same box_id port r q h =
    let named : (to_lower r.box_id == to_lower box_id) ≡ true = ground arith in
    let ports : r.port ≡ port = ground arith in
    let names = (str_beq_iff (to_lower r.box_id) (to_lower box_id)).0 named in
    ap (λ n. (to_lower q.box_id == n) && nat_beq q.port r.port) names
    ∙ ap (λ n. (to_lower q.box_id == to_lower box_id) && nat_beq q.port n) ports

Distinct-sym : (r q : ProxyRecord) → Distinct r q → Distinct q r
unfolding equal_fold
Distinct-sym r q h = ground (
  arith,
  str_beq_iff (to_lower q.box_id) (to_lower r.box_id),
  str_beq_iff (to_lower r.box_id) (to_lower q.box_id),
)

pub first_fit-none :
    (box_id : Str) (port : ℕ) (m : Table Str ProxyRecord)
    → first_fit box_id port m ≡ none
    → IsUnfit box_id port m
unfolding first_fit
first_fit-none box_id port [] h = tt
first_fit-none box_id port ((k, r) ∷ m) h = elim (Bool-cases (fits box_id port r)) [
  | inl it ↦ cc (rw (it, first_fit) at h)
  | inr differ ↦ (differ, first_fit-none box_id port m (rw (differ, first_fit) at h))
]

-- Once the record of a port is removed, no other is of the port.
pub first_fit-del :
    (box_id : Str) (port : ℕ) (r : ProxyRecord) (m : Table Str ProxyRecord)
    → IsPaired m
    → first_fit box_id port m ≡ some r
    → IsUnfit box_id port (del r.slug m)
unfolding first_fit del
first_fit-del box_id port r [] h e = tt
first_fit-del box_id port r ((k, q) ∷ m) ((key, keys), (apart, h)) e =
    elim (Bool-cases (fits box_id port q)) [
      | inl it ↦
          let same : q ≡ r = cc (rw (it, first_fit) at e) in
          let mine : (k == r.slug) ≡ true =
            (str_beq_iff k r.slug).1 (key ∙ ap (λ (x : ProxyRecord). x.slug) same) in
          rw (mine, keep)
            (All-keep (λ row. fits box_id port row.1 ≡ false) (λ j _. not (j == r.slug)) m
              (others q it m apart))
      | inr differ ↦
          let rest = first_fit-del box_id port r m (keys, h) (rw (differ, first_fit) at e) in
          elim (Bool-cases (k == r.slug)) [
            | inl mine ↦ rw (mine, keep) rest
            | inr theirs ↦ rw (theirs, keep) (differ, rest)
          ]
    ]
  where
    others :
        (q : ProxyRecord)
        → fits box_id port q ≡ true
        → (m : Table Str ProxyRecord) → All (λ row. Distinct q row.1) m
        → IsUnfit box_id port m
    others q it [] h = tt
    others q it ((j, x) ∷ m) (h, hs) = (sym (fits_same box_id port q x it) ∙ h, others q it m hs)

pub del-IsPaired : (slug : Str) (m : Table Str ProxyRecord) → IsPaired m → IsPaired (del slug m)
unfolding del
del-IsPaired slug m (keys, h) = (
  All-keep (λ row. row.0 ≡ row.1.slug) (λ j _. not (j == slug)) m keys,
  keep-Pairwise Distinct (λ j _. not (j == slug)) m h,
)

pub put-IsPaired :
    (r : ProxyRecord) (m : Table Str ProxyRecord)
    → IsUnfit r.box_id r.port m
    → IsPaired m
    → IsPaired (put r.slug r m)
put-IsPaired r m unfit (keys, h) = (
  All-put (λ row. row.0 ≡ row.1.slug) r.slug r m refl keys,
  put-Pairwise Distinct r.slug r m (both m unfit) h,
)
  where
    both :
        (m : Table Str ProxyRecord)
        → IsUnfit r.box_id r.port m
        → All (λ row. Distinct r row.1 × Distinct row.1 r) m
    both [] h = tt
    both ((j, q) ∷ m) (h, hs) = ((h, Distinct-sym r q h), both m hs)

-- A record of a port that had none is what the port is resolved to.
pub first_fit-put :
    (r : ProxyRecord) (m : Table Str ProxyRecord)
    → IsUnfit r.box_id r.port m
    → fits r.box_id r.port r ≡ true
    → first_fit r.box_id r.port (put r.slug r m) ≡ some r
unfolding first_fit put
first_fit-put r [] h it = rw it refl
first_fit-put r ((j, q) ∷ m) (h, hs) it = elim (Bool-cases (j == r.slug)) [
  | inl same ↦ rw (same, put) (rw it refl)
  | inr differ ↦ rw (differ, put) (rw h (first_fit-put r m hs it))
]
