-- ===== src/Hub/Sessions/Unique.antt =====
-- Tables of records in which no two live ones have the same box ID up to case.
use llmbox.Prelude.{
  ◌≡◌, refl, ◌≢◌, sym, ap, subst, ◌∙◌, ◌⊎◌, inl, inr, Bool, true, false, none, [], ◌∷◌, arith,
  Bool-cases, All, In, Str, str_eq, str_beq_iff, ◌==◌, to_lower, Table, put, keep, map_values,
  Pairwise, put-Pairwise,
}
use llmbox.Box.Identifiers.{equal_fold}
use llmbox.Hub.Records.{Session, terminated}
use llmbox.Hub.Sessions.{holds, first_holder}

-- No live record has the ID in lower case.
abbrev pub IsOff : Str → Session → Type 0
IsOff p s = (terminated s ≡ true) ⊎ (to_lower s.box_id ≢ p)

abbrev pub IsFree : Str → Table Str Session → Type 0
IsFree p = All (λ row. IsOff p row.1)

-- At most one of two is live, or they have different IDs.
abbrev pub Apart : Session → Session → Type 0
Apart s t = (terminated s ≡ true) ⊎ IsOff (to_lower s.box_id) t

abbrev pub IsUnique : Table Str Session → Type 0
IsUnique = Pairwise Apart

flip : (s t : Session) → IsOff (to_lower t.box_id) s → Apart s t
flip s t (inl gone) = inl gone
flip s t (inr differ) = inr (inr (λ e. differ (sym e)))

pub put-IsUnique :
    (k : Str) (s : Session) (m : Table Str Session)
    → IsFree (to_lower s.box_id) m
    → IsUnique m
    → IsUnique (put k s m)
put-IsUnique k s m free h = put-Pairwise Apart k s m (both m free) h
  where
    both :
        (m : Table Str Session)
        → IsFree (to_lower s.box_id) m
        → All (λ row. Apart s row.1 × Apart row.1 s) m
    both [] h = tt
    both ((j, t) ∷ m) (h, hs) = ((inr h, flip t s h), both m hs)

-- A change of the records that keeps their IDs and makes none live.
abbrev pub IsTame : (Session → Session) → Session → Type 0
IsTame f s = ((f s).box_id ≡ s.box_id) × ((terminated s ≡ false) ⊎ (terminated (f s) ≡ true))

tame-IsOff :
    (f : Session → Session) (p : Str) (s : Session) → IsTame f s → IsOff p s → IsOff p (f s)
tame-IsOff f p s (same, inl live) (inl gone) = absurd (differs (sym live ∙ gone))
  where
    differs : false ≡ true → ⊥
    differs e = cc e
tame-IsOff f p s (same, inr stays) (inl gone) = inl stays
tame-IsOff f p s (same, tame) (inr differ) = inr (λ e. differ (ap to_lower (sym same) ∙ e))

pub map_values-IsFree :
    (f : Session → Session) (p : Str) (m : Table Str Session)
    → All (λ row. IsTame f row.1) m
    → IsFree p m
    → IsFree p (map_values f m)
map_values-IsFree f p [] tame h = tt
map_values-IsFree f p ((k, s) ∷ m) (tame, tames) (h, hs) =
    (tame-IsOff f p s tame h, map_values-IsFree f p m tames hs)

tame-Apart :
    (f : Session → Session) (s t : Session)
    → IsTame f s
    → IsTame f t
    → Apart s t
    → Apart (f s) (f t)
tame-Apart f s t (same, inl live) tame (inl gone) = absurd (differs (sym live ∙ gone))
  where
    differs : false ≡ true → ⊥
    differs e = cc e
tame-Apart f s t (same, inr stays) tame (inl gone) = inl stays
tame-Apart f s t (same, dead) tame (inr off) = inr (
    subst (λ id. IsOff (to_lower id) (f t)) (sym same)
      (tame-IsOff f (to_lower s.box_id) t tame off))

pub map_values-IsUnique :
    (f : Session → Session) (m : Table Str Session)
    → All (λ row. IsTame f row.1) m
    → IsUnique m
    → IsUnique (map_values f m)
map_values-IsUnique f [] tame h = tt
map_values-IsUnique f ((k, s) ∷ m) (tame, tames) (h, hs) =
    (against m tames h, map_values-IsUnique f m tames hs)
  where
    against :
        (m : Table Str Session)
        → All (λ row. IsTame f row.1) m
        → All (λ other. Apart s other.1) m
        → All (λ other. Apart (f s) other.1) (map_values f m)
    against [] ts h = tt
    against ((j, t) ∷ m) (t', ts) (h, hs) = (tame-Apart f s t tame t' h, against m ts hs)

pub first_holder-IsFree :
    (id : Str) (m : Table Str Session) → first_holder id m ≡ none → IsFree (to_lower id) m
unfolding first_holder equal_fold
first_holder-IsFree id [] h = tt
first_holder-IsFree id ((k, s) ∷ m) h = elim (Bool-cases (holds id s)) [
  | inl held ↦ cc (rw (held, first_holder) at h)
  | inr loose ↦ (off loose, first_holder-IsFree id m (rw (loose, first_holder) at h))
]
  where
    off : holds id s ≡ false → IsOff (to_lower id) s
    off e = ground (arith, str_beq_iff (to_lower s.box_id) (to_lower id))

pub In-put : (k : Str) (s : Session) (m : Table Str Session) → In (k, s) (put k s m)
unfolding put
In-put k s [] = inl refl
In-put k s ((j, t) ∷ m) = elim (Bool-cases (j == k)) [
  | inl same ↦ rw (same, put) (inl refl)
  | inr differ ↦ rw (differ, put) (inr (In-put k s m))
]

pub In-keep :
    (p : Str → Session → Bool) (k : Str) (s : Session) (m : Table Str Session)
    → p k s ≡ true
    → In (k, s) m
    → In (k, s) (keep p m)
unfolding keep
In-keep p k s [] stays h = absurd h
In-keep p k s ((j, t) ∷ m) stays (inl e) =
    let first : p j t ≡ true = ap (λ (x : Str × Session). p x.0 x.1) e ∙ stays in
    rw (first, keep) (inl e)
In-keep p k s ((j, t) ∷ m) stays (inr h) =
    let later = In-keep p k s m stays h in
    elim (Bool-cases (p j t)) [
      | inl here ↦ rw (here, keep) (inr later)
      | inr gone ↦ rw (gone, keep) later
    ]

pub In-map_values :
    (f : Session → Session) (k : Str) (s : Session) (m : Table Str Session)
    → In (k, s) m
    → In (k, f s) (map_values f m)
In-map_values f k s [] h = absurd h
In-map_values f k s ((j, t) ∷ m) (inl e) = inl (ap (λ (x : Str × Session). (x.0, f x.1)) e)
In-map_values f k s ((j, t) ∷ m) (inr h) = inr (In-map_values f k s m h)
