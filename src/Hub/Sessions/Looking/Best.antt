-- ===== src/Hub/Sessions/Looking/Best.antt =====
-- That a box ID is resolved to the best of the records that have it.
use llmbox.Prelude.{
  ◌≡◌, refl, sym, ap, subst, ◌⊎◌, inl, inr, Bool, true, false, Option, none, some, List, [], ◌∷◌,
  arith, after, if◌then◌else◌, Bool-cases, All, In, All-In, All-of_In, Str, str_eq, str_le_total,
  str_le_trans, Table,
}
use llmbox.Hub.Records.{Session, World}
use llmbox.Hub.Sessions.{Server}
use llmbox.Hub.Sessions.Looking.Order.{Precedes, preferred-Precedes}
use llmbox.Hub.Sessions.Looking.{
  matches_id, sessions_with, Rank, better, rank, preferred, best_of, first_best, lookup_by_box_id,
}

better_asym : (c d : Session) (r q : Rank) → better c r d q ≡ true → better d q c r ≡ false
unfolding better after
better_asym c d (a, b) (a', b') h = ground (arith, str_le_total c.token d.token)

worse_trans :
    (c d e : Session) (r q p : Rank)
    → better c r d q ≡ false
    → better d q e p ≡ false
    → better c r e p ≡ false
unfolding better after
worse_trans c d e (a, b) (a', b') (a'', b'') h g =
    ground (arith, str_le_trans e.token d.token c.token)

better_irrefl : (c : Session) (r : Rank) → better c r c r ≡ false
better_irrefl c r = elim (Bool-cases (better c r c r)) [
  | inl above ↦ better_asym c c r r above
  | inr level ↦ level
]

module _ (W : World) where
  abbrev IsBest : W.State → Session → List Session → Type 0
  IsBest w best = All (λ c. preferred W w c best ≡ false)

  -- The best of a list is of the list.
  abbrev IsTop : W.State → List Session → Session → Type 0
  IsTop w cs best = In best cs × IsBest w best cs

  takes_newer :
      (w : W.State) (best c : Session) (cs : List Session)
      → preferred W w c best ≡ true
      → best_of W w c cs ≡ best_of W w best (c ∷ cs)
  unfolding best_of
  takes_newer w best c cs newer =
      ap (λ (b : Bool). best_of W w (if b then c else best) cs) (sym newer)

  keeps_older :
      (w : W.State) (best c : Session) (cs : List Session)
      → preferred W w c best ≡ false
      → best_of W w best cs ≡ best_of W w best (c ∷ cs)
  unfolding best_of
  keeps_older w best c cs older =
      ap (λ (b : Bool). best_of W w (if b then c else best) cs) (sym older)

  best_of-IsTop :
      (w : W.State) (best : Session) (cs : List Session) → IsTop w (best ∷ cs) (best_of W w best cs)
  unfolding best_of
  best_of-IsTop w best [] = (inl refl, (better_irrefl best (rank W w best), tt))
  best_of-IsTop w best (c ∷ cs) = elim (Bool-cases (preferred W w c best)) [
    | inl newer ↦
        let (there, (it, others)) = best_of-IsTop w c cs in
        let under =
          worse_trans best c (best_of W w c cs) (rank W w best) (rank W w c)
            (rank W w (best_of W w c cs)) (better_asym c best (rank W w c) (rank W w best) newer)
            it in
        subst (IsTop w (best ∷ c ∷ cs)) (takes_newer w best c cs newer)
          (inr there, (under, (it, others)))
    | inr older ↦
        let (there, (it, others)) = best_of-IsTop w best cs in
        let under =
          worse_trans c best (best_of W w best cs) (rank W w c) (rank W w best)
            (rank W w (best_of W w best cs)) older it in
        subst (IsTop w (best ∷ c ∷ cs)) (keeps_older w best c cs older)
          (skip there, (it, (under, others)))
  ]
    where
      skip : {x : Session} → In x (best ∷ cs) → In x (best ∷ c ∷ cs)
      skip (inl e) = inl e
      skip (inr i) = inr (inr i)

  -- The rows that match are those of the table.
  sessions_with-In :
      (id : Str) (m : Table Str Session) (s : Session)
      → In s (sessions_with id m)
      → ((k : Str) × In (k, s) m) × (matches_id id s ≡ true)
  unfolding sessions_with
  sessions_with-In id [] s h = absurd h
  sessions_with-In id ((k, t) ∷ m) s h = elim (Bool-cases (matches_id id t)) [
    | inr other ↦
        let ((j, there), same) = sessions_with-In id m s (rw (other, sessions_with) at h) in
        ((j, inr there), same)
    | inl fits ↦ elim (first (rw (fits, sessions_with) at h)) [
      | inl e ↦ ((k, inl (ap (λ x. (k, x)) e)), subst (λ x. matches_id id x ≡ true) e fits)
      | inr later ↦ let ((j, there), same) = sessions_with-In id m s later in ((j, inr there), same)
    ]
  ]
    where
      first : In s (t ∷ sessions_with id m) → (t ≡ s) ⊎ In s (sessions_with id m)
      first h = h

  In-sessions_with :
      (id k : Str) (m : Table Str Session) (s : Session)
      → In (k, s) m
      → matches_id id s ≡ true
      → In s (sessions_with id m)
  unfolding sessions_with
  In-sessions_with id k [] s h same = absurd h
  In-sessions_with id k ((j, t) ∷ m) s (inl e) same =
      let it : t ≡ s = ap (λ (x : Str × Session). x.1) e in
      let fits = subst (λ x. matches_id id x ≡ true) (sym it) same in
      rw (fits, sessions_with) (inl it)
  In-sessions_with id k ((j, t) ∷ m) s (inr there) same =
      let later = In-sessions_with id k m s there same in
      elim (Bool-cases (matches_id id t)) [
        | inl fits ↦ rw (fits, sessions_with) (inr later)
        | inr other ↦ rw (other, sessions_with) later
      ]

  -- What a lookup gives: a record with the ID that precedes all with the ID, or nothing where there
  -- is none.
  abbrev pub Looked : Str → Server W → Option Session → Type 0
  Looked id srv none = All (λ row. matches_id id row.1 ≡ false) srv.by_token
  Looked id srv (some best) =
      ((k : Str) × In (k, best) srv.by_token)
      × (matches_id id best ≡ true)
      × All (λ row. (matches_id id row.1 ≡ false) ⊎ Precedes W srv.world best row.1) srv.by_token

  looked :
      (id : Str) (srv : Server W) (cs : List Session)
      → sessions_with id srv.by_token ≡ cs
      → Looked id srv (first_best W srv.world cs)
  looked id srv [] e =
      All-of_In (λ (row : Str × Session). matches_id id row.1 ≡ false) srv.by_token
        (λ row there. elim (Bool-cases (matches_id id row.1)) [
          | inr other ↦ other
          | inl fits ↦
              absurd (subst (In row.1) e (In-sessions_with id row.0 srv.by_token row.1 there fits))
        ])
  looked id srv (c ∷ cs) e =
      let (there, best) = best_of-IsTop srv.world c cs in
      let top = best_of W srv.world c cs in
      let (row, fits) = sessions_with-In id srv.by_token top (subst (In top) (sym e) there) in
      (
        row,
        fits,
        All-of_In
            (λ (row : Str × Session).
              (matches_id id row.1 ≡ false) ⊎ Precedes W srv.world top row.1)
            srv.by_token
            (λ row at. elim (Bool-cases (matches_id id row.1)) [
              | inr other ↦ inl other
              | inl same ↦ inr (
                  preferred-Precedes W srv.world top row.1 (
                    All-In (λ x. preferred W srv.world x top ≡ false) (c ∷ cs) row.1 best
                      (subst (In row.1) e (In-sessions_with id row.0 srv.by_token row.1 at same))))
            ]),
      )

  -- A lookup finds nothing only where no record has the box ID up to case. Otherwise it finds a
  -- record with the ID that none with the ID comes before in this order: records that are not
  -- terminated first, then those whose spoke is reachable, then those created last, then those with
  -- the smallest token.
  pub lookup_by_box_id_lem : (id : Str) (srv : Server W) → Looked id srv (lookup_by_box_id W id srv)
  unfolding lookup_by_box_id
  lookup_by_box_id_lem id srv = looked id srv (sessions_with id srv.by_token) refl
