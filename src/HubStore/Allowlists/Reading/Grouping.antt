-- ===== src/HubStore/Allowlists/Reading/Grouping.antt =====
-- internal/hub/store/allowlist_store.go: that the listing of all assignments and the reading of one
-- box's agree.
use llmbox.Prelude.{
  ◌≡◌, refl, sym, ap, subst, ◌∙◌, ◌⊎◌, inl, inr, true, List, [], ◌∷◌, ◌++◌, arith, Str, codes,
  str_eq, str_le, str_beq_iff, ◌==◌, All, All-trans, sort, insert, IsSorted, sort-IsSorted,
  str_le_total, str_le_trans, str_le_antisym, ok, Result-cases, Table, get, put, get-put,
  Bool-cases, if◌then◌else◌, get-nil,
}
use llmbox.HubStore.Database.{Database, statement}
use llmbox.HubStore.Allowlists.{seconds_of, get_box_groups}
use llmbox.HubStore.Allowlists.Reading.{assignment_le, or_nil, gather, list_box_groups}
use llmbox.HubStore.Allowlists.Reading.Fetched.{statement_done}

le_total : (p q : Str × Str) → (assignment_le p q ≡ true) ⊎ (assignment_le q p ≡ true)
unfolding assignment_le
le_total (a, i) (b, j) =
    ground (arith, str_le_total a b, str_le_total i j, str_beq_iff a b, str_beq_iff b a)

le_trans :
    (p q r : Str × Str)
    → assignment_le p q ≡ true
    → assignment_le q r ≡ true
    → assignment_le p r ≡ true
unfolding assignment_le
le_trans (a, i) (b, j) (c, k) h g = ground (
  arith,
  str_le_trans a b c,
  str_le_trans i j k,
  str_le_antisym a b,
  str_beq_iff a b,
  str_beq_iff b c,
  str_beq_iff a c,
)

append_nil : {A : Type 0} (xs : List A) → xs ≡ xs ++ []
append_nil [] = refl
append_nil (x ∷ xs) = ap (λ t. x ∷ t) (append_nil xs)

append_one : {A : Type 0} (xs : List A) (x : A) (ys : List A) → (xs ++ x ∷ []) ++ ys ≡ xs ++ x ∷ ys
append_one [] x ys = refl
append_one (z ∷ xs) x ys = ap (λ t. z ∷ t) (append_one xs x ys)

put_step :
    (box b id : Str) (out : Table Str (List Str)) (rest : List Str)
    → or_nil (get box (put b (or_nil (get b out) ++ id ∷ []) out)) ++ rest
      ≡ or_nil (get box out) ++ (if b == box then id ∷ rest else rest)
put_step box b id out rest = elim (Bool-cases (b == box)) [
  | inl same ↦
      rw (get-put b box (or_nil (get b out) ++ id ∷ []) out, same)
        (append_one (or_nil (get b out)) id rest
          ∙ ap (λ x. or_nil (get x out) ++ id ∷ rest) ((str_beq_iff b box).0 same))
  | inr other ↦ rw (get-put b box (or_nil (get b out) ++ id ∷ []) out, other) refl
]

gather_lem :
    (box : Str) (ps : List (Str × Str)) (out : Table Str (List Str))
    → or_nil (get box (gather ps out)) ≡ or_nil (get box out) ++ seconds_of box ps
unfolding gather seconds_of
gather_lem box [] out = append_nil (or_nil (get box out))
gather_lem box ((b, id) ∷ ps) out =
    gather_lem box ps (put b (or_nil (get b out) ++ id ∷ []) out)
    ∙ put_step box b id out (seconds_of box ps)

insert_below :
    (i : Str) (xs : List Str) → All (λ x. str_le i x ≡ true) xs → insert str_le i xs ≡ i ∷ xs
unfolding insert
insert_below i [] h = refl
insert_below i (x ∷ xs) h = rw h.0 refl

All-seconds_of :
    (box i : Str) (ps : List (Str × Str))
    → All (λ q. assignment_le (box, i) q ≡ true) ps
    → All (λ x. str_le i x ≡ true) (seconds_of box ps)
unfolding assignment_le seconds_of
All-seconds_of box i [] h = tt
All-seconds_of box i ((b, j) ∷ ps) (h, t) =
    ground (arith, str_beq_iff b box, str_beq_iff box b, All-seconds_of box i ps t)

by_box_then_group :
    (b i c j : Str) → assignment_le (b, i) (c, j) ≡ (if b == c then str_le i j else str_le b c)
unfolding assignment_le
by_box_then_group b i c j = refl

seconds_of-insert :
    (box b i : Str) (ps : List (Str × Str))
    → IsSorted assignment_le ps
    → seconds_of box (insert assignment_le (b, i) ps)
      ≡ (if b == box then insert str_le i (seconds_of box ps) else seconds_of box ps)
unfolding insert seconds_of
seconds_of-insert box b i [] h = refl
seconds_of-insert box b i ((c, j) ∷ ps) (below, h) =
    elim (Bool-cases (assignment_le (b, i) (c, j))) [
      | inl first ↦ rw first (elim (Bool-cases (b == box)) [
        | inr other ↦ rw other refl
        | inl same ↦
            let e = (str_beq_iff b box).0 same in
            let above = All-trans assignment_le le_total le_trans (b, i) (c, j) ps first below in
            let all : All (λ q. assignment_le (box, i) q ≡ true) ((c, j) ∷ ps) =
              subst (λ x. All (λ q. assignment_le (x, i) q ≡ true) ((c, j) ∷ ps)) e
                (first, above) in
            rw same (
              sym (
                insert_below i (seconds_of box ((c, j) ∷ ps))
                  (All-seconds_of box i ((c, j) ∷ ps) all)))
      ])
      | inr later ↦ ground (
        arith,
        seconds_of-insert box b i ps h,
        by_box_then_group b i c j,
        str_beq_iff b box,
        str_beq_iff c box,
        str_beq_iff b c,
      )
    ]

seconds_of-sort :
    (box : Str) (ps : List (Str × Str))
    → seconds_of box (sort assignment_le ps) ≡ sort str_le (seconds_of box ps)
unfolding sort seconds_of
seconds_of-sort box [] = refl
seconds_of-sort box ((b, i) ∷ ps) =
    seconds_of-insert box b i (sort assignment_le ps)
      (sort-IsSorted assignment_le le_total le_trans ps)
    ∙ ground (arith, seconds_of-sort box ps)

-- When both reads succeed, the listing of all assignments has for a box exactly the groups that the
-- reading of that box returns, in the same order.
pub list_box_groups_lem :
    (box : Str) (db : Database) (all : Table Str (List Str)) (found : List Str)
    → (list_box_groups db).1 ≡ ok all
    → (get_box_groups box db).1 ≡ ok found
    → or_nil (get box all) ≡ found
unfolding list_box_groups get_box_groups
list_box_groups_lem box db all found listed read =
    let what = codes "listing box groups" in
    let pairs : Database → Database × List (Str × Str) =
      λ d. (d, sort assignment_le d.box_groups) in
    let of_box : Database → Database × List Str =
      λ d. (d, sort str_le (seconds_of box d.box_groups)) in
    elim (Result-cases (statement what pairs db).1) [
      | inr (e, broken) ↦ cc (rw (broken, list_box_groups) at listed)
      | inl (ps, done) ↦
          let gathered : all ≡ gather ps [] = cc (rw (done, list_box_groups) at listed) in
          ap (λ m. or_nil (get box m)) gathered
          ∙ gather_lem box ps []
          ∙ ap (λ qs. or_nil (get box []) ++ seconds_of box qs)
              (statement_done what pairs db ps done).0
          ∙ ap (λ xs. or_nil (get box []) ++ xs) (seconds_of-sort box db.box_groups)
          ∙ ap (λ o. or_nil o ++ sort str_le (seconds_of box db.box_groups)) (get-nil box)
          ∙ sym (statement_done (codes "reading box groups") of_box db found read).0
    ]
