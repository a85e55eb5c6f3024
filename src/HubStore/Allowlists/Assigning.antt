-- ===== src/HubStore/Allowlists/Assigning.antt =====
-- What the transactions on groups and assignments leave, when they succeed.
use llmbox.Prelude.{
  ◌≡◌, ◌≢◌, ◌↔◌, refl, sym, ap, ◌∙◌, ◌⊎◌, inl, inr, not, none, List, [], ◌∷◌, ◌++◌, arith, Str,
  codes, str_eq, str_le, str_beq_iff, ◌==◌, pair_eq, contains_iff, sort-In, In, In-append,
  In-filter, ok, Option-cases, pair_beq_iff,
}
use llmbox.Netfw.Firewall.{Error}
use llmbox.HubStore.Database.{Database, exec, left, next_fault}
use llmbox.HubStore.Allowlists.{
  Action, and_then, transaction, bracketed, unchanged, insert_new, delete_first, delete_second,
  seconds_of, assign_all, set_box_groups, get_box_groups,
}

pub exec_done :
    (what : Str) (run : Database → Database) (db : Database)
    → (exec what run db).1 ≡ none
    → (exec what run db).0 ≡ run (left db)
unfolding exec
exec_done what run db h = elim (Option-cases (next_fault db.faults)) [
  | inl fine ↦ rw (fine, exec)
  | inr (e, broken) ↦ cc (rw (broken, exec) at h)
]

pub and_then_done :
    (f g : Action) (db : Database)
    → (and_then f g db).1 ≡ none
    → ((f db).1 ≡ none) × ((g (f db).0).1 ≡ none) × ((and_then f g db).0 ≡ (g (f db).0).0)
unfolding and_then
and_then_done f g db h = elim (Option-cases (f db).1) [
  | inl fine ↦ (fine, rw (fine, and_then) at h, rw (fine, and_then))
  | inr (e, broken) ↦ cc (rw (broken, and_then) at h)
]

-- A transaction that succeeds has run its body.
pub transaction_done :
    (what : Str) (body : Action) (db : Database)
    → (transaction what body db).1 ≡ none
    → ((body (left db)).1 ≡ none) × ((transaction what body db).0 ≡ left (body (left db)).0)
unfolding transaction
transaction_done what body db h = elim (Option-cases (bracketed what body db).1) [
  | inr (e, broken) ↦ cc (rw (broken, transaction) at h)
  | inl fine ↦
      let (begun, rest, e) =
        and_then_done (exec (codes "begin " ++ what) unchanged)
          (and_then body (exec (codes "commit " ++ what) unchanged)) db fine in
      let start = exec_done (codes "begin " ++ what) unchanged db begun in
      let (ran, committed, e') =
        and_then_done body (exec (codes "commit " ++ what) unchanged) (left db)
          (rw start at rest) in
      (
        ran,
        rw (fine, transaction)
            (e
              ∙ rw start e'
              ∙ exec_done (codes "commit " ++ what) unchanged (body (left db)).0 committed),
      )
]

pub In-insert_new :
    (p q : Str × Str) (ps : List (Str × Str)) → In p (insert_new q ps) ↔ (In p ps ⊎ (q ≡ p))
unfolding insert_new
In-insert_new p q ps = ground (arith, contains_iff ps p, contains_iff ps q, In-append p ps (q ∷ []))

pub In-seconds_of : (a c : Str) (ps : List (Str × Str)) → In c (seconds_of a ps) ↔ In (a, c) ps
unfolding seconds_of
In-seconds_of a c [] = ground arith
In-seconds_of a c ((b, d) ∷ ps) =
    ground (arith, str_beq_iff b a, pair_beq_iff (b, d) (a, c), In-seconds_of a c ps)

pub In-delete_first :
    (a b c : Str) (ps : List (Str × Str)) → In (b, c) (delete_first a ps) ↔ (In (b, c) ps × (b ≢ a))
unfolding delete_first
In-delete_first a b c ps =
    ground (arith, In-filter (λ p. not (p.0 == a)) (b, c) ps, str_beq_iff b a)

pub In-delete_second :
    (a b c : Str) (ps : List (Str × Str))
    → In (b, c) (delete_second a ps) ↔ (In (b, c) ps × (c ≢ a))
unfolding delete_second
In-delete_second a b c ps =
    ground (arith, In-filter (λ p. not (p.1 == a)) (b, c) ps, str_beq_iff c a)

get_box_groups_lem :
    (box : Str) (db : Database) (found : List Str) (id : Str)
    → (get_box_groups box db).1 ≡ ok found
    → In id found ↔ In (box, id) db.box_groups
unfolding get_box_groups
get_box_groups_lem box db found id read =
    ground
      (arith, sort-In str_le id (seconds_of box db.box_groups), In-seconds_of box id db.box_groups)

abbrev assignment : Str → Str → Database → Database
assignment box id d = record d { box_groups = insert_new (box, id) d.box_groups }

abbrev assign_one : Str → Str → Action
assign_one box id = exec (codes "assigning box group") (assignment box id)

assign_all_lem :
    (box : Str) (ids : List Str) (db : Database) (b c : Str)
    → (assign_all box ids db).1 ≡ none
    → In (b, c) (assign_all box ids db).0.box_groups
      ↔ (In (b, c) db.box_groups ⊎ ((b ≡ box) × In c ids))
unfolding assign_all
assign_all_lem box [] db b c h = ground arith
assign_all_lem box (id ∷ ids) db b c h =
    let (one, rest, e) = and_then_done (assign_one box id) (assign_all box ids) db h in
    let step = exec_done (codes "assigning box group") (assignment box id) db one in
    let later = assign_all_lem box ids (assign_one box id db).0 b c rest in
    let (to, from) = In-insert_new (b, c) (box, id) db.box_groups in
    let (into, back) = later in
    rw e (
      λ i. elim (into i) [
        | inl j ↦ elim (to (rw step at j)) [
          | inl old ↦ inl old
          | inr new ↦
              inr (sym (ap (λ (p : Str × Str). p.0) new), inl (ap (λ (p : Str × Str). p.1) new))
        ]
        | inr (same, j) ↦ inr (same, inr j)
      ],
      λ i. elim i [
        | inl old ↦ back (inl (rw step (from (inl old))))
        | inr (same, inl new) ↦ back (inl (rw step (from (inr (both same new)))))
        | inr (same, inr j) ↦ back (inr (same, j))
      ],
    )
  where
    both : b ≡ box → id ≡ c → ◌≡◌ {A = Str × Str} (box, id) (b, c)
    both same new = rw (same, new) refl

abbrev clear_box : Str → Database → Database
clear_box box d = record d { box_groups = delete_first box d.box_groups }

module _ (box : Str) (ids : List Str) (db : Database) where
  abbrev assigned : Database × Error
  assigned = set_box_groups box ids db

  abbrev clearing : Action
  clearing = exec (codes "clearing box groups") (clear_box box)

  set_box_groups_lem :
      (b c : Str)
      → assigned.1 ≡ none
      → In (b, c) assigned.0.box_groups
        ↔ ((In (b, c) db.box_groups × (b ≢ box)) ⊎ ((b ≡ box) × In c ids))
  unfolding set_box_groups
  set_box_groups_lem b c done =
      let body = and_then clearing (assign_all box ids) in
      let (ran, e) = transaction_done (codes "setting box groups") body db done in
      let (cleared, assigning, e') = and_then_done clearing (assign_all box ids) (left db) ran in
      let empty = exec_done (codes "clearing box groups") (clear_box box) (left db) cleared in
      let (to, from) = assign_all_lem box ids (clearing (left db)).0 b c assigning in
      let (down, up) = In-delete_first box b c db.box_groups in
      (
        λ i. elim (to (rw (e, e') at i)) [ inl j ↦ inl (down (rw empty at j)) | inr p ↦ inr p ],
        λ i. rw (e, e') (from (elim i [ inl p ↦ inl (rw empty (up p)) | inr p ↦ inr p ])),
      )

  -- The groups of a box that are read after a successful assignment are those that were assigned.
  set_box_groups_round_trip :
      (found : List Str) (id : Str)
      → assigned.1 ≡ none
      → (get_box_groups box assigned.0).1 ≡ ok found
      → In id found ↔ In id ids
  set_box_groups_round_trip found id done read =
      ground
        (arith, get_box_groups_lem box assigned.0 found id read, set_box_groups_lem box id done)
