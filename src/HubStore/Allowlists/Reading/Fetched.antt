-- ===== src/HubStore/Allowlists/Reading/Fetched.antt =====
-- What the reads of allowlist groups return, when they succeed.
use llmbox.Prelude.{
  ◌≡◌, ◌↔◌, refl, sym, ap, subst, ◌∙◌, inl, inr, none, some, Option, Option-cases, List, [], ◌∷◌,
  map, Str, codes, str_eq, str_le, In, sort, sort-In, IsSorted, sort-IsSorted, str_le_total,
  str_le_trans, Result, ok, failed, Result-cases,
}
use llmbox.HubStore.Rows.{select, select-In}
use llmbox.HubStore.Database.{Database, AllowlistGroup, GroupRow, statement, next_fault, left}
use llmbox.HubStore.Allowlists.{seconds_of, row_of, kept_created_at, save_allowlist_group}
use llmbox.HubStore.Allowlists.Assigning.{In-seconds_of}
use llmbox.HubStore.Allowlists.Saving.{save_allowlist_group_lem}
use llmbox.HubStore.Allowlists.Reading.{
  group_of, stored_domains, domains_for, with_domains, get_allowlist_group, and_group,
  attach_domains, name_le, list_allowlist_groups, whole_group, stored_group,
}

pub statement_done :
    {A : Type 0} (what : Str) (run : Database → Database × A) (db : Database) (a : A)
    → (statement what run db).1 ≡ ok a
    → (a ≡ (run (left db)).1) × ((statement what run db).0 ≡ (run (left db)).0)
unfolding statement
statement_done what run db a h = elim (Option-cases (next_fault db.faults)) [
  | inl fine ↦ (sym (ok-injective (rw (fine, statement) at h)), rw (fine, statement))
  | inr (e, broken) ↦ cc (rw (broken, statement) at h)
]
  where
    ok-injective : {A : Type 0} {x y : A} → ◌≡◌ {A = Result Str A} (ok x) (ok y) → x ≡ y
    ok-injective e = cc e

domains_for_lem :
    (id : Str) (db : Database) (domains : List Str)
    → (domains_for id db).1 ≡ ok domains
    → (domains ≡ stored_domains id db) × ((domains_for id db).0 ≡ left db)
unfolding domains_for
domains_for_lem id db =
    statement_done (codes "reading allowlist group domains") (λ d. (d, stored_domains id d)) db

with_domains_lem :
    (id : Str) (db : Database) (row : Result Str (Option GroupRow)) (answer : Option AllowlistGroup)
    → row ≡ ok (select id db.groups)
    → (with_domains id db row).1 ≡ ok answer
    → answer ≡ stored_group id db
with_domains_lem id db (failed e) answer same h = cc h
with_domains_lem id db (ok none) answer same h =
    let absent : none ≡ select id db.groups = cc same in
    let found : answer ≡ none = cc h in found ∙ ap (whole_group id db) absent
with_domains_lem id db (ok (some row)) answer same h =
    let present : some row ≡ select id db.groups = cc same in
    elim (Result-cases (domains_for id db).1) [
      | inr (e, broken) ↦ cc (rw broken at h)
      | inl (domains, read) ↦
          let (all, _) = domains_for_lem id db domains read in
          let found : answer ≡ some (group_of id row domains) = cc (rw read at h) in
          found ∙ ap (λ ds. some (group_of id row ds)) all ∙ ap (whole_group id db) present
    ]

-- A group is read as the tables hold it.
get_allowlist_group_lem :
    (id : Str) (db : Database) (answer : Option AllowlistGroup)
    → (get_allowlist_group id db).1 ≡ ok answer
    → answer ≡ stored_group id db
unfolding get_allowlist_group
get_allowlist_group_lem id db answer h =
    let read = statement (codes "reading allowlist group") (λ d. (d, select id d.groups)) db in
    elim (Result-cases read.1) [
      | inr (e, broken) ↦ cc (rw (broken, get_allowlist_group) at h)
      | inl (row, done) ↦
          let (same, after) =
            statement_done (codes "reading allowlist group") (λ d. (d, select id d.groups)) db row
              done in
          with_domains_lem id (left db) read.1 answer (done ∙ ap ok same) (rw (sym after) (h))
    ]

and_group_done :
    (g : AllowlistGroup) (r : Result Str (List AllowlistGroup)) (found : List AllowlistGroup)
    → and_group g r ≡ ok found
    → (gs : List AllowlistGroup) × (r ≡ ok gs) × (found ≡ g ∷ gs)
and_group_done g (ok gs) found h = (gs, refl, cc h)
and_group_done g (failed e) found h = cc h

attach_domains_lem :
    (rows : List (Str × GroupRow)) (db : Database) (found : List AllowlistGroup)
    → (attach_domains rows db).1 ≡ ok found
    → found ≡ map (λ r. group_of r.0 r.1 (stored_domains r.0 db)) rows
unfolding attach_domains
attach_domains_lem [] db found h = cc h
attach_domains_lem ((id, row) ∷ rows) db found h = elim (Result-cases (domains_for id db).1) [
  | inr (e, broken) ↦ cc (rw (broken, attach_domains) at h)
  | inl (domains, read) ↦
      let (same, after) = domains_for_lem id db domains read in
      let rest = attach_domains rows (domains_for id db).0 in
      let (gs, others, all) =
        and_group_done (group_of id row domains) rest.1 found (rw (read, attach_domains) at h) in
      let later = attach_domains_lem rows (domains_for id db).0 gs others in
      all ∙ rw (same, later, after) refl
]

In-map_iff :
    {A B : Type 0} (f : A → B) (b : B) (xs : List A)
    → In b (map f xs) ↔ ((a : A) × In a xs × (f a ≡ b))
In-map_iff f b [] = ((λ i. absurd i), λ i. absurd i.1)
In-map_iff f b (x ∷ xs) =
    let (to, from) = In-map_iff f b xs in
    (
      λ i. elim i [ inl e ↦ (x, inl refl, e) | inr j ↦ let (a, k, e) = to j in (a, inr k, e) ],
      λ i. elim i.1 [ inl e ↦ inl (ap f e ∙ i.2) | inr k ↦ inr (from (i.0, k, i.2)) ],
    )

whole_group-some :
    (id : Str) (db : Database) (o : Option GroupRow) (g : AllowlistGroup)
    → whole_group id db o ≡ some g
    → (row : GroupRow) × (o ≡ some row) × (group_of id row (stored_domains id db) ≡ g)
whole_group-some id db none g h = cc h
whole_group-some id db (some row) g h = (row, refl, cc h)

abbrev listed : Database → Str × GroupRow → AllowlistGroup
listed db r = group_of r.0 r.1 (stored_domains r.0 db)

In-listed :
    (db : Database) (g : AllowlistGroup)
    → In g (map (listed db) (sort name_le db.groups.rows)) ↔ (stored_group g.id db ≡ some g)
In-listed db g =
    let (to, from) = In-map_iff (listed db) g (sort name_le db.groups.rows) in
    (
      λ i.
          let (r, j, e) = to i in
          let there = (sort-In name_le r db.groups.rows).0 j in
          let present = (select-In r.0 r.1 db.groups).1 there in
          subst (λ x. stored_group x.id db ≡ some x) e (ap (whole_group r.0 db) present),
      λ h.
          let (row, present, e) = whole_group-some g.id db (select g.id db.groups) g h in
          let there = (select-In g.id row db.groups).0 present in
          from ((g.id, row), (sort-In name_le (g.id, row) db.groups.rows).1 there, e),
    )

-- A listing that succeeds has exactly the groups that the tables hold under their own IDs, each
-- with its domains.
list_allowlist_groups_iff :
    (db : Database) (found : List AllowlistGroup) (g : AllowlistGroup)
    → (list_allowlist_groups db).1 ≡ ok found
    → In g found ↔ (stored_group g.id db ≡ some g)
unfolding list_allowlist_groups
list_allowlist_groups_iff db found g h =
    let what = codes "listing allowlist groups" in
    let all : Database → Database × List (Str × GroupRow) = λ d. (d, sort name_le d.groups.rows) in
    elim (Result-cases (statement what all db).1) [
      | inr (e, broken) ↦ cc (rw (broken, list_allowlist_groups) at h)
      | inl (rows, read) ↦
          let (same, after) = statement_done what all db rows read in
          let attached =
            attach_domains_lem rows (statement what all db).0 found
              (rw (read, list_allowlist_groups) at h) in
          let whole : found ≡ map (listed db) (sort name_le db.groups.rows) =
            attached ∙ rw (same, after) refl in
          subst (λ x. In g x ↔ (stored_group g.id db ≡ some g)) (sym whole) (In-listed db g)
    ]

-- When a save succeeds and the group is then read without an error, the read finds it, with what
-- was saved and the creation time of the row that was there before the save, if any; its domains
-- are those that were saved, sorted.
pub save_then_get :
    (g : AllowlistGroup) (db : Database) (answer : Option AllowlistGroup) (c : Str)
    → (save_allowlist_group g db).1 ≡ none
    → (get_allowlist_group g.id (save_allowlist_group g db).0).1 ≡ ok answer
    → (domains : List Str) × (answer
        ≡ some (group_of g.id (row_of g (kept_created_at g (select g.id db.groups))) domains))
      × IsSorted str_le domains
      × (In c domains ↔ In c g.domains)
save_then_get g db answer c done read =
    let later = (save_allowlist_group g db).0 in
    let (_, row, (into, back)) = save_allowlist_group_lem g db g.id c done in
    let (to, from) = In-seconds_of g.id c later.group_domains in
    let (down, up) = sort-In str_le c (seconds_of g.id later.group_domains) in
    (
      stored_domains g.id later,
      get_allowlist_group_lem g.id later answer read ∙ ap (whole_group g.id later) row,
      sort-IsSorted str_le str_le_total str_le_trans (seconds_of g.id later.group_domains),
      (
        λ i. elim (into (to (down i))) [ inl p ↦ absurd (p.1 refl) | inr p ↦ p.1 ],
        λ i. up (from (back (inr (refl, i)))),
      ),
    )
