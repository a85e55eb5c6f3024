-- ===== src/HubStore/Allowlists/Saving.antt =====
-- What `SaveAllowlistGroup` and `DeleteAllowlistGroup` leave, when they succeed.
use llmbox.Prelude.{
  ◌≡◌, ◌≢◌, ◌↔◌, refl, sym, ap, ◌∙◌, ◌⊎◌, inl, inr, false, none, some, List, [], ◌∷◌, arith, Str,
  codes, str_eq, pair_eq, In, Bool-cases,
}
use llmbox.HubStore.Rows.{select, upsert, remove, removed, upserted}
use llmbox.HubStore.Database.{Database, AllowlistGroup, GroupRow, exec, left}
use llmbox.HubStore.Allowlists.{
  and_then, insert_new, delete_first, delete_second, name_taken, row_of, kept_created_at,
  upsert_group, insert_domains, save_allowlist_group, delete_allowlist_group,
}
use llmbox.HubStore.Allowlists.Assigning.{
  exec_done, and_then_done, transaction_done, In-insert_new, In-delete_first, In-delete_second,
}

abbrev drop_domains : Str → Database → Database
drop_domains id d = record d { group_domains = delete_first id d.group_domains }

abbrev drop_boxes : Str → Database → Database
drop_boxes id d = record d { box_groups = delete_second id d.box_groups }

abbrev drop_group : Str → Database → Database
drop_group id d = record d { groups = remove id d.groups }

-- The three statements of a deletion, run one after the other.
delete_runs :
    (id : Str) (db : Database)
    → (delete_allowlist_group id db).1 ≡ none
    → (delete_allowlist_group id db).0
      ≡ left (drop_group id (left (drop_boxes id (left (drop_domains id (left (left db)))))))
unfolding delete_allowlist_group
delete_runs id db done =
    let what = codes "deleting allowlist group" in
    let rest = and_then (exec what (drop_boxes id)) (exec what (drop_group id)) in
    let (ran, e) = transaction_done what (and_then (exec what (drop_domains id)) rest) db done in
    let (one, ran', e') = and_then_done (exec what (drop_domains id)) rest (left db) ran in
    let first = exec_done what (drop_domains id) (left db) one in
    let after = drop_domains id (left (left db)) in
    let (two, three, e'') =
      and_then_done (exec what (drop_boxes id)) (exec what (drop_group id)) after
        (rw first at ran') in
    let second = exec_done what (drop_boxes id) after two in
    let third = exec_done what (drop_group id) (drop_boxes id (left after)) (rw second at three) in
    e
    ∙ ap left (
        e'
        ∙ ap (λ d. (rest d).0) first
        ∙ e''
        ∙ ap (λ d. (exec what (drop_group id) d).0) second
        ∙ third)

-- A deletion that succeeds removes the group, its domains and its assignments, and keeps the
-- domains and the assignments of other groups.
pub deleted_group_is_gone :
    (id : Str) (db : Database) (a c : Str)
    → (delete_allowlist_group id db).1 ≡ none
    → (select id (delete_allowlist_group id db).0.groups ≡ none)
      × (In (a, c) (delete_allowlist_group id db).0.box_groups
          ↔ (In (a, c) db.box_groups × (c ≢ id)))
      × (In (a, c) (delete_allowlist_group id db).0.group_domains
          ↔ (In (a, c) db.group_domains × (a ≢ id)))
deleted_group_is_gone id db a c done = rw (delete_runs id db done) (
  removed id id db.groups,
  In-delete_second id a c db.box_groups,
  In-delete_first id a c db.group_domains,
)

abbrev domain_row : Str → Str → Database → Database
domain_row id domain d = record d { group_domains = insert_new (id, domain) d.group_domains }

-- The loop over the domains adds them to the group's, and touches nothing else.
insert_domains_lem :
    (id : Str) (domains : List Str) (db : Database) (a c : Str)
    → (insert_domains id domains db).1 ≡ none
    → (In (a, c) (insert_domains id domains db).0.group_domains
        ↔ (In (a, c) db.group_domains ⊎ ((a ≡ id) × In c domains)))
      × ((insert_domains id domains db).0.groups ≡ db.groups)
unfolding insert_domains
insert_domains_lem id [] db a c done = ground arith
insert_domains_lem id (domain ∷ domains) db a c done =
    let one_row = exec (codes "saving allowlist group domain") (domain_row id domain) in
    let (one, rest, e) = and_then_done one_row (insert_domains id domains) db done in
    let step = exec_done (codes "saving allowlist group domain") (domain_row id domain) db one in
    let ((into, back), kept) = insert_domains_lem id domains (one_row db).0 a c rest in
    let (to, from) = In-insert_new (a, c) (id, domain) db.group_domains in
    rw e (
      (
        λ i. elim (into i) [
          | inl j ↦ elim (to (rw step at j)) [
            | inl old ↦ inl old
            | inr new ↦
                inr (sym (ap (λ (p : Str × Str). p.0) new), inl (ap (λ (p : Str × Str). p.1) new))
          ]
          | inr (same, j) ↦ inr (same, inr j)
        ],
        λ i. elim i [
          | inl old ↦ back (inl (rw step (from (inl old))))
          | inr (same, inl new) ↦ back (inl (rw step (from (inr (both same new)))))
          | inr (same, inr j) ↦ back (inr (same, j))
        ],
      ),
      kept ∙ ap (λ (d : Database). d.groups) step,
    )
  where
    both : a ≡ id → domain ≡ c → ◌≡◌ {A = Str × Str} (id, domain) (a, c)
    both same new = rw (same, new) refl

abbrev stored_row : AllowlistGroup → Database → GroupRow
stored_row g d = row_of g (kept_created_at g (select g.id d.groups))

abbrev put_row : AllowlistGroup → Database → Database
put_row g d = record d { groups = upsert g.id (stored_row g d) d.groups }

upsert_group_done :
    (g : AllowlistGroup) (db : Database)
    → (upsert_group g db).1 ≡ none
    → (name_taken g.id g.name db.groups.rows ≡ false)
      × ((upsert_group g db).0 ≡ put_row g (left db))
unfolding upsert_group
upsert_group_done g db done = elim (Bool-cases (name_taken g.id g.name db.groups.rows)) [
  | inl taken ↦ cc (rw (taken, upsert_group) at done)
  | inr free ↦ (
    free,
    rw (free, upsert_group)
        (exec_done (codes "saving allowlist group") (put_row g) db
          (rw (free, upsert_group) at done)),
  )
]

-- A save that succeeds had a name that no other group has, stores the group under its ID with the
-- creation time of the row that was there before, if any, and makes its domains exactly the given
-- ones, leaving those of other groups.
pub save_allowlist_group_lem :
    (g : AllowlistGroup) (db : Database) (a c : Str)
    → (save_allowlist_group g db).1 ≡ none
    → (name_taken g.id g.name db.groups.rows ≡ false)
      × (select g.id (save_allowlist_group g db).0.groups
          ≡ some (row_of g (kept_created_at g (select g.id db.groups))))
      × (In (a, c) (save_allowlist_group g db).0.group_domains
          ↔ ((In (a, c) db.group_domains × (a ≢ g.id)) ⊎ ((a ≡ g.id) × In c g.domains)))
unfolding save_allowlist_group
save_allowlist_group_lem g db a c done =
    let clear = exec (codes "clearing allowlist group domains") (drop_domains g.id) in
    let rest = and_then clear (insert_domains g.id g.domains) in
    let (ran, e) =
      transaction_done (codes "saving allowlist group") (and_then (upsert_group g) rest) db done in
    let (one, ran', e') = and_then_done (upsert_group g) rest (left db) ran in
    let (free, first) = upsert_group_done g (left db) one in
    let named = put_row g (left (left db)) in
    let (two, three, e'') =
      and_then_done clear (insert_domains g.id g.domains) named (rw first at ran') in
    let second =
      exec_done (codes "clearing allowlist group domains") (drop_domains g.id) named two in
    let ((into, back), kept) = insert_domains_lem g.id g.domains (clear named).0 a c three in
    let (down, up) = In-delete_first g.id a c db.group_domains in
    let whole : (save_allowlist_group g db).0
        ≡ left (insert_domains g.id g.domains (clear named).0).0 =
      e ∙ ap left (e' ∙ ap (λ d. (rest d).0) first ∙ e'') in
    rw whole (
      free,
      ap (select g.id) (kept ∙ ap (λ (d : Database). d.groups) second)
          ∙ upserted g.id g.id db.groups (stored_row g db),
      (
        λ i. elim (into i) [ inl j ↦ inl (down (rw second at j)) | inr p ↦ inr p ],
        λ i. back (elim i [ inl p ↦ inl (rw second (up p)) | inr p ↦ inr p ]),
      ),
    )
