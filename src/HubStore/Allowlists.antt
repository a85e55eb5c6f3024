-- ===== src/HubStore/Allowlists.antt =====
-- internal/hub/store/allowlist_store.go: groups of domains and their assignment to boxes. A method
-- with several statements is a transaction, of which a failure leaves nothing.
pub mod Assigning
pub mod Saving
pub mod Reading
use llmbox.Prelude.{
  ℕ, Bool, true, false, not, Option, none, some, List, [], ◌∷◌, ◌++◌, ◌||◌, ◌&&◌, ℤ, map,
  if◌then◌else◌, Str, codes, str_eq, str_le, ◌==◌, pair_eq, Table, filter, contains, sort, Result,
  ok, failed,
}
use llmbox.Netfw.Firewall.{Error}
use llmbox.HubStore.Rows.{Rows, select, upsert, remove}
use llmbox.HubStore.Database.{Database, AllowlistGroup, GroupRow, exec, statement, left}

abbrev pub Action : Type 0
Action = Database → Database × Error

unfoldable pub and_then : Action → Action → Action
and_then f g db =
    let called = f db in let rest = g called.0 in elim called.1 [ none ↦ rest | some e ↦ called ]

abbrev pub unchanged : Database → Database
unchanged db = db

-- `Begin`, the body and `Commit`.
abbrev pub bracketed : Str → Action → Action
bracketed what body =
    and_then (exec (codes "begin " ++ what) unchanged)
      (and_then body (exec (codes "commit " ++ what) unchanged))

-- On an error everything is rolled back.
unfoldable pub transaction : Str → Action → Action
transaction what body db =
    let done = bracketed what body db in
    elim done.1 [ none ↦ done | some e ↦ (record db { faults = done.0.faults }, some e) ]

-- `INSERT OR IGNORE` into a table of pairs, and the two ways to delete from it.
unfoldable pub insert_new : Str × Str → List (Str × Str) → List (Str × Str)
insert_new p ps = if contains ps p then ps else ps ++ p ∷ []

unfoldable pub delete_first : Str → List (Str × Str) → List (Str × Str)
delete_first a = filter (λ p. not (p.0 == a))

unfoldable pub delete_second : Str → List (Str × Str) → List (Str × Str)
delete_second b = filter (λ p. not (p.1 == b))

-- The second components of the pairs with a first one, in the table's order.
unfoldable pub seconds_of : Str → List (Str × Str) → List Str
seconds_of a [] = []
seconds_of a ((b, c) ∷ ps) = if b == a then c ∷ seconds_of a ps else seconds_of a ps

-- The loop of `SetBoxGroups`.
unfoldable pub assign_all : Str → List Str → Action
unfolding and_then
assign_all box [] db = (db, none)
assign_all box (id ∷ ids) db =
    and_then
      (exec (codes "assigning box group")
        (λ d. record d { box_groups = insert_new (box, id) d.box_groups }))
      (assign_all box ids) db

-- `SetBoxGroups`.
unfoldable pub set_box_groups : Str → List Str → Action
unfolding transaction assign_all
set_box_groups box ids = transaction (codes "setting box groups") (
    and_then
      (exec (codes "clearing box groups")
        (λ d. record d { box_groups = delete_first box d.box_groups }))
      (assign_all box ids))

-- `GetBoxGroups`, ordered by the group.
unfoldable pub get_box_groups : Str → Database → Database × Result Str (List Str)
unfolding statement
get_box_groups box =
    statement (codes "reading box groups") (λ db. (db, sort str_le (seconds_of box db.box_groups)))

-- `DeleteAllowlistGroup`.
unfoldable pub delete_allowlist_group : Str → Action
unfolding transaction
delete_allowlist_group id = transaction (codes "deleting allowlist group") (
    and_then
      (exec (codes "deleting allowlist group")
        (λ d. record d { group_domains = delete_first id d.group_domains }))
      (and_then
        (exec (codes "deleting allowlist group")
          (λ d. record d { box_groups = delete_second id d.box_groups }))
        (exec (codes "deleting allowlist group") (λ d. record d { groups = remove id d.groups }))))

-- Whether another row has the name, which the schema makes unique.
unfoldable pub name_taken : Str → Str → Table Str GroupRow → Bool
name_taken id name [] = false
name_taken id name ((k, row) ∷ rows) =
    (not (k == id) && row.name == name) || name_taken id name rows

abbrev pub row_of : AllowlistGroup → ℤ → GroupRow
row_of g created_at = record {
  name = g.name;
  description = g.description;
  ttl_seconds = g.ttl_seconds;
  is_global = g.is_global;
  created_at = created_at;
  updated_at = g.updated_at;
}

-- The upsert of `SaveAllowlistGroup`: an existing row keeps its creation time.
abbrev pub kept_created_at : AllowlistGroup → Option GroupRow → ℤ
kept_created_at g none = g.created_at
kept_created_at g (some row) = row.created_at

unfoldable pub upsert_group : AllowlistGroup → Action
upsert_group g db =
    if name_taken g.id g.name db.groups.rows
    then (left db, some (codes "saving allowlist group: UNIQUE constraint failed"))
    else exec (codes "saving allowlist group")
        (λ d. record d {
          groups = upsert g.id (row_of g (kept_created_at g (select g.id d.groups))) d.groups;
        })
        db

-- The loop over the domains.
unfoldable pub insert_domains : Str → List Str → Action
unfolding and_then
insert_domains id [] db = (db, none)
insert_domains id (domain ∷ domains) db =
    and_then
      (exec (codes "saving allowlist group domain")
        (λ d. record d { group_domains = insert_new (id, domain) d.group_domains }))
      (insert_domains id domains) db

-- `SaveAllowlistGroup`.
unfoldable pub save_allowlist_group : AllowlistGroup → Action
unfolding transaction upsert_group insert_domains
save_allowlist_group g = transaction (codes "saving allowlist group") (
    and_then (upsert_group g) (
      and_then
        (exec (codes "clearing allowlist group domains")
          (λ d. record d { group_domains = delete_first g.id d.group_domains }))
        (insert_domains g.id g.domains)))
