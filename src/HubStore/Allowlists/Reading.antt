-- ===== src/HubStore/Allowlists/Reading.antt =====
-- internal/hub/store/allowlist_store.go: how the groups are read back. A read of a group is several
-- statements outside a transaction.
pub mod Fetched
pub mod Grouping
use llmbox.Prelude.{
  ◌≡◌, ◌≢◌, ◌↔◌, refl, sym, ap, subst, ◌∙◌, ◌⊎◌, inl, inr, Bool, none, some, Option, Option-cases,
  List, [], ◌∷◌, arith, map, Str, codes, str_eq, str_le, str_beq_iff, In, sort, sort-In, IsSorted,
  sort-IsSorted, str_le_total, str_le_trans, Result, ok, failed, Result-cases, ◌++◌, if◌then◌else◌,
  ◌==◌, Table, get, put,
}
use llmbox.Netfw.Firewall.{Error}
use llmbox.HubStore.Rows.{select, select-In}
use llmbox.HubStore.Database.{Database, AllowlistGroup, GroupRow, statement, next_fault, left}
use llmbox.HubStore.Allowlists.{seconds_of, row_of, kept_created_at, save_allowlist_group}
use llmbox.HubStore.Allowlists.Assigning.{In-seconds_of}
use llmbox.HubStore.Allowlists.Saving.{save_allowlist_group_lem}

-- `scanAllowlistGroup`, and the domains that the callers set.
abbrev pub group_of : Str → GroupRow → List Str → AllowlistGroup
group_of id row domains = record {
  id = id;
  name = row.name;
  description = row.description;
  ttl_seconds = row.ttl_seconds;
  is_global = row.is_global;
  domains = domains;
  created_at = row.created_at;
  updated_at = row.updated_at;
}

abbrev pub stored_domains : Str → Database → List Str
stored_domains id db = sort str_le (seconds_of id db.group_domains)

-- `domainsFor`.
unfoldable pub domains_for : Str → Database → Database × Result Str (List Str)
unfolding statement
domains_for id =
    statement (codes "reading allowlist group domains") (λ db. (db, stored_domains id db))

abbrev found_group : Str → GroupRow → Result Str (List Str) → Result Str (Option AllowlistGroup)
found_group id row (ok domains) = ok (some (group_of id row domains))
found_group id row (failed e) = failed e

abbrev pub with_domains :
    Str → Database → Result Str (Option GroupRow) → Database × Result Str (Option AllowlistGroup)
with_domains id db (failed e) = (db, failed e)
with_domains id db (ok none) = (db, ok none)
with_domains id db (ok (some row)) =
    let read = domains_for id db in (read.0, found_group id row read.1)

-- `GetAllowlistGroup`.
unfoldable pub get_allowlist_group : Str → Database → Database × Result Str (Option AllowlistGroup)
unfolding statement domains_for
get_allowlist_group id db =
    let read = statement (codes "reading allowlist group") (λ d. (d, select id d.groups)) db in
    with_domains id read.0 read.1

abbrev pub and_group :
    AllowlistGroup → Result Str (List AllowlistGroup) → Result Str (List AllowlistGroup)
and_group g (ok gs) = ok (g ∷ gs)
and_group g (failed e) = failed e

-- The loop that attaches the domains.
unfoldable pub attach_domains :
    List (Str × GroupRow) → Database → Database × Result Str (List AllowlistGroup)
unfolding domains_for
attach_domains [] db = (db, ok [])
attach_domains ((id, row) ∷ rows) db =
    let read = domains_for id db in
    let rest = attach_domains rows read.0 in
    elim read.1 [
      | failed e ↦ (read.0, failed e)
      | ok domains ↦ (rest.0, and_group (group_of id row domains) rest.1)
    ]

abbrev pub name_le : Str × GroupRow → Str × GroupRow → Bool
name_le r s = str_le r.1.name s.1.name

-- `ListAllowlistGroups`, ordered by the name.
unfoldable pub list_allowlist_groups : Database → Database × Result Str (List AllowlistGroup)
unfolding statement attach_domains
list_allowlist_groups db =
    let read =
      statement (codes "listing allowlist groups") (λ d. (d, sort name_le d.groups.rows)) db in
    elim read.1 [ failed e ↦ (read.0, failed e) | ok rows ↦ attach_domains rows read.0 ]

-- `ORDER BY box_id, group_id`.
unfoldable pub assignment_le : Str × Str → Str × Str → Bool
assignment_le p q = if p.0 == q.0 then str_le p.1 q.1 else str_le p.0 q.0

-- `m[k]` of a map of slices, which is nil on a missing key.
abbrev pub or_nil : Option (List Str) → List Str
or_nil none = []
or_nil (some xs) = xs

-- The loop of `ListBoxGroups`.
unfoldable pub gather : List (Str × Str) → Table Str (List Str) → Table Str (List Str)
gather [] out = out
gather ((box, id) ∷ ps) out = gather ps (put box (or_nil (get box out) ++ id ∷ []) out)

-- `ListBoxGroups`.
unfoldable pub list_box_groups : Database → Database × Result Str (Table Str (List Str))
unfolding statement gather
list_box_groups db =
    let read =
      statement (codes "listing box groups") (λ d. (d, sort assignment_le d.box_groups)) db in
    elim read.1 [ failed e ↦ (read.0, failed e) | ok ps ↦ (read.0, ok (gather ps [])) ]

abbrev pub whole_group : Str → Database → Option GroupRow → Option AllowlistGroup
whole_group id db none = none
whole_group id db (some row) = some (group_of id row (stored_domains id db))

-- The group that the tables hold under an ID.
abbrev pub stored_group : Str → Database → Option AllowlistGroup
stored_group id db = whole_group id db (select id db.groups)
