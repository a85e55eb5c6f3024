-- ===== src/HubStore/Examples.antt =====
-- The transactions on groups and assignments at concrete tables.
use llmbox.Prelude.{
  ◌≡◌, ◌≢◌, ◌↔◌, ◌⊎◌, refl, false, none, some, [], ◌∷◌, pos, Str, codes, str_eq, str_beq, get, put,
  del, keep, contains, sort, str_le, In, List, IsSorted,
}
use llmbox.HubStore.Rows
use llmbox.HubStore.Rows.{empty, select}
use llmbox.HubStore.Database
use llmbox.HubStore.Database.{Database, AllowlistGroup}
use llmbox.HubStore.Allowlists
use llmbox.HubStore.Allowlists.{
  set_box_groups, get_box_groups, delete_allowlist_group, save_allowlist_group, name_taken, row_of,
  kept_created_at,
}
use llmbox.HubStore.Allowlists.Reading
use llmbox.HubStore.Allowlists.Reading.{
  group_of, stored_group, get_allowlist_group, list_allowlist_groups, or_nil, list_box_groups,
}
use llmbox.HubStore.Allowlists.Reading.Fetched.{save_then_get}
use llmbox.HubStore.Allowlists.Reading.Grouping.{list_box_groups_lem}
use llmbox.HubStore.Allowlists.Saving.{deleted_group_is_gone, save_allowlist_group_lem}

abbrev blank : Database
blank = record {
  faults = [];
  join_tokens = empty;
  spokes = empty;
  api_keys = empty;
  groups = empty;
  group_domains = [];
  box_groups = [];
}

abbrev go : Str
go = codes "go"

abbrev web : Str
web = codes "web"

abbrev go_group : AllowlistGroup
go_group = record {
  id = go;
  name = codes "Go";
  description = [];
  ttl_seconds = pos 0;
  is_global = false;
  domains = codes "proxy.golang.org" ∷ codes "*.github.com" ∷ [];
  created_at = pos 5;
  updated_at = pos 5;
}

abbrev saved : Database
saved = (save_allowlist_group go_group blank).0

abbrev assigned : Database
assigned = (set_box_groups web (go ∷ go ∷ []) saved).0

-- What the examples compute with.
computing : Unit {0}
unfolding set_box_groups get_box_groups delete_allowlist_group save_allowlist_group name_taken
    Allowlists.and_then Allowlists.transaction Allowlists.insert_new Allowlists.delete_first
    Allowlists.delete_second Allowlists.seconds_of Allowlists.assign_all Allowlists.insert_domains
    Allowlists.upsert_group Database.exec Database.statement Rows.select Rows.upsert Rows.remove
    Reading.get_allowlist_group Reading.domains_for Reading.list_allowlist_groups
    Reading.attach_domains Reading.list_box_groups Reading.gather Reading.assignment_le str_beq get
    put del keep contains sort str_le
computing = tt

save_allowlist_group_lem_example :
    (name_taken go (codes "Go") blank.groups.rows ≡ false)
    × (select go saved.groups ≡ some (row_of go_group (kept_created_at go_group none)))
    × (In (go, codes "*.github.com") saved.group_domains ↔ (
        (In (go, codes "*.github.com") blank.group_domains × (go ≢ go))
        ⊎ ((go ≡ go) × In (codes "*.github.com") go_group.domains)))
unfolding computing
save_allowlist_group_lem_example =
    save_allowlist_group_lem go_group blank go (codes "*.github.com") refl

deleted_group_is_gone_example :
    (select go (delete_allowlist_group go assigned).0.groups ≡ none)
    × (In (web, go) (delete_allowlist_group go assigned).0.box_groups
        ↔ (In (web, go) assigned.box_groups × (go ≢ go)))
    × (In (web, go) (delete_allowlist_group go assigned).0.group_domains
        ↔ (In (web, go) assigned.group_domains × (web ≢ go)))
unfolding computing
deleted_group_is_gone_example = deleted_group_is_gone go assigned web go refl

abbrev sorted_domains : List Str
sorted_domains = codes "*.github.com" ∷ codes "proxy.golang.org" ∷ []

abbrev read_back : AllowlistGroup
read_back = group_of go (row_of go_group (kept_created_at go_group none)) sorted_domains

save_then_get_example :
    (domains : List Str) × (some read_back
      ≡ some (group_of go (row_of go_group (kept_created_at go_group none)) domains))
    × IsSorted str_le domains
    × (In (codes "*.github.com") domains ↔ In (codes "*.github.com") go_group.domains)
unfolding computing
save_then_get_example =
    save_then_get go_group blank (some read_back) (codes "*.github.com") refl refl

list_box_groups_lem_example : or_nil (get web ((web, go ∷ []) ∷ [])) ≡ go ∷ []
unfolding computing
list_box_groups_lem_example =
    list_box_groups_lem web assigned ((web, go ∷ []) ∷ []) (go ∷ []) refl refl
