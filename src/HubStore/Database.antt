-- ===== src/HubStore/Database.antt =====
-- internal/hub/store/sqlite.go: the tables, and the statements that each method runs. The driver
-- may fail any statement, which then changes nothing: `faults` says how the next ones end, and
-- how the decoding of a token ends that was taken.
use llmbox.Prelude.{
  Bool, Option, none, some, List, [], ◌∷◌, ◌++◌, map, ℤ, Str, codes, str_eq, Result, ok, failed,
}
use llmbox.Netfw.Firewall.{Error}
use llmbox.Cluster.Store.{JoinTokenRecord, JoinTokenInfo, SpokeRecord, info_of}
use llmbox.HubStore.Rows.{Rows, select, upsert, remove}

-- `APIKeyRecord`.
pub record ApiKeyRecord : Type 0 where
  pub name : Str
  pub created_at : ℤ
  pub expires_at : ℤ

-- `AllowlistGroup`.
pub record AllowlistGroup : Type 0 where
  pub id : Str
  pub name : Str
  pub description : Str
  pub ttl_seconds : ℤ
  pub is_global : Bool
  pub domains : List Str
  pub created_at : ℤ
  pub updated_at : ℤ

-- A row of the table `allowlist_groups`, which is keyed by the ID.
pub record GroupRow : Type 0 where
  pub name : Str
  pub description : Str
  pub ttl_seconds : ℤ
  pub is_global : Bool
  pub created_at : ℤ
  pub updated_at : ℤ

-- The tables. The last two hold pairs of a group and a domain, and of a box and a group.
pub record Database : Type 0 where
  pub faults : List Error
  pub join_tokens : Rows Str JoinTokenRecord
  pub spokes : Rows Str (Str × ℤ)
  pub api_keys : Rows Str ApiKeyRecord
  pub groups : Rows Str GroupRow
  pub group_domains : List (Str × Str)
  pub box_groups : List (Str × Str)

abbrev pub next_fault : List Error → Error
next_fault [] = none
next_fault (e ∷ _) = e

abbrev other_faults : List Error → List Error
other_faults [] = []
other_faults (_ ∷ es) = es

-- The database after a statement that the driver fails.
abbrev pub left : Database → Database
left db = record db { faults = other_faults db.faults }

-- A statement, which changes the tables and returns rows, with `fmt.Errorf("…: %w")`.
unfoldable pub statement :
    {A : Type 0} → Str → (Database → Database × A) → Database → Database × Result Str A
statement what run db =
    let done = run (left db) in
    elim (next_fault db.faults) [
      | some e ↦ (left db, failed (what ++ codes ": " ++ e))
      | none ↦ (done.0, ok done.1)
    ]

unfoldable pub exec : Str → (Database → Database) → Database → Database × Error
exec what run db = elim (next_fault db.faults) [
  | some e ↦ (left db, some (what ++ codes ": " ++ e))
  | none ↦ (run (left db), none)
]

unfoldable pub put_join_token : Str → JoinTokenRecord → Database → Database × Error
unfolding exec
put_join_token hash rec =
    exec (codes "saving join token")
      (λ db. record db { join_tokens = upsert hash rec db.join_tokens })

abbrev taken : Str → Database → Database × Result Str (Option JoinTokenRecord)
unfolding statement
taken hash =
    statement (codes "taking join token")
      (λ db. (record db { join_tokens = remove hash db.join_tokens }, select hash db.join_tokens))

-- The row's expiry is decoded after the row is gone, and that may fail too.
abbrev decoded :
    Database × Result Str (Option JoinTokenRecord) → Database × Result Str (Option JoinTokenRecord)
decoded (db, failed e) = (db, failed e)
decoded (db, ok none) = (db, ok none)
decoded (db, ok (some rec)) = elim (next_fault db.faults) [
  | some e ↦ (left db, failed e)
  | none ↦ (left db, ok (some rec))
]

unfoldable pub take_join_token : Str → Database → Database × Result Str (Option JoinTokenRecord)
unfolding statement
take_join_token hash db = decoded (taken hash db)

unfoldable pub list_join_tokens : Database → Database × Result Str (List JoinTokenInfo)
unfolding statement
list_join_tokens =
    statement (codes "listing join tokens")
      (λ db. (db, map (λ row. info_of row.0 row.1) db.join_tokens.rows))

unfoldable pub delete_join_token : Str → Database → Database × Error
unfolding exec
delete_join_token hash =
    exec (codes "deleting join token")
      (λ db. record db { join_tokens = remove hash db.join_tokens })

-- The row's key is the argument, whatever name the record has.
unfoldable pub put_spoke : Str → SpokeRecord → Database → Database × Error
unfolding exec
put_spoke name rec =
    exec (codes "saving spoke")
      (λ db. record db { spokes = upsert name (rec.credential_hash, rec.enrolled_at) db.spokes })

abbrev pub spoke_of : Str → Option (Str × ℤ) → Option SpokeRecord
spoke_of name none = none
spoke_of name (some (hash, at)) =
    some (record { name = name; credential_hash = hash; enrolled_at = at })

unfoldable pub get_spoke : Str → Database → Database × Result Str (Option SpokeRecord)
unfolding statement
get_spoke name =
    statement (codes "reading spoke") (λ db. (db, spoke_of name (select name db.spokes)))

unfoldable pub delete_spoke : Str → Database → Database × Error
unfolding exec
delete_spoke name =
    exec (codes "deleting spoke") (λ db. record db { spokes = remove name db.spokes })

unfoldable pub put_api_key : Str → ApiKeyRecord → Database → Database × Error
unfolding exec
put_api_key hash rec =
    exec (codes "saving api key") (λ db. record db { api_keys = upsert hash rec db.api_keys })

unfoldable pub get_api_key : Str → Database → Database × Result Str (Option ApiKeyRecord)
unfolding statement
get_api_key hash = statement (codes "reading api key") (λ db. (db, select hash db.api_keys))

unfoldable pub delete_api_key : Str → Database → Database × Error
unfolding exec
delete_api_key hash =
    exec (codes "deleting api key") (λ db. record db { api_keys = remove hash db.api_keys })
