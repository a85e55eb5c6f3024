-- ===== src/Hub/ApiKeys.antt =====
-- internal/hub/apikey/apikey.go: minting and verifying the keys of the box-control API.
use llmbox.Prelude.{
  ℕ, ◌≡◌, ◌≢◌, ◌↔◌, inl, inr, false, not, Option, none, some, List, [], ◌++◌, arith, ℤ, pos, ◌+ℤ◌,
  after, if◌then◌else◌, Str, codes, str_eq, str_beq_iff, ◌==◌, Result, ok, failed, Result-cases,
  Option-cases,
}
use llmbox.Cluster.Secrets.{hex, hash_secret}
use llmbox.HubStore.Rows.{select, removed, upserted}
use llmbox.HubStore.Database.{
  Database, ApiKeyRecord, put_api_key, get_api_key, delete_api_key, next_fault,
}

module _ (sum256 : Str → List ℕ) where
  -- `Create`, once the secret is drawn.
  store_api_key : Str → ApiKeyRecord → Database → Database × Result Str Str
  store_api_key secret rec db =
      let called = put_api_key (hash_secret sum256 secret) rec db in
      elim called.1 [
        | none ↦ (called.0, ok secret)
        | some e ↦ (called.0, failed (codes "storing api key: " ++ e))
      ]

  -- `Create`.
  unfoldable pub create : Str → ℤ → ℤ → Result Str (List ℕ) → Database → Database × Result Str Str
  unfolding store_api_key
  create name ttl now random db =
      let rec : ApiKeyRecord = record { name = name; created_at = now; expires_at = now +ℤ ttl } in
      if name == []
      then (db, failed (codes "api key name is required"))
      else if not (after ttl (pos 0))
      then (db, failed (codes "api key ttl must be positive"))
      else elim random [
        | failed e ↦ (db, failed (codes "generating api key: " ++ e))
        | ok bytes ↦ store_api_key (codes "lbx_" ++ hex bytes) rec db
      ]

  unexpired : ℤ → Option ApiKeyRecord → Option ApiKeyRecord
  unexpired now none = none
  unexpired now (some rec) = if after now rec.expires_at then none else some rec

  checked : ℤ → Result Str (Option ApiKeyRecord) → Result Str (Option ApiKeyRecord)
  unfolding unexpired
  checked now (failed e) = failed e
  checked now (ok found) = ok (unexpired now found)

  -- `Authenticate`.
  unfoldable pub authenticate : Str → ℤ → Database → Database × Result Str (Option ApiKeyRecord)
  unfolding checked
  authenticate secret now db =
      let called = get_api_key (hash_secret sum256 secret) db in
      if secret == [] then (db, ok none) else (called.0, checked now called.1)

  module _ (secret : Str) (now : ℤ) (db : Database) where
    abbrev row : Option ApiKeyRecord
    row = select (hash_secret sum256 secret) db.api_keys

    -- While the database answers, a presented secret authenticates as a key exactly when it is
    -- not empty, the key is stored under its hash, and the key's expiry is not past.
    pub authenticate_iff :
        (rec : ApiKeyRecord)
        → next_fault db.faults ≡ none
        → ((authenticate secret now db).1 ≡ ok (some rec))
          ↔ ((secret ≢ []) × (row ≡ some rec) × (after now rec.expires_at ≡ false))
    unfolding authenticate get_api_key
    authenticate_iff rec fine = elim (Option-cases row) [
      | inl unknown ↦ ground (arith, str_beq_iff secret [])
      | inr (r, known) ↦ ground (arith, str_beq_iff secret [])
    ]

  module _ (name : Str) (ttl now : ℤ) (random : Result Str (List ℕ)) (db : Database)
      (secret : Str) where
    abbrev created : Database × Result Str Str
    created = create name ttl now random db

    abbrev key_record : ApiKeyRecord
    key_record = record { name = name; created_at = now; expires_at = now +ℤ ttl }

    create-stored :
        created.1 ≡ ok secret
        → (secret ≢ []) × (select (hash_secret sum256 secret) created.0.api_keys ≡ some key_record)
    unfolding create put_api_key
    create-stored minted = elim (Result-cases random) [
      | inr (e, no_random) ↦ ground arith
      | inl (bytes, drawn) ↦
          let key = codes "lbx_" ++ hex bytes in
          ground (
            arith,
            upserted (hash_secret sum256 key) (hash_secret sum256 key) db.api_keys key_record,
          )
    ]

    -- The secret of a key that was just minted authenticates as that key up to and at its
    -- expiry, while the database answers.
    api_key_round_trip :
        (later : ℤ)
        → created.1 ≡ ok secret
        → after later (now +ℤ ttl) ≡ false
        → next_fault created.0.faults ≡ none
        → (authenticate secret later created.0).1 ≡ ok (some key_record)
    api_key_round_trip later minted in_time fine =
        let (nonempty, stored) = create-stored minted in
        (authenticate_iff secret later created.0 key_record fine).1 (nonempty, stored, in_time)

  -- After a successful deletion of the key with its hash, a secret authenticates as no key, while
  -- the database answers.
  deleted_key_is_refused :
      (secret : Str) (now : ℤ) (db : Database)
      → (delete_api_key (hash_secret sum256 secret) db).1 ≡ none
      → next_fault (delete_api_key (hash_secret sum256 secret) db).0.faults ≡ none
      → (authenticate secret now (delete_api_key (hash_secret sum256 secret) db).0).1 ≡ ok none
  unfolding delete_api_key authenticate get_api_key
  deleted_key_is_refused secret now db done fine =
      ground (arith, removed (hash_secret sum256 secret) (hash_secret sum256 secret) db.api_keys)
