-- ===== src/HubStore/Clustering.antt =====
-- The database keeps the contract of the cluster's `Store`.
use llmbox.Prelude.{
  ◌≡◌, ◌≢◌, ◌↔◌, ap, Option, none, some, List, arith, map, Str, str_eq, ok, In, In-map,
}
use llmbox.Cluster.Store.{Store, JoinTokenRecord, JoinTokenInfo, SpokeRecord, info_of}
use llmbox.HubStore.Rows.{
  Rows, select, upserted, upsert_frame, removed, remove_frame, remove_absent, select-In,
}
use llmbox.HubStore.Database.{
  Database, put_join_token, take_join_token, list_join_tokens, delete_join_token, put_spoke,
  get_spoke, delete_spoke, spoke_of,
}

abbrev token : Database → Str → Option JoinTokenRecord
token db hash = select hash db.join_tokens

abbrev spoke : Database → Str → Option SpokeRecord
spoke db name = spoke_of name (select name db.spokes)

row_of : JoinTokenInfo → Str × JoinTokenRecord
row_of info =
    (info.id, record { name = info.name; backend = info.backend; expires_at = info.expires_at })

listed :
    (t : Rows Str JoinTokenRecord) (h : Str) (rec : JoinTokenRecord)
    → (select h t ≡ some rec) ↔ In (info_of h rec) (map (λ row. info_of row.0 row.1) t.rows)
unfolding row_of
listed t h rec =
    let (to, from) = select-In h rec t in
    let (down, up) =
      In-map (λ (row : Str × JoinTokenRecord). info_of row.0 row.1) (h, rec) t.rows
        (λ row e. ap row_of e) in
    (λ found. up (to found), λ i. from (down i))

-- The statements on the join tokens.
module _ (h k : Str) (s : Database) where
  pub put_token_stores :
      (rec : JoinTokenRecord)
      → (put_join_token h rec s).1 ≡ none
      → token (put_join_token h rec s).0 h ≡ some rec
  unfolding put_join_token
  put_token_stores rec done = ground (arith, upserted h k s.join_tokens rec)

  pub put_token_frame :
      (rec : JoinTokenRecord) → k ≢ h → token (put_join_token h rec s).0 k ≡ token s k
  unfolding put_join_token
  put_token_frame rec other = ground (arith, upsert_frame h k s.join_tokens rec other)

  pub put_token_spokes : (rec : JoinTokenRecord) → spoke (put_join_token h rec s).0 k ≡ spoke s k
  unfolding put_join_token
  put_token_spokes rec = ground arith

  pub take_found : (o : Option JoinTokenRecord) → (take_join_token h s).1 ≡ ok o → o ≡ token s h
  unfolding take_join_token
  take_found o e = ground arith

  pub take_removes :
      (o : Option JoinTokenRecord)
      → (take_join_token h s).1 ≡ ok o
      → token (take_join_token h s).0 h ≡ none
  unfolding take_join_token
  take_removes o e = ground (arith, removed h k s.join_tokens)

  pub take_absent : token s k ≡ none → token (take_join_token h s).0 k ≡ none
  unfolding take_join_token
  take_absent absent = ground (arith, remove_absent h k s.join_tokens absent)

  pub take_frame : k ≢ h → token (take_join_token h s).0 k ≡ token s k
  unfolding take_join_token
  take_frame other = ground (arith, remove_frame h k s.join_tokens other)

  pub take_spokes : spoke (take_join_token h s).0 k ≡ spoke s k
  unfolding take_join_token
  take_spokes = ground arith

  pub list_all :
      (infos : List JoinTokenInfo) (rec : JoinTokenRecord)
      → (list_join_tokens s).1 ≡ ok infos
      → (token s h ≡ some rec) ↔ In (info_of h rec) infos
  unfolding list_join_tokens
  list_all infos rec e = ground (arith, listed s.join_tokens h rec)

  pub list_tokens : token (list_join_tokens s).0 h ≡ token s h
  unfolding list_join_tokens
  list_tokens = ground arith

  pub list_spokes : spoke (list_join_tokens s).0 h ≡ spoke s h
  unfolding list_join_tokens
  list_spokes = ground arith

  pub delete_token_removes :
      (delete_join_token h s).1 ≡ none → token (delete_join_token h s).0 h ≡ none
  unfolding delete_join_token
  delete_token_removes done = ground (arith, removed h k s.join_tokens)

  pub delete_token_absent : token s k ≡ none → token (delete_join_token h s).0 k ≡ none
  unfolding delete_join_token
  delete_token_absent absent = ground (arith, remove_absent h k s.join_tokens absent)

  pub delete_token_frame : k ≢ h → token (delete_join_token h s).0 k ≡ token s k
  unfolding delete_join_token
  delete_token_frame other = ground (arith, remove_frame h k s.join_tokens other)

  pub delete_token_spokes : spoke (delete_join_token h s).0 k ≡ spoke s k
  unfolding delete_join_token
  delete_token_spokes = ground arith

-- The statements on the spokes.
module _ (n m : Str) (s : Database) where
  pub put_spoke_stores :
      (rec : SpokeRecord)
      → (put_spoke rec.name rec s).1 ≡ none
      → spoke (put_spoke rec.name rec s).0 rec.name ≡ some rec
  unfolding put_spoke
  put_spoke_stores rec done =
      ground (arith, upserted rec.name m s.spokes (rec.credential_hash, rec.enrolled_at))

  pub put_spoke_frame : (rec : SpokeRecord) → m ≢ n → spoke (put_spoke n rec s).0 m ≡ spoke s m
  unfolding put_spoke
  put_spoke_frame rec other =
      ground (arith, upsert_frame n m s.spokes (rec.credential_hash, rec.enrolled_at) other)

  pub put_spoke_tokens : (rec : SpokeRecord) → token (put_spoke n rec s).0 m ≡ token s m
  unfolding put_spoke
  put_spoke_tokens rec = ground arith

  pub get_spoke_found : (o : Option SpokeRecord) → (get_spoke n s).1 ≡ ok o → o ≡ spoke s n
  unfolding get_spoke
  get_spoke_found o e = ground arith

  pub get_spoke_tokens : token (get_spoke n s).0 m ≡ token s m
  unfolding get_spoke
  get_spoke_tokens = ground arith

  pub get_spoke_spokes : spoke (get_spoke n s).0 m ≡ spoke s m
  unfolding get_spoke
  get_spoke_spokes = ground arith

  pub delete_spoke_removes : (delete_spoke n s).1 ≡ none → spoke (delete_spoke n s).0 n ≡ none
  unfolding delete_spoke
  delete_spoke_removes done = ground (arith, removed n m s.spokes)

  pub delete_spoke_frame : m ≢ n → spoke (delete_spoke n s).0 m ≡ spoke s m
  unfolding delete_spoke
  delete_spoke_frame other = ground (arith, remove_frame n m s.spokes other)

  pub delete_spoke_tokens : token (delete_spoke n s).0 m ≡ token s m
  unfolding delete_spoke
  delete_spoke_tokens = ground arith

abbrev pub sqlite : Store
sqlite = record {
  State = Database;
  put_join_token = put_join_token;
  take_join_token = take_join_token;
  list_join_tokens = list_join_tokens;
  delete_join_token = delete_join_token;
  put_spoke = put_spoke;
  get_spoke = get_spoke;
  delete_spoke = delete_spoke;
  token = token;
  spoke = spoke;
  put_join_token_stores = λ h rec s. put_token_stores h h s rec;
  put_join_token_frame = λ h k rec s. put_token_frame h k s rec;
  put_join_token_spokes = λ h n rec s. put_token_spokes h n s rec;
  take_join_token_found = λ h s. take_found h h s;
  take_join_token_removes = λ h s. take_removes h h s;
  take_join_token_absent = take_absent;
  take_join_token_frame = take_frame;
  take_join_token_spokes = take_spokes;
  list_join_tokens_all = λ s infos h rec. list_all h h s infos rec;
  list_join_tokens_tokens = λ h s. list_tokens h h s;
  list_join_tokens_spokes = λ n s. list_spokes n n s;
  delete_join_token_removes = λ h s. delete_token_removes h h s;
  delete_join_token_absent = delete_token_absent;
  delete_join_token_frame = delete_token_frame;
  delete_join_token_spokes = delete_token_spokes;
  put_spoke_stores = λ rec s. put_spoke_stores rec.name rec.name s rec;
  put_spoke_frame = λ n m rec s. put_spoke_frame n m s rec;
  put_spoke_tokens = λ n h rec s. put_spoke_tokens n h s rec;
  get_spoke_found = λ n s. get_spoke_found n n s;
  get_spoke_tokens = get_spoke_tokens;
  get_spoke_spokes = get_spoke_spokes;
  delete_spoke_removes = λ n s. delete_spoke_removes n n s;
  delete_spoke_frame = delete_spoke_frame;
  delete_spoke_tokens = delete_spoke_tokens;
}
