-- ===== src/Cluster/Store.antt =====
-- internal/shared/cluster/tokens.go, `Store` and its records: what enrollment asks of the hub's
-- database.
use llmbox.Prelude.{◌≡◌, ◌≢◌, ◌↔◌, Option, none, some, List, ℤ, Str, Result, ok, In}
use llmbox.Netfw.Firewall.{Error}

pub record JoinTokenRecord : Type 0 where
  pub name : Str
  pub backend : Str
  pub expires_at : ℤ

pub record JoinTokenInfo : Type 0 where
  pub id : Str
  pub name : Str
  pub backend : Str
  pub expires_at : ℤ

pub record SpokeRecord : Type 0 where
  pub name : Str
  pub credential_hash : Str
  pub enrolled_at : ℤ

-- How a stored token is listed.
abbrev pub info_of : Str → JoinTokenRecord → JoinTokenInfo
info_of id rec = record {
  id = id;
  name = rec.name;
  backend = rec.backend;
  expires_at = rec.expires_at;
}

-- The operations, with `token` and `spoke` for what the database holds. An operation that succeeds
-- does what its comment says; one that fails may have touched its own row, but no other, and a
-- read changes nothing.
pub record Store : Type 1 where
  pub State : Type 0
  pub put_join_token : Str → JoinTokenRecord → State → State × Error
  pub take_join_token : Str → State → State × Result Str (Option JoinTokenRecord)
  pub list_join_tokens : State → State × Result Str (List JoinTokenInfo)
  pub delete_join_token : Str → State → State × Error
  pub put_spoke : Str → SpokeRecord → State → State × Error
  pub get_spoke : Str → State → State × Result Str (Option SpokeRecord)
  pub delete_spoke : Str → State → State × Error
  pub token : State → Str → Option JoinTokenRecord
  pub spoke : State → Str → Option SpokeRecord
  pub put_join_token_stores :
      (h : Str) (rec : JoinTokenRecord) (s : State)
      → (put_join_token h rec s).1 ≡ none
      → token (put_join_token h rec s).0 h ≡ some rec
  pub put_join_token_frame :
      (h k : Str) (rec : JoinTokenRecord) (s : State)
      → k ≢ h
      → token (put_join_token h rec s).0 k ≡ token s k
  pub put_join_token_spokes :
      (h n : Str) (rec : JoinTokenRecord) (s : State)
      → spoke (put_join_token h rec s).0 n ≡ spoke s n
  pub take_join_token_found :
      (h : Str) (s : State) (o : Option JoinTokenRecord)
      → (take_join_token h s).1 ≡ ok o
      → o ≡ token s h
  pub take_join_token_removes :
      (h : Str) (s : State) (o : Option JoinTokenRecord)
      → (take_join_token h s).1 ≡ ok o
      → token (take_join_token h s).0 h ≡ none
  pub take_join_token_absent :
      (h k : Str) (s : State) → token s k ≡ none → token (take_join_token h s).0 k ≡ none
  pub take_join_token_frame :
      (h k : Str) (s : State) → k ≢ h → token (take_join_token h s).0 k ≡ token s k
  pub take_join_token_spokes : (h n : Str) (s : State) → spoke (take_join_token h s).0 n ≡ spoke s n
  pub list_join_tokens_all :
      (s : State) (infos : List JoinTokenInfo) (h : Str) (rec : JoinTokenRecord)
      → (list_join_tokens s).1 ≡ ok infos
      → (token s h ≡ some rec) ↔ In (info_of h rec) infos
  pub list_join_tokens_tokens : (h : Str) (s : State) → token (list_join_tokens s).0 h ≡ token s h
  pub list_join_tokens_spokes : (n : Str) (s : State) → spoke (list_join_tokens s).0 n ≡ spoke s n
  pub delete_join_token_removes :
      (h : Str) (s : State)
      → (delete_join_token h s).1 ≡ none
      → token (delete_join_token h s).0 h ≡ none
  pub delete_join_token_absent :
      (h k : Str) (s : State) → token s k ≡ none → token (delete_join_token h s).0 k ≡ none
  pub delete_join_token_frame :
      (h k : Str) (s : State) → k ≢ h → token (delete_join_token h s).0 k ≡ token s k
  pub delete_join_token_spokes :
      (h n : Str) (s : State) → spoke (delete_join_token h s).0 n ≡ spoke s n
  pub put_spoke_stores :
      (rec : SpokeRecord) (s : State)
      → (put_spoke rec.name rec s).1 ≡ none
      → spoke (put_spoke rec.name rec s).0 rec.name ≡ some rec
  pub put_spoke_frame :
      (n m : Str) (rec : SpokeRecord) (s : State)
      → m ≢ n
      → spoke (put_spoke n rec s).0 m ≡ spoke s m
  pub put_spoke_tokens :
      (n h : Str) (rec : SpokeRecord) (s : State) → token (put_spoke n rec s).0 h ≡ token s h
  pub get_spoke_found :
      (n : Str) (s : State) (o : Option SpokeRecord) → (get_spoke n s).1 ≡ ok o → o ≡ spoke s n
  pub get_spoke_tokens : (n h : Str) (s : State) → token (get_spoke n s).0 h ≡ token s h
  pub get_spoke_spokes : (n m : Str) (s : State) → spoke (get_spoke n s).0 m ≡ spoke s m
  pub delete_spoke_removes :
      (n : Str) (s : State) → (delete_spoke n s).1 ≡ none → spoke (delete_spoke n s).0 n ≡ none
  pub delete_spoke_frame :
      (n m : Str) (s : State) → m ≢ n → spoke (delete_spoke n s).0 m ≡ spoke s m
  pub delete_spoke_tokens : (n h : Str) (s : State) → token (delete_spoke n s).0 h ≡ token s h
