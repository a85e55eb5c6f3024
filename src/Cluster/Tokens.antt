-- ===== src/Cluster/Tokens.antt =====
-- tokens.go: minting join tokens, and admitting spokes by a token or by a saved credential. What the
-- random source returns and the time are arguments.
pub mod Routes
pub mod Admitting
pub mod Minting
pub mod Spending
use llmbox.Prelude.{
  ℕ, Bool, not, Option, none, some, List, [], ◌++◌, ℤ, pos, ◌+ℤ◌, after, if◌then◌else◌, Str, codes,
  str_eq, ◌==◌, ◌||◌, Result, ok, failed,
}
use llmbox.Cluster.Store.{Store, JoinTokenRecord, SpokeRecord}
use llmbox.Cluster.Secrets.{new_secret, hash_secret, same_hash}

-- `enrollReq`.
pub record EnrollReq : Type 0 where
  pub join_token : Str
  pub name : Str
  pub credential : Str

-- What the text around `errEnrollRejected` tells the hub's log; `bare` has none.
pub data Reason : Type 0 where
  bare : Reason
  token_unknown : Reason
  token_expired : Str → ℤ → Reason
  missing_name_or_credential : Reason
  unknown_spoke : Str → Reason
  credential_mismatch : Str → Reason

-- An error that wraps `errEnrollRejected`, or any other.
pub data EnrollError : Type 0 where
  rejected : Reason → EnrollError
  internal : Str → EnrollError

module _ (sum256 : Str → List ℕ) (S : Store) where
  -- `CreateJoinToken`, once the secret is drawn.
  store_join_token : Str → JoinTokenRecord → S.State → S.State × Result Str Str
  store_join_token secret rec s =
      let called = S.put_join_token (hash_secret sum256 secret) rec s in
      elim called.1 [
        | none ↦ (called.0, ok secret)
        | some e ↦ (called.0, failed (codes "storing join token: " ++ e))
      ]

  -- `CreateJoinToken`.
  unfoldable pub create_join_token :
      Str → Str → ℤ → ℤ → Result Str (List ℕ) → S.State → S.State × Result Str Str
  unfolding store_join_token
  create_join_token name backend ttl now random s =
      let rec : JoinTokenRecord = record {
        name = name;
        backend = backend;
        expires_at = now +ℤ ttl;
      } in
      if name == []
      then (s, failed (codes "spoke name is required"))
      else if not (after ttl (pos 0))
      then (s, failed (codes "join token ttl must be positive"))
      else elim (new_secret random) [
        | failed e ↦ (s, failed (codes "generating join token: " ++ e))
        | ok secret ↦ store_join_token secret rec s
      ]

  abbrev pub Enrollment : Type 0
  Enrollment = S.State × Result EnrollError (Str × Str)

  -- `enrollWithJoinToken`, once the credential is drawn.
  store_spoke : Str → Str → ℤ → S.State → Enrollment
  store_spoke name credential now s =
      let spoke : SpokeRecord = record {
        name = name;
        credential_hash = hash_secret sum256 credential;
        enrolled_at = now;
      } in
      let called = S.put_spoke name spoke s in
      elim called.1 [
        | none ↦ (called.0, ok (name, credential))
        | some e ↦ (called.0, failed (internal (codes "storing spoke: " ++ e)))
      ]

  -- `enrollWithJoinToken`, with the record of the token.
  admit : JoinTokenRecord → ℤ → Result Str (List ℕ) → S.State → Enrollment
  unfolding store_spoke
  admit rec now random s =
      if after now rec.expires_at
      then (s, failed (rejected (token_expired rec.name rec.expires_at)))
      else elim (new_secret random) [
        | failed e ↦ (s, failed (internal (codes "generating spoke credential: " ++ e)))
        | ok credential ↦ store_spoke rec.name credential now s
      ]

  -- `enrollWithJoinToken`.
  unfoldable pub enroll_with_join_token : Str → ℤ → Result Str (List ℕ) → S.State → Enrollment
  unfolding admit
  enroll_with_join_token token now random s =
      let taken = S.take_join_token (hash_secret sum256 token) s in
      elim taken.1 [
        | failed e ↦ (taken.0, failed (internal e))
        | ok none ↦ (taken.0, failed (rejected token_unknown))
        | ok (some rec) ↦ admit rec now random taken.0
      ]

  -- `reconnect`, with the spoke that the store returns.
  pub check_spoke : EnrollReq → Result Str (Option SpokeRecord) → Option EnrollError
  check_spoke req (failed e) = some (internal e)
  check_spoke req (ok none) = some (rejected (unknown_spoke req.name))
  check_spoke req (ok (some rec)) =
      if same_hash sum256 req.credential rec.credential_hash
      then none
      else some (rejected (credential_mismatch req.name))

  -- `reconnect`.
  unfoldable pub reconnect : EnrollReq → S.State → S.State × Option EnrollError
  unfolding check_spoke
  reconnect req s =
      let called = S.get_spoke req.name s in
      if req.name == [] || req.credential == []
      then (s, some (rejected missing_name_or_credential))
      else (called.0, check_spoke req called.1)

  -- `authenticateEnroll`.
  unfoldable pub authenticate_enroll : EnrollReq → ℤ → Result Str (List ℕ) → S.State → Enrollment
  unfolding enroll_with_join_token reconnect
  authenticate_enroll req now random s =
      let checked = reconnect req s in
      if not (req.join_token == [])
      then enroll_with_join_token req.join_token now random s
      else elim checked.1 [ some e ↦ (checked.0, failed e) | none ↦ (checked.0, ok (req.name, [])) ]
