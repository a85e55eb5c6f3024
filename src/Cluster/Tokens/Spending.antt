-- ===== src/Cluster/Tokens/Spending.antt =====
-- Join tokens are one-time, and the round trip of a token: mint, join, reconnect.
use llmbox.Prelude.{
  ℕ, ◌≡◌, ◌≢◌, refl, ap, ◌∙◌, inl, inr, false, Option, none, some, List, [], ℤ, ◌+ℤ◌, after, Str,
  Result, ok, Bool-cases, Option-cases, str_eq, ◌==◌,
}
use llmbox.Cluster.Store.{Store, JoinTokenRecord, SpokeRecord}
use llmbox.Cluster.Secrets.{new_secret, hash_secret}
use llmbox.Cluster.Tokens.{
  EnrollReq, EnrollError, Enrollment, create_join_token, enroll_with_join_token, reconnect,
  authenticate_enroll,
}
use llmbox.Cluster.Tokens.Routes.{
  minted, taken, Enrolling, take_failed, unknown, expired, no_credential, not_stored, admitted,
  enroll_with_join_token-Enrolling, enroll_with_join_token_admits, reconnect_tokens,
  reconnect_passes,
}
use llmbox.Cluster.Tokens.Admitting.{
  by_token, by_credential, by_refusal, enroll_with_join_token-IsJoined,
}
use llmbox.Cluster.Tokens.Minting.{create_join_token_frame, create_join_token-stored, token_record}

module _ (sum256 : Str → List ℕ) (S : Store) where
  module _ (h : Str) (now : ℤ) (random : Result Str (List ℕ)) (s : S.State)
      (absent : S.token s h ≡ none) where
    enroll-absent :
        (token : Str) → S.token (enroll_with_join_token sum256 S token now random s).0 h ≡ none
    enroll-absent token = by_route (enroll_with_join_token-Enrolling sum256 S token now random s)
      where
        untaken : S.token (taken sum256 S token s).0 h ≡ none
        untaken = S.take_join_token_absent (hash_secret sum256 token) h s absent

        by_route :
            {r : Enrollment sum256 S}
            → Enrolling sum256 S token now random s r
            → S.token r.0 h ≡ none
        by_route (take_failed e _ r) = rw r untaken
        by_route (unknown _ r) = rw r untaken
        by_route (expired rec _ _ r) = rw r untaken
        by_route (no_credential rec e _ r) = rw r untaken
        by_route (not_stored rec c e _ r) = rw r (S.put_spoke_tokens rec.name h _ _ ∙ untaken)
        by_route (admitted rec c _ _ _ _ r) = rw r (S.put_spoke_tokens rec.name h _ _ ∙ untaken)

    authenticate-absent :
        (req : EnrollReq) → S.token (authenticate_enroll sum256 S req now random s).0 h ≡ none
    authenticate-absent req = elim (Bool-cases (req.join_token == [])) [
      | inr given ↦ rw (by_token sum256 S now random s req given) (enroll-absent req.join_token)
      | inl saved ↦ elim (Option-cases (reconnect sum256 S req s).1) [
        | inl passed ↦
            rw (by_credential sum256 S now random s req saved passed)
              (reconnect_tokens sum256 S req s h ∙ absent)
        | inr (e, refused) ↦
            rw (by_refusal sum256 S now random s req e saved refused)
              (reconnect_tokens sum256 S req s h ∙ absent)
      ]
    ]

  -- What the hub and its command line do to the store, but mint a token with the hash `h`.
  pub data Step (h : Str) (s : S.State) : S.State → Type 0 where
    minted_other :
        (name backend : Str) (ttl now : ℤ) (random : Result Str (List ℕ))
        → ((secret : Str) → new_secret random ≡ ok secret → h ≢ hash_secret sum256 secret)
        → Step h s (create_join_token sum256 S name backend ttl now random s).0
    authenticated :
        (req : EnrollReq) (now : ℤ) (random : Result Str (List ℕ))
        → Step h s (authenticate_enroll sum256 S req now random s).0
    listed : Step h s (S.list_join_tokens s).0
    revoked : (k : Str) → Step h s (S.delete_join_token k s).0
    removed : (n : Str) → Step h s (S.delete_spoke n s).0

  pub data Reach (h : Str) (s : S.State) : S.State → Type 0 where
    here : Reach h s s
    next : {u v : S.State} → Reach h s u → Step h u v → Reach h s v

  Step-absent : {h : Str} {s u : S.State} → Step h s u → S.token s h ≡ none → S.token u h ≡ none
  Step-absent {h} {s} (minted_other name backend ttl now random fresh) absent =
      create_join_token_frame sum256 S name backend ttl now random s h fresh ∙ absent
  Step-absent {h} {s} (authenticated req now random) absent =
      authenticate-absent h now random s absent req
  Step-absent {h} {s} listed absent = S.list_join_tokens_tokens h s ∙ absent
  Step-absent {h} {s} (revoked k) absent = S.delete_join_token_absent k h s absent
  Step-absent {h} {s} (removed n) absent = S.delete_spoke_tokens n h s ∙ absent

  Reach-absent : {h : Str} {s u : S.State} → Reach h s u → S.token s h ≡ none → S.token u h ≡ none
  Reach-absent here absent = absent
  Reach-absent (next r st) absent = Step-absent st (Reach-absent r absent)

  -- After a join token has admitted a spoke it admits none again, whatever enrollments, listings,
  -- revocations, removals and mintings follow, if no minting draws a secret with the same hash.
  pub spent_token_admits_nobody :
      (token : Str) (now later : ℤ) (random random' : Result Str (List ℕ)) (s u : S.State)
      (w v : Str × Str)
      → (enroll_with_join_token sum256 S token now random s).1 ≡ ok w
      → Reach (hash_secret sum256 token) (enroll_with_join_token sum256 S token now random s).0 u
      → (enroll_with_join_token sum256 S token later random' u).1 ≢ ok v
  spent_token_admits_nobody token now later random random' s u w v first r second =
      let (_, _, _, _, gone, _) =
        enroll_with_join_token-IsJoined sum256 S now random s token w first in
      let (_, found, _, _, _, _) =
        enroll_with_join_token-IsJoined sum256 S later random' u token v second in
      cc (Reach-absent r gone, found)

  module _ (name backend : Str) (ttl now later : ℤ) (random random' : Result Str (List ℕ))
      (s : S.State) (secret credential : Str) where
    abbrev start : S.State
    start = (create_join_token sum256 S name backend ttl now random s).0

    abbrev joined : Enrollment sum256 S
    joined = enroll_with_join_token sum256 S secret later random' start

    abbrev reconnecting : S.State × Option EnrollError
    reconnecting =
        reconnect sum256 S (record { join_token = []; name = name; credential = credential })
          joined.0

    -- A minted token that is presented before it expires admits the spoke that it names with
    -- the drawn credential, if it is not empty, and the spoke can then reconnect with that
    -- credential, provided that the store does not fail.
    pub join_round_trip :
        (o : Option JoinTokenRecord) (p : Option SpokeRecord)
        → (create_join_token sum256 S name backend ttl now random s).1 ≡ ok secret
        → (taken sum256 S secret start).1 ≡ ok o
        → after later (now +ℤ ttl) ≡ false
        → new_secret random' ≡ ok credential
        → credential ≢ []
        → (S.put_spoke name
            (minted sum256 S name credential later)
            (taken sum256 S secret start).0).1
          ≡ none
        → (S.get_spoke name joined.0).1 ≡ ok p
        → (joined.1 ≡ ok (name, credential)) × (reconnecting.1 ≡ none)
    join_round_trip o p minting read in_time drawn nonempty put_ok get_ok =
        let (named, _, kept) =
          create_join_token-stored sum256 S name backend ttl now random s secret minting in
        let rec = token_record sum256 S name backend ttl now random s in
        let there : (taken sum256 S secret start).1 ≡ ok (some rec) =
          read ∙ ap ok (S.take_join_token_found (hash_secret sum256 secret) start o read ∙ kept) in
        let e =
          enroll_with_join_token_admits sum256 S secret later random' start rec credential there
            in_time drawn put_ok in
        let enrolled : S.spoke joined.0 name ≡ some (minted sum256 S name credential later) =
          rw e (S.put_spoke_stores (minted sum256 S name credential later) _ put_ok) in
        (
          ap (λ (r : Enrollment sum256 S). r.1) e,
          reconnect_passes sum256 S
              (record { join_token = []; name = name; credential = credential }) joined.0
              (minted sum256 S name credential later) named nonempty
              (get_ok ∙ ap ok (S.get_spoke_found name joined.0 p get_ok ∙ enrolled)) refl,
        )
