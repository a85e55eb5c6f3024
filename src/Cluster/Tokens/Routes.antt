-- ===== src/Cluster/Tokens/Routes.antt =====
-- The ways through `enrollWithJoinToken` and `reconnect`, each with what it returns.
use llmbox.Prelude.{
  ◌≡◌, ◌≢◌, refl, inl, inr, true, false, Option, none, some, List, [], ◌++◌, arith, ℤ, after, Str,
  ℕ, codes, Result, ok, failed, Result-cases, Option-cases, Bool-cases, str_eq, ◌==◌, ◌||◌,
  str_beq_iff,
}
use llmbox.Cluster.Store.{Store, JoinTokenRecord, SpokeRecord}
use llmbox.Cluster.Secrets.{new_secret, hash_secret, same_hash}
use llmbox.Cluster.Tokens.{
  EnrollReq, rejected, internal, token_unknown, token_expired, Enrollment, enroll_with_join_token,
  reconnect, check_spoke,
}

module _ (sum256 : Str → List ℕ) (S : Store) where
  abbrev pub taken : Str → S.State → S.State × Result Str (Option JoinTokenRecord)
  taken token s = S.take_join_token (hash_secret sum256 token) s

  -- The spoke that an enrollment records.
  abbrev pub minted : Str → Str → ℤ → SpokeRecord
  minted name credential now = record {
    name = name;
    credential_hash = hash_secret sum256 credential;
    enrolled_at = now;
  }

  module _ (token : Str) (now : ℤ) (random : Result Str (List ℕ)) (s : S.State) where
    abbrev left : S.State
    left = (taken token s).0

    pub data Enrolling (r : Enrollment sum256 S) : Type 0 where
      take_failed :
          (e : Str) → (taken token s).1 ≡ failed e → r ≡ (left, failed (internal e)) → Enrolling r
      unknown :
          (taken token s).1 ≡ ok none → r ≡ (left, failed (rejected token_unknown)) → Enrolling r
      expired :
          (rec : JoinTokenRecord)
          → (taken token s).1 ≡ ok (some rec)
          → after now rec.expires_at ≡ true
          → r ≡ (left, failed (rejected (token_expired rec.name rec.expires_at)))
          → Enrolling r
      no_credential :
          (rec : JoinTokenRecord) (e : Str)
          → (taken token s).1 ≡ ok (some rec)
          → r ≡ (left, failed (internal (codes "generating spoke credential: " ++ e)))
          → Enrolling r
      not_stored :
          (rec : JoinTokenRecord) (credential e : Str)
          → (taken token s).1 ≡ ok (some rec)
          → r ≡ (
            (S.put_spoke rec.name (minted rec.name credential now) left).0,
            failed (internal (codes "storing spoke: " ++ e)),
          )
          → Enrolling r
      admitted :
          (rec : JoinTokenRecord) (credential : Str)
          → (taken token s).1 ≡ ok (some rec)
          → after now rec.expires_at ≡ false
          → new_secret random ≡ ok credential
          → (S.put_spoke rec.name (minted rec.name credential now) left).1 ≡ none
          → r ≡ (
            (S.put_spoke rec.name (minted rec.name credential now) left).0,
            ok (rec.name, credential),
          )
          → Enrolling r

    found_cases :
        (rec : JoinTokenRecord)
        → (taken token s).1 ≡ ok (some rec)
        → Enrolling (enroll_with_join_token sum256 S token now random s)
    unfolding enroll_with_join_token
    found_cases rec found = elim (Bool-cases (after now rec.expires_at)) [
      | inl late ↦ expired rec found late (ground arith)
      | inr in_time ↦ elim (Result-cases (new_secret random)) [
        | inr (e, no_random) ↦ no_credential rec e found (ground arith)
        | inl (c, drawn) ↦
            elim (Option-cases (S.put_spoke rec.name (minted rec.name c now) left).1) [
              | inl stored ↦ admitted rec c found in_time drawn stored (ground arith)
              | inr (e, unstored) ↦ not_stored rec c e found (ground arith)
            ]
      ]
    ]

    pub enroll_with_join_token-Enrolling :
        Enrolling (enroll_with_join_token sum256 S token now random s)
    unfolding enroll_with_join_token
    enroll_with_join_token-Enrolling = elim (Result-cases (taken token s).1) [
      | inr (e, broken) ↦ take_failed e broken (ground arith)
      | inl (none, nothing) ↦ unknown nothing (ground arith)
      | inl (some rec, found) ↦ found_cases rec found
    ]

    pub enroll_with_join_token_admits :
        (rec : JoinTokenRecord) (credential : Str)
        → (taken token s).1 ≡ ok (some rec)
        → after now rec.expires_at ≡ false
        → new_secret random ≡ ok credential
        → (S.put_spoke rec.name (minted rec.name credential now) left).1 ≡ none
        → enroll_with_join_token sum256 S token now random s ≡ (
          (S.put_spoke rec.name (minted rec.name credential now) left).0,
          ok (rec.name, credential),
        )
    unfolding enroll_with_join_token
    enroll_with_join_token_admits rec credential found in_time drawn stored = ground arith

  -- A `reconnect` that returns nil has found the spoke, with the hash of the credential.
  module _ (req : EnrollReq) (s : S.State) where
    check_spoke-nil :
        (r : Result Str (Option SpokeRecord))
        → check_spoke sum256 S req r ≡ none
        → (rec : SpokeRecord) × (r ≡ ok (some rec))
          × (hash_secret sum256 req.credential ≡ rec.credential_hash)
    unfolding check_spoke same_hash
    check_spoke-nil (failed e) h = cc
    check_spoke-nil (ok none) h = cc
    check_spoke-nil (ok (some rec)) h = (
      rec,
      refl,
      ground (arith, str_beq_iff (hash_secret sum256 req.credential) rec.credential_hash),
    )

    pub reconnect-nil :
        (reconnect sum256 S req s).1 ≡ none
        → (rec : SpokeRecord) × ((S.get_spoke req.name s).1 ≡ ok (some rec))
          × (hash_secret sum256 req.credential ≡ rec.credential_hash)
          × ((reconnect sum256 S req s).0 ≡ (S.get_spoke req.name s).0)
          × (req.name ≢ [])
    unfolding reconnect
    reconnect-nil h = elim (Bool-cases (req.name == [] || req.credential == [])) [
      | inl missing ↦ ground arith
      | inr complete ↦
          let passed : check_spoke sum256 S req (S.get_spoke req.name s).1 ≡ none = ground arith in
          let (rec, found, same) = check_spoke-nil (S.get_spoke req.name s).1 passed in
          (rec, found, same, ground arith, λ e. ground (arith, str_beq_iff req.name []))
    ]

    -- A `reconnect` reads the store, and changes nothing.
    pub reconnect_tokens : (h : Str) → S.token (reconnect sum256 S req s).0 h ≡ S.token s h
    unfolding reconnect
    reconnect_tokens h = ground (arith, S.get_spoke_tokens req.name h s)

    pub reconnect_spokes : (n : Str) → S.spoke (reconnect sum256 S req s).0 n ≡ S.spoke s n
    unfolding reconnect
    reconnect_spokes n = ground (arith, S.get_spoke_spokes req.name n s)

    pub reconnect_passes :
        (rec : SpokeRecord)
        → req.name ≢ []
        → req.credential ≢ []
        → (S.get_spoke req.name s).1 ≡ ok (some rec)
        → hash_secret sum256 req.credential ≡ rec.credential_hash
        → (reconnect sum256 S req s).1 ≡ none
    unfolding reconnect check_spoke same_hash
    reconnect_passes rec named keyed found same = ground (
      arith,
      str_beq_iff req.name [],
      str_beq_iff req.credential [],
      str_beq_iff (hash_secret sum256 req.credential) rec.credential_hash,
    )
