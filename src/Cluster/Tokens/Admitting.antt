-- ===== src/Cluster/Tokens/Admitting.antt =====
-- Whom `authenticateEnroll` admits, and what a refusal leaves.
use llmbox.Prelude.{
  ℕ, ◌≡◌, ◌≢◌, refl, sym, subst, ◌∙◌, ◌⊎◌, inl, inr, true, false, Option, none, some, List, [], ℤ,
  after, Str, Result, ok, failed, Bool-cases, Option-cases, str_eq, str_beq_iff, ◌==◌,
}
use llmbox.Cluster.Store.{Store, JoinTokenRecord, SpokeRecord}
use llmbox.Cluster.Secrets.{hash_secret}
use llmbox.Cluster.Tokens.{
  EnrollReq, EnrollError, Reason, rejected, Enrollment, enroll_with_join_token, reconnect,
  authenticate_enroll,
}
use llmbox.Cluster.Tokens.Routes.{
  minted, taken, Enrolling, take_failed, unknown, expired, no_credential, not_stored, admitted,
  enroll_with_join_token-Enrolling, reconnect-nil, reconnect_tokens, reconnect_spokes,
}

module _ (sum256 : Str → List ℕ) (S : Store) where
  -- The token was stored and is still valid; it is gone, and its spoke is enrolled.
  abbrev pub IsJoined : Str → ℤ → S.State → S.State → Str × Str → Type 0
  IsJoined token now s u (name, credential) =
      (rec : JoinTokenRecord) × (S.token s (hash_secret sum256 token) ≡ some rec)
      × (after now rec.expires_at ≡ false)
      × (rec.name ≡ name)
      × (S.token u (hash_secret sum256 token) ≡ none)
      × (S.spoke u name ≡ some (minted sum256 S name credential now))

  -- The spoke is enrolled with the credential that it presents, and gets no new one.
  abbrev pub IsKnown : EnrollReq → S.State → Str × Str → Type 0
  IsKnown req s (name, credential) =
      (rec : SpokeRecord) × (S.spoke s name ≡ some rec)
      × (hash_secret sum256 req.credential ≡ rec.credential_hash)
      × (req.name ≡ name)
      × (name ≢ [])
      × (credential ≡ [])

  module _ (now : ℤ) (random : Result Str (List ℕ)) (s : S.State) where
    pub enroll_with_join_token-IsJoined :
        (token : Str) (w : Str × Str)
        → (enroll_with_join_token sum256 S token now random s).1 ≡ ok w
        → IsJoined token now s (enroll_with_join_token sum256 S token now random s).0 w
    enroll_with_join_token-IsJoined token w h =
        by_route (enroll_with_join_token-Enrolling sum256 S token now random s)
      where
        by_route :
            Enrolling sum256 S token now random s
              (enroll_with_join_token sum256 S token now random s)
            → IsJoined token now s (enroll_with_join_token sum256 S token now random s).0 w
        by_route (take_failed e _ r) = cc
        by_route (unknown _ r) = cc
        by_route (expired rec _ _ r) = cc
        by_route (no_credential rec e _ r) = cc
        by_route (not_stored rec c e _ r) = cc
        by_route (admitted rec c found valid drawn stored r) =
            let same : (rec.name, c) ≡ w = cc in
            let gone = S.take_join_token_removes (hash_secret sum256 token) s (some rec) found in
            subst (IsJoined token now s (enroll_with_join_token sum256 S token now random s).0) same
              (rw r (
                rec,
                sym (S.take_join_token_found (hash_secret sum256 token) s (some rec) found),
                valid,
                refl,
                S.put_spoke_tokens rec.name (hash_secret sum256 token) _ _ ∙ gone,
                S.put_spoke_stores (minted sum256 S rec.name c now) _ stored,
              ))

    module _ (req : EnrollReq) where
      abbrev checked : S.State × Option EnrollError
      checked = reconnect sum256 S req s

      pub by_token :
          (req.join_token == []) ≡ false
          → authenticate_enroll sum256 S req now random s
            ≡ enroll_with_join_token sum256 S req.join_token now random s
      unfolding authenticate_enroll
      by_token given = rw (given, authenticate_enroll)

      pub by_credential :
          (req.join_token == []) ≡ true
          → checked.1 ≡ none
          → authenticate_enroll sum256 S req now random s ≡ (checked.0, ok (req.name, []))
      unfolding authenticate_enroll
      by_credential saved passed = rw (saved, passed, authenticate_enroll)

      pub by_refusal :
          (e : EnrollError)
          → (req.join_token == []) ≡ true
          → checked.1 ≡ some e
          → authenticate_enroll sum256 S req now random s ≡ (checked.0, failed e)
      unfolding authenticate_enroll
      by_refusal e saved refused = rw (saved, refused, authenticate_enroll)

      -- An enrollment that is admitted either presented a join token that was stored and not
      -- expired, which is gone and whose spoke is now enrolled with the hash of the new
      -- credential, or presented no token but the name of an enrolled spoke with a credential
      -- that has the stored hash, and gets no new credential.
      pub authenticate_enroll_lem :
          (w : Str × Str)
          → (authenticate_enroll sum256 S req now random s).1 ≡ ok w
          → ((req.join_token ≢ [])
              × IsJoined req.join_token now s (authenticate_enroll sum256 S req now random s).0 w)
            ⊎ ((req.join_token ≡ []) × IsKnown req s w)
      authenticate_enroll_lem w h = elim (Bool-cases (req.join_token == [])) [
        | inr given ↦ inl (
          λ e. cc ((str_beq_iff req.join_token []).1 e),
          rw (by_token given)
              (enroll_with_join_token-IsJoined req.join_token w (rw (by_token given) at h)),
        )
        | inl saved ↦ inr ((str_beq_iff req.join_token []).0 saved, known saved)
      ]
        where
          known : (req.join_token == []) ≡ true → IsKnown req s w
          known saved = elim (Option-cases checked.1) [
            | inr (e, refused) ↦ cc (rw (by_refusal e saved refused) at h)
            | inl passed ↦
                let (rec, found, same, _, named) = reconnect-nil sum256 S req s passed in
                let e : (req.name, []) ≡ w = cc (rw (by_credential saved passed) at h) in
                subst (IsKnown req s) e (
                  rec,
                  sym (S.get_spoke_found req.name s (some rec) found),
                  same,
                  refl,
                  named,
                  refl,
                )
          ]

      -- A request that is rejected changes no enrolled spoke, and no token but the one whose
      -- secret it presents.
      rejected_frame :
          (reason : Reason) (n h : Str)
          → (authenticate_enroll sum256 S req now random s).1 ≡ failed (rejected reason)
          → h ≢ hash_secret sum256 req.join_token
          → (S.spoke (authenticate_enroll sum256 S req now random s).0 n ≡ S.spoke s n)
            × (S.token (authenticate_enroll sum256 S req now random s).0 h ≡ S.token s h)
      rejected_frame reason n h refused other = elim (Bool-cases (req.join_token == [])) [
        | inr given ↦ rw (by_token given) (
            joining (rw (by_token given) at refused)
              (enroll_with_join_token-Enrolling sum256 S req.join_token now random s))
        | inl saved ↦ elim (Option-cases checked.1) [
          | inl passed ↦ cc (rw (by_credential saved passed) at refused)
          | inr (e, unknown_or_wrong) ↦
              rw (by_refusal e saved unknown_or_wrong)
                (reconnect_spokes sum256 S req s n, reconnect_tokens sum256 S req s h)
        ]
      ]
        where
          untaken :
              (S.spoke (taken sum256 S req.join_token s).0 n ≡ S.spoke s n)
              × (S.token (taken sum256 S req.join_token s).0 h ≡ S.token s h)
          untaken = (
            S.take_join_token_spokes (hash_secret sum256 req.join_token) n s,
            S.take_join_token_frame (hash_secret sum256 req.join_token) h s other,
          )

          joining :
              {r : Enrollment sum256 S}
              → r.1 ≡ failed (rejected reason)
              → Enrolling sum256 S req.join_token now random s r
              → (S.spoke r.0 n ≡ S.spoke s n) × (S.token r.0 h ≡ S.token s h)
          joining told (take_failed e _ r) = rw r untaken
          joining told (unknown _ r) = rw r untaken
          joining told (expired rec _ _ r) = rw r untaken
          joining told (no_credential rec e _ r) = rw r untaken
          joining told (not_stored rec c e _ r) = cc
          joining told (admitted rec c found valid drawn stored r) = cc
