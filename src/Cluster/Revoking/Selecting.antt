-- ===== src/Cluster/Revoking/Selecting.antt =====
-- Which tokens `token revoke` removes.
use llmbox.Prelude.{
  ◌≡◌, ◌≢◌, refl, sym, ap, ◌∙◌, inl, inr, true, false, not, Option, none, some, List, [], ◌∷◌,
  arith, ltb, if◌then◌else◌, Str, str_eq, nat_eq, str_beq_iff, ◌==◌, ok, failed, Result-cases,
  Bool-cases, Option-cases, length, filter, In, In-filter, ◌&&◌,
}
use llmbox.Cluster.Store.{Store, JoinTokenInfo, JoinTokenRecord, info_of}
use llmbox.Cluster.Revoking.{
  RevokeError, store_error, ambiguous, selects, delete_each, revoke_matched, revoke_join_tokens,
}

at_most_one :
    {A : Type 0} (xs : List A) (a b : A) → ltb 1 (length xs) ≡ false → In a xs → In b xs → a ≡ b
at_most_one [] a b short i j = absurd i
at_most_one (x ∷ []) a b short i j = ground arith
at_most_one (x ∷ y ∷ xs) a b short i j = ground arith

module _ (S : Store) where
  delete_each_frame :
      (h : Str) (ts : List JoinTokenInfo) (s : S.State)
      → ((t : JoinTokenInfo) → In t ts → h ≢ t.id)
      → S.token (delete_each S ts s).0 h ≡ S.token s h
  unfolding delete_each
  delete_each_frame h [] s out = refl
  delete_each_frame h (t ∷ ts) s out =
      let first = S.delete_join_token_frame t.id h s (out t (inl refl)) in
      let rest = delete_each_frame h ts (S.delete_join_token t.id s).0 (λ u i. out u (inr i)) in
      elim (Option-cases (S.delete_join_token t.id s).1) [
        | inl done ↦ rw (done, delete_each) (rest ∙ first)
        | inr (e, broken) ↦ rw (broken, delete_each) first
      ]

  delete_each_absent :
      (h : Str) (ts : List JoinTokenInfo) (s : S.State)
      → S.token s h ≡ none
      → S.token (delete_each S ts s).0 h ≡ none
  unfolding delete_each
  delete_each_absent h [] s absent = absent
  delete_each_absent h (t ∷ ts) s absent =
      let first = S.delete_join_token_absent t.id h s absent in
      let rest = delete_each_absent h ts (S.delete_join_token t.id s).0 first in
      elim (Option-cases (S.delete_join_token t.id s).1) [
        | inl done ↦ rw (done, delete_each) rest
        | inr (e, broken) ↦ rw (broken, delete_each) first
      ]

  delete_each_removes :
      (ts : List JoinTokenInfo) (s : S.State) (t : JoinTokenInfo)
      → (delete_each S ts s).2 ≡ none
      → In t ts
      → S.token (delete_each S ts s).0 t.id ≡ none
  unfolding delete_each
  delete_each_removes [] s t done i = absurd i
  delete_each_removes (u ∷ ts) s t done i =
      let called = S.delete_join_token u.id s in
      elim (Option-cases called.1) [
        | inr (e, broken) ↦ cc (rw (broken, delete_each) at done)
        | inl fine ↦
            rw (fine, delete_each)
              (elim i [
                | inr later ↦
                    delete_each_removes ts called.0 t (rw (fine, delete_each) at done) later
                | inl here ↦
                    rw (← here) (
                      delete_each_absent u.id ts called.0 (S.delete_join_token_removes u.id s fine))
              ])
      ]

  module _ (id_prefix name : Str) (s : S.State) where
    abbrev pub revoked : S.State × List JoinTokenInfo × Option RevokeError
    revoked = revoke_join_tokens S id_prefix name s

    abbrev matched : List JoinTokenInfo → List JoinTokenInfo
    matched tokens = filter (selects id_prefix name) tokens

    abbrev read : S.State
    read = (S.list_join_tokens s).0

    matched_runs :
        (ts : List JoinTokenInfo) (u : S.State)
        → (revoke_matched S id_prefix ts u).2 ≡ none
        → ((not (id_prefix == []) && ltb 1 (length ts)) ≡ false)
          × (revoke_matched S id_prefix ts u ≡ delete_each S ts u)
    unfolding revoke_matched
    matched_runs ts u done = ground arith

    revoke_join_tokens_reads :
        (tokens : List JoinTokenInfo)
        → (S.list_join_tokens s).1 ≡ ok tokens
        → revoked ≡ revoke_matched S id_prefix (matched tokens) read
    unfolding revoke_join_tokens
    revoke_join_tokens_reads tokens listed = rw (listed, revoke_join_tokens)

    revoke_join_tokens_unread :
        (e : Str) → (S.list_join_tokens s).1 ≡ failed e → revoked ≡ (read, [], some (store_error e))
    unfolding revoke_join_tokens
    revoke_join_tokens_unread e broken = rw (broken, revoke_join_tokens)

    -- A command that succeeds has listed the tokens, and deleted the selected ones.
    revoked_runs :
        revoked.2 ≡ none
        → (tokens : List JoinTokenInfo) × ((S.list_join_tokens s).1 ≡ ok tokens)
          × ((not (id_prefix == []) && ltb 1 (length (matched tokens))) ≡ false)
          × (revoked ≡ delete_each S (matched tokens) read)
    unfolding revoke_join_tokens revoke_matched
    revoked_runs done = elim (Result-cases (S.list_join_tokens s).1) [
      | inr (e, broken) ↦ cc (rw (broken, revoke_join_tokens) at done)
      | inl (tokens, listed) ↦
          let here = revoke_join_tokens_reads tokens listed in
          let (few, e) = matched_runs (matched tokens) read (rw here at done) in
          (tokens, listed, few, here ∙ e)
    ]

    -- A listed token with the ID of a stored one is that one.
    same_info :
        (tokens : List JoinTokenInfo) (h : Str) (rec : JoinTokenRecord) (t : JoinTokenInfo)
        → (S.list_join_tokens s).1 ≡ ok tokens
        → S.token s h ≡ some rec
        → In t tokens
        → h ≡ t.id
        → t ≡ info_of h rec
    same_info tokens h rec t listed found i same =
        let stored : JoinTokenRecord = record {
          name = t.name;
          backend = t.backend;
          expires_at = t.expires_at;
        } in
        let there : S.token s t.id ≡ some stored =
          (S.list_join_tokens_all s tokens t.id stored listed).1 i in
        let e : stored ≡ rec = cc (sym there ∙ ap (S.token s) (sym same) ∙ found) in
        ap (info_of t.id) e ∙ ap (λ id. info_of id rec) (sym same)

    -- A token revoke command that succeeds removes each stored token that its ID prefix or
    -- spoke name selects, and keeps every other.
    pub revoke_lem :
        (h : Str) (rec : JoinTokenRecord)
        → revoked.2 ≡ none
        → S.token s h ≡ some rec
        → S.token revoked.0 h ≡ (if selects id_prefix name (info_of h rec) then none else some rec)
    revoke_lem h rec done found =
        let (tokens, listed, _, e) = revoked_runs done in
        let (to, from) = S.list_join_tokens_all s tokens h rec listed in
        let not_selected : (t : JoinTokenInfo)
            → In t (matched tokens)
            → h ≡ t.id
            → selects id_prefix name (info_of h rec) ≡ true =
          λ t i same.
            let (there, selected) = (In-filter (selects id_prefix name) t tokens).0 i in
            ap (selects id_prefix name) (sym (same_info tokens h rec t listed found there same))
            ∙ selected in
        let (pick, unpick) = In-filter (selects id_prefix name) (info_of h rec) tokens in
        elim (Bool-cases (selects id_prefix name (info_of h rec))) [
          | inl selected ↦
              rw (selected, e)
                (delete_each_removes (matched tokens) read (info_of h rec) (rw e at done)
                  (unpick (to found, selected)))
          | inr other ↦
              rw (other, e)
                (delete_each_frame h (matched tokens) read (λ t i same. cc (not_selected t i same))
                  ∙ S.list_join_tokens_tokens h s
                  ∙ found)
        ]

    ambiguous_stops :
        (ts : List JoinTokenInfo) (u : S.State)
        → id_prefix ≢ []
        → ltb 1 (length ts) ≡ true
        → revoke_matched S id_prefix ts u ≡ (u, [], some (ambiguous id_prefix (length ts)))
    unfolding revoke_matched
    ambiguous_stops ts u by_id many = ground (arith, str_beq_iff id_prefix [])

    -- A token revoke command with an ID prefix fails and removes no token, if it selects two
    -- stored tokens.
    revoke_ambiguous :
        (h k j : Str) (rec other : JoinTokenRecord)
        → id_prefix ≢ []
        → h ≢ k
        → S.token s h ≡ some rec
        → S.token s k ≡ some other
        → selects id_prefix name (info_of h rec) ≡ true
        → selects id_prefix name (info_of k other) ≡ true
        → (revoked.2 ≢ none) × (S.token revoked.0 j ≡ S.token s j)
    revoke_ambiguous h k j rec other by_id differ found found' selected selected' =
        elim (Result-cases (S.list_join_tokens s).1) [
          | inr (e, broken) ↦ refused_by (store_error e) (revoke_join_tokens_unread e broken)
          | inl (tokens, listed) ↦ refused_by (ambiguous id_prefix (length (matched tokens))) (
              revoke_join_tokens_reads tokens listed
              ∙ ambiguous_stops (matched tokens) read by_id (many tokens listed))
        ]
      where
        refused_by :
            (e : RevokeError)
            → revoked ≡ (read, [], some e)
            → (revoked.2 ≢ none) × (S.token revoked.0 j ≡ S.token s j)
        refused_by e r = rw r ((λ never. cc never), S.list_join_tokens_tokens j s)

        many :
            (tokens : List JoinTokenInfo)
            → (S.list_join_tokens s).1 ≡ ok tokens
            → ltb 1 (length (matched tokens)) ≡ true
        many tokens listed = elim (Bool-cases (ltb 1 (length (matched tokens)))) [
          | inl more ↦ more
          | inr few ↦
              let i = (S.list_join_tokens_all s tokens h rec listed).0 found in
              let i' = (S.list_join_tokens_all s tokens k other listed).0 found' in
              absurd (
                differ (
                  ap (λ (t : JoinTokenInfo). t.id)
                    (at_most_one (matched tokens) (info_of h rec) (info_of k other) few
                      ((In-filter (selects id_prefix name) (info_of h rec) tokens).1 (i, selected))
                      ((In-filter (selects id_prefix name) (info_of k other) tokens).1
                        (i', selected')))))
        ]
