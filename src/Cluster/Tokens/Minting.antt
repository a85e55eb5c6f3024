-- ===== src/Cluster/Tokens/Minting.antt =====
-- `CreateJoinToken`: what it stores, and when it refuses.
use llmbox.Prelude.{
  ℕ, ◌≡◌, ◌≢◌, inl, inr, true, false, none, some, List, [], arith, ℤ, pos, ◌+ℤ◌, after, Str, codes,
  ◌++◌, Result, ok, failed, Result-cases, Bool-cases, Option-cases, str_eq, str_beq_iff, ◌==◌,
}
use llmbox.Netfw.Firewall.{Error}
use llmbox.Cluster.Store.{Store, JoinTokenRecord}
use llmbox.Cluster.Secrets.{new_secret, hash_secret}
use llmbox.Cluster.Tokens.{create_join_token}

module _ (sum256 : Str → List ℕ) (S : Store) (name backend : Str) (ttl now : ℤ)
    (random : Result Str (List ℕ)) (s : S.State) where
  abbrev pub created : S.State × Result Str Str
  created = create_join_token sum256 S name backend ttl now random s

  abbrev pub token_record : JoinTokenRecord
  token_record = record { name = name; backend = backend; expires_at = now +ℤ ttl }

  abbrev storing : Str → S.State × Error
  storing secret = S.put_join_token (hash_secret sum256 secret) token_record s

  data Creating (r : S.State × Result Str Str) : Type 0 where
    refused : (e : Str) → r ≡ (s, failed e) → Creating r
    unstored :
        (secret e : Str)
        → new_secret random ≡ ok secret
        → r ≡ ((storing secret).0, failed e)
        → Creating r
    stored :
        (secret : Str)
        → (name == []) ≡ false
        → after ttl (pos 0) ≡ true
        → new_secret random ≡ ok secret
        → (storing secret).1 ≡ none
        → r ≡ ((storing secret).0, ok secret)
        → Creating r

  create_join_token-Creating : Creating created
  unfolding create_join_token
  create_join_token-Creating = elim (Bool-cases (name == [])) [
    | inl nameless ↦ refused (codes "spoke name is required") (ground arith)
    | inr named ↦ elim (Bool-cases (after ttl (pos 0))) [
      | inr expired ↦ refused (codes "join token ttl must be positive") (ground arith)
      | inl ahead ↦ elim (Result-cases (new_secret random)) [
        | inr (e, no_random) ↦ refused (codes "generating join token: " ++ e) (ground arith)
        | inl (secret, drawn) ↦ elim (Option-cases (storing secret).1) [
          | inl done ↦ stored secret named ahead drawn done (ground arith)
          | inr (e, error) ↦
              unstored secret (codes "storing join token: " ++ e) drawn (ground arith)
        ]
      ]
    ]
  ]

  -- Minting touches no token but the one that it draws.
  pub create_join_token_frame :
      (h : Str)
      → ((secret : Str) → new_secret random ≡ ok secret → h ≢ hash_secret sum256 secret)
      → S.token created.0 h ≡ S.token s h
  create_join_token_frame h fresh = by_route create_join_token-Creating
    where
      by_route : Creating created → S.token created.0 h ≡ S.token s h
      by_route (refused e r) = rw r
      by_route (unstored c e drawn r) =
          rw r (S.put_join_token_frame (hash_secret sum256 c) h token_record s (fresh c drawn))
      by_route (stored c _ _ drawn _ r) =
          rw r (S.put_join_token_frame (hash_secret sum256 c) h token_record s (fresh c drawn))

  -- What a success has stored.
  pub create_join_token-stored :
      (secret : Str)
      → created.1 ≡ ok secret
      → (name ≢ [])
        × (after ttl (pos 0) ≡ true)
        × (S.token created.0 (hash_secret sum256 secret) ≡ some token_record)
  create_join_token-stored secret h = by_route create_join_token-Creating
    where
      by_route :
          Creating created
          → (name ≢ [])
            × (after ttl (pos 0) ≡ true)
            × (S.token created.0 (hash_secret sum256 secret) ≡ some token_record)
      by_route (refused e r) = cc
      by_route (unstored c e _ r) = cc
      by_route (stored c named ahead _ done r) =
          let same : c ≡ secret = cc in
          (
            λ e. cc ((str_beq_iff name []).1 e),
            ahead,
            rw (← same, r) (S.put_join_token_stores (hash_secret sum256 c) token_record s done),
          )
