-- ===== src/Cluster/Revoking.antt =====
-- internal/hub/token/token.go, `revokeJoinTokens`: the command `token revoke`, on an open store.
pub mod Selecting
use llmbox.Prelude.{
  ℕ, suc, ◌+◌, ◌<◌, ◌≡◌, ◌≢◌, ◌↔◌, refl, sym, ap, ◌∙◌, ◌⊎◌, inl, inr, Bool, true, false, not,
  Option, none, some, List, [], ◌∷◌, arith, ltb, if◌then◌else◌, Str, codes, str_eq, str_beq_iff,
  ◌==◌, ◌||◌, ◌&&◌, Result, ok, failed, Result-cases, Bool-cases, Option-cases, length, filter, In,
  cut_prefix, nat_eq,
}
use llmbox.Netfw.Firewall.{Error}
use llmbox.Cluster.Store.{Store, JoinTokenInfo, JoinTokenRecord, info_of}

pub data RevokeError : Type 0 where
  store_error : Str → RevokeError
  no_match : RevokeError
  ambiguous : Str → ℕ → RevokeError

abbrev has_prefix : Str → Str → Bool
has_prefix s prefix = elim (cut_prefix prefix s) [ none ↦ false | some _ ↦ true ]

-- Whether the command selects a token: by the prefix of its ID, or by its spoke's name.
unfoldable pub selects : Str → Str → JoinTokenInfo → Bool
selects id_prefix name t =
    if not (id_prefix == []) && has_prefix t.id id_prefix
    then true
    else not (name == []) && t.name == name

module _ (S : Store) where
  -- The loop over the selected tokens, with the tokens that it reports as revoked.
  unfoldable pub delete_each :
      List JoinTokenInfo → S.State → S.State × List JoinTokenInfo × Option RevokeError
  delete_each [] s = (s, [], none)
  delete_each (t ∷ ts) s =
      let called = S.delete_join_token t.id s in
      let rest = delete_each ts called.0 in
      elim called.1 [
        | some e ↦ (called.0, [], some (store_error e))
        | none ↦ (rest.0, t ∷ rest.1, rest.2)
      ]

  pub revoke_matched :
      Str → List JoinTokenInfo → S.State → S.State × List JoinTokenInfo × Option RevokeError
  unfolding delete_each
  revoke_matched id_prefix matched s =
      if length matched == 0
      then (s, [], some no_match)
      else if not (id_prefix == []) && ltb 1 (length matched)
      then (s, [], some (ambiguous id_prefix (length matched)))
      else delete_each matched s

  unfoldable pub revoke_join_tokens :
      Str → Str → S.State → S.State × List JoinTokenInfo × Option RevokeError
  unfolding revoke_matched
  revoke_join_tokens id_prefix name s =
      let called = S.list_join_tokens s in
      elim called.1 [
        | failed e ↦ (called.0, [], some (store_error e))
        | ok tokens ↦ revoke_matched id_prefix (filter (selects id_prefix name) tokens) called.0
      ]
