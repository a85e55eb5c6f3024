-- ===== src/Hub/Sessions/Steps.antt =====
-- The parts of `createBox` of several callers, the inventories and the removals in any order.
use llmbox.Prelude.{◌≡◌, refl, sym, subst, inl, List, ◌∷◌, In, Str, str_eq, to_lower, ok, failed}
use llmbox.Box.Provisioner.{BoxView, CreateOptions}
use llmbox.Hub.Records.{Session, World}
use llmbox.Hub.Sessions.{Server, release_box_id, drop_terminated_records}
use llmbox.Hub.Sessions.Claiming.{begin_create_failed}
use llmbox.Hub.Sessions.Creating.{begin_create, register}
use llmbox.Hub.Sessions.Syncing.{sync_spoke_inventory}
use llmbox.Hub.Sessions.Forgetting.{first_match, destroy_box, prune_departed_spokes}
use llmbox.Hub.Sessions.Sound.{
  without_claim, IsSound, RevivesNone, Shrinks-IsSound, destroy_matched-Shrinks, pruned-Shrinks,
  drop-Shrinks,
}
use llmbox.Hub.Sessions.Sound.Parts.{register-IsSound, release-IsSound, begin-IsSound, sync-IsSound}
use llmbox.Hub.Sessions.Unique.{IsUnique}

module _ (W : World) where
  -- One part of an operation, with the claims that are not registered yet.
  pub data Step : Server W → List Str → Server W → List Str → Type 0 where
    begins :
        (opts : CreateOptions) (name : Str) (srv : Server W) (claims : List Str)
        → (begin_create W opts srv).1 ≡ ok name
        → Step srv claims (begin_create W opts srv).0 (to_lower opts.box_id ∷ claims)
    is_refused :
        (opts : CreateOptions) (e : Str) (srv : Server W) (claims : List Str)
        → (begin_create W opts srv).1 ≡ failed e
        → Step srv claims (begin_create W opts srv).0 claims
    registers :
        (sess : Session) (srv : Server W) (claims : List Str)
        → In (to_lower sess.box_id) claims
        → Step srv claims (register W sess srv) (without_claim (to_lower sess.box_id) claims)
    releases :
        (id : Str) (srv : Server W) (claims : List Str)
        → Step srv claims (release_box_id W id srv) (without_claim (to_lower id) claims)
    drops :
        (id tok : Str) (srv : Server W) (claims : List Str)
        → Step srv claims (drop_terminated_records W id tok srv) claims
    syncs :
        (name : Str) (boxes : List BoxView) (srv : Server W) (claims : List Str)
        → RevivesNone W name boxes srv
        → Step srv claims (sync_spoke_inventory W name boxes srv) claims
    destroys :
        (id : Str) (srv : Server W) (claims : List Str)
        → Step srv claims (destroy_box W id srv).0 claims
    prunes :
        (srv : Server W) (claims : List Str)
        → Step srv claims (prune_departed_spokes W srv).0 claims
    works :
        (w : W.State) (srv : Server W) (claims : List Str)
        → Step srv claims (record srv { world = w }) claims

  pub data Reach (srv : Server W) (claims : List Str) : Server W → List Str → Type 0 where
    here : Reach srv claims srv claims
    next :
        {t u : Server W} {cs ds : List Str}
        → Reach srv claims t cs
        → Step t cs u ds
        → Reach srv claims u ds

  Step-IsSound :
      {srv t : Server W} {claims cs : List Str}
      → Step srv claims t cs
      → IsSound W srv claims
      → IsSound W t cs
  unfolding destroy_box prune_departed_spokes
  Step-IsSound (begins opts name srv claims e) h = begin-IsSound W opts name srv claims e h
  Step-IsSound (is_refused opts e srv claims rejected) h =
      subst (λ u. IsSound W u claims) (sym (begin_create_failed W opts e srv rejected)) h
  Step-IsSound (registers sess srv claims at) h = register-IsSound W sess srv claims at h
  Step-IsSound (releases id srv claims) h = release-IsSound W id srv claims h
  Step-IsSound (drops id tok srv claims) h =
      Shrinks-IsSound W srv (drop_terminated_records W id tok srv) claims
        (drop-Shrinks W id tok srv) h
  Step-IsSound (syncs name boxes srv claims tame) h = sync-IsSound W name boxes srv claims tame h
  Step-IsSound (destroys id srv claims) h =
      Shrinks-IsSound W srv (destroy_box W id srv).0 claims
        (destroy_matched-Shrinks W id srv (first_match id srv.by_token)) h
  Step-IsSound (prunes srv claims) h =
      Shrinks-IsSound W srv (prune_departed_spokes W srv).0 claims
        (pruned-Shrinks W srv (W.known_spokes srv.world)) h
  Step-IsSound (works w srv claims) h =
      Shrinks-IsSound W srv (record srv { world = w }) claims (refl, inl refl) h

  -- From a registry in which no two live records share a box ID up to case, whatever creations,
  -- inventories, removals and prunings run, with the parts of several creations interleaved, no
  -- two live records share one, as long as no inventory makes a tombstone live again.
  pub Reach-IsUnique :
      {srv : Server W} {claims : List Str} {t : Server W} {cs : List Str}
      → IsSound W srv claims
      → Reach srv claims t cs
      → IsUnique t.by_token
  Reach-IsUnique h r = (sound h r).0
    where
      sound :
          {srv : Server W} {claims : List Str} {t : Server W} {cs : List Str}
          → IsSound W srv claims
          → Reach srv claims t cs
          → IsSound W t cs
      sound h here = h
      sound h (next r step) = Step-IsSound step (sound h r)
