-- ===== src/Hub/Sessions/Sound.antt =====
-- What each part of an operation keeps of the registry and of the claims.
pub mod Parts
use llmbox.Prelude.{
  All-keep, keep-Pairwise, All-put, ◌≡◌, ◌≢◌, refl, sym, subst, ◌∙◌, ◌⊎◌, inl, inr, Bool, true,
  false, not, Option, none, some, List, [], ◌∷◌, arith, Bool-cases, All, In, In-filter, filter,
  contains, contains_iff, Str, ℤ, str_eq, str_beq_iff, ◌==◌, to_lower, Table, keep, map_values,
  Result, ok, failed,
}
use llmbox.Box.Provisioner.{BoxView, CreateOptions, Failure, not_found, other}
use llmbox.Hub.Records.{Session, World, terminated}
use llmbox.Hub.Sessions.{Server, release_box_id, replaced, drop_terminated_records, spoke}
use llmbox.Hub.Sessions.Claiming.{begin_create_ok}
use llmbox.Hub.Sessions.Creating.{begin_create, register}
use llmbox.Hub.Sessions.Syncing.{
  Seen, found, unsure, vanished, seen, observed, pinned, synced, sync_spoke_inventory,
}
use llmbox.Hub.Sessions.Forgetting.{
  box_matches, spoke_hosting_box, departed, forget, destroyed, destroy_on, destroy_hosted,
  destroy_matched, pruned,
}
use llmbox.Hub.Sessions.Unique.{
  IsOff, IsFree, IsUnique, IsTame, put-IsUnique, map_values-IsFree, map_values-IsUnique, Apart,
}

abbrev pub without_claim : Str → List Str → List Str
without_claim p = filter (λ q. not (q == p))

module _ (W : World) where
  -- The claims of creations that have not registered their box yet are pending, no two are the same,
  -- and no live record has the ID of one.
  abbrev IsClaimed : Server W → List Str → Type 0
  IsClaimed srv [] = Unit
  IsClaimed srv (p ∷ ps) =
      IsFree p srv.by_token × In p srv.pending_box_ids × All (λ q. p ≢ q) ps × IsClaimed srv ps

  abbrev pub IsSound : Server W → List Str → Type 0
  IsSound srv claims = IsUnique srv.by_token × IsClaimed srv claims

  -- Claims after a change that keeps what is free and what is pending.
  pub claims_keep :
      (srv t : Server W) (claims : List Str)
      → ((p : Str) → IsFree p srv.by_token → IsFree p t.by_token)
      → ((p : Str) → In p srv.pending_box_ids → In p t.pending_box_ids)
      → IsClaimed srv claims
      → IsClaimed t claims
  claims_keep srv t [] free there h = tt
  claims_keep srv t (p ∷ ps) free there (off, at, apart, h) =
      (free p off, there p at, apart, claims_keep srv t ps free there h)

  -- Records may be gone, and nothing else of the registry changes.
  abbrev pub Shrinks : Server W → Server W → Type 0
  Shrinks srv t =
      (t.pending_box_ids ≡ srv.pending_box_ids)
      × ((t.by_token ≡ srv.by_token)
          ⊎ ((p : Str → Session → Bool) × (t.by_token ≡ keep p srv.by_token)))

  pub Shrinks-IsSound :
      (srv t : Server W) (claims : List Str) → Shrinks srv t → IsSound srv claims → IsSound t claims
  Shrinks-IsSound srv t claims (pending, inl e) (unique, h) = (
    subst IsUnique (sym e) unique,
    claims_keep srv t claims (λ q free. subst (IsFree q) (sym e) free)
        (λ q at. subst (In q) (sym pending) at) h,
  )
  Shrinks-IsSound srv t claims (pending, inr (p, e)) (unique, h) = (
    subst IsUnique (sym e) (keep-Pairwise Apart p srv.by_token unique),
    claims_keep srv t claims
        (λ q free. subst (IsFree q) (sym e) (All-keep (λ row. IsOff q row.1) p srv.by_token free))
        (λ q at. subst (In q) (sym pending) at) h,
  )

  forget-Shrinks : (id : Str) (srv : Server W) → Shrinks srv (forget W id srv)
  unfolding forget
  forget-Shrinks id srv = (refl, inr ((λ tok s. not (box_matches id s)), refl))

  destroyed-Shrinks :
      (id : Str) (srv : Server W) (r : W.State × Option Failure)
      → Shrinks srv (destroyed W id srv r).0
  destroyed-Shrinks id srv (w, none) = forget-Shrinks id (record srv { world = w })
  destroyed-Shrinks id srv (w, some (not_found e)) = forget-Shrinks id (record srv { world = w })
  destroyed-Shrinks id srv (w, some (other e)) = (refl, inl refl)

  destroy_on-Shrinks :
      (id : Str) (srv : Server W) (r : Result Str Str) → Shrinks srv (destroy_on W id srv r).0
  destroy_on-Shrinks id srv (failed e) = (refl, inl refl)
  destroy_on-Shrinks id srv (ok name) = destroyed-Shrinks id srv (W.destroy name id srv.world)

  destroy_hosted-Shrinks :
      (id : Str) (srv : Server W) (r : W.State × Option Str)
      → Shrinks srv (destroy_hosted W id srv r).0
  destroy_hosted-Shrinks id srv (w, none) = forget-Shrinks id (record srv { world = w })
  destroy_hosted-Shrinks id srv (w, some name) =
      destroyed-Shrinks id (record srv { world = w }) (W.destroy name id w)

  pub destroy_matched-Shrinks :
      (id : Str) (srv : Server W) (o : Option Session) → Shrinks srv (destroy_matched W id srv o).0
  destroy_matched-Shrinks id srv none =
      destroy_hosted-Shrinks id srv (spoke_hosting_box W id (W.spokes srv.world) srv.world)
  destroy_matched-Shrinks id srv (some s) = elim (Bool-cases (terminated s)) [
    | inl gone ↦ rw gone (forget-Shrinks id srv)
    | inr live ↦ rw live (destroy_on-Shrinks id srv (spoke W s.spoke_name srv.world))
  ]

  pub pruned-Shrinks :
      (srv : Server W) (r : W.State × Result Str (List Str)) → Shrinks srv (pruned W srv r).0
  pruned-Shrinks srv (w, failed e) = (refl, inl refl)
  pruned-Shrinks srv (w, ok known) = (refl, inr ((λ tok s. not (departed W known w s)), refl))

  pub drop-Shrinks :
      (id tok : Str) (srv : Server W) → Shrinks srv (drop_terminated_records W id tok srv)
  unfolding drop_terminated_records
  drop-Shrinks id tok srv = elim (Bool-cases (id == [])) [
    | inl empty ↦ rw empty (refl, inl refl)
    | inr given ↦ rw given (refl, inr ((λ t s. not (replaced W id tok t s)), refl))
  ]

  -- The inventory makes no tombstone live.
  abbrev pub RevivesNone : Str → List BoxView → Server W → Type 0
  RevivesNone name boxes srv =
      All
        (λ row.
          (terminated row.1 ≡ false) ⊎ (terminated (synced W name boxes srv.world row.1) ≡ true))
        srv.by_token
