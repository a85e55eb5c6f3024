-- ===== src/Hub/Sessions/Sound/Parts.antt =====
-- What a creation and an inventory keep of the registry and of the claims.
use llmbox.Prelude.{
  All-put, ◌≡◌, ◌≢◌, refl, sym, subst, ◌∙◌, ◌⊎◌, inl, inr, Bool, true, false, not, List, [], ◌∷◌,
  arith, Bool-cases, All, In, In-filter, contains, contains_iff, Str, ℤ, str_eq, str_beq_iff, ◌==◌,
  to_lower, Table, map_values, ok,
}
use llmbox.Box.Provisioner.{BoxView, CreateOptions}
use llmbox.Hub.Records.{Session, World, terminated}
use llmbox.Hub.Sessions.{Server, release_box_id}
use llmbox.Hub.Sessions.Claiming.{begin_create_ok}
use llmbox.Hub.Sessions.Creating.{begin_create, register}
use llmbox.Hub.Sessions.Syncing.{
  Seen, found, unsure, vanished, seen, observed, pinned, synced, sync_spoke_inventory,
}
use llmbox.Hub.Sessions.Unique.{
  IsOff, IsFree, IsTame, put-IsUnique, map_values-IsFree, map_values-IsUnique,
}
use llmbox.Hub.Sessions.Sound.{without_claim, IsClaimed, IsSound, claims_keep, RevivesNone}

module _ (W : World) where
  All-without : (P : Str → Type 0) (p : Str) (qs : List Str) → All P qs → All P (without_claim p qs)
  All-without P p [] h = tt
  All-without P p (q ∷ qs) (h, hs) = elim (Bool-cases (q == p)) [
    | inl same ↦ rw same (All-without P p qs hs)
    | inr differ ↦ rw differ (h, All-without P p qs hs)
  ]

  claims_without :
      (p : Str) (srv t : Server W) (claims : List Str)
      → ((q : Str) → q ≢ p → IsFree q srv.by_token → IsFree q t.by_token)
      → ((q : Str) → q ≢ p → In q srv.pending_box_ids → In q t.pending_box_ids)
      → IsClaimed W srv claims
      → IsClaimed W t (without_claim p claims)
  claims_without p srv t [] free there h = tt
  claims_without p srv t (q ∷ qs) free there (off, at, apart, h) = elim (Bool-cases (q == p)) [
    | inl same ↦ rw same (claims_without p srv t qs free there h)
    | inr differ ↦
        let other : q ≢ p = ground (arith, str_beq_iff q p) in
        rw differ (
          free q other off,
          there q other at,
          All-without (λ x. q ≢ x) p qs apart,
          claims_without p srv t qs free there h,
        )
  ]

  claim-IsFree :
      (p : Str) (srv : Server W) (claims : List Str)
      → In p claims
      → IsClaimed W srv claims
      → IsFree p srv.by_token
  claim-IsFree p srv [] at h = absurd at
  claim-IsFree p srv (q ∷ qs) (inl e) (off, _, _, h) = subst (λ x. IsFree x srv.by_token) e off
  claim-IsFree p srv (q ∷ qs) (inr at) (off, _, _, h) = claim-IsFree p srv qs at h

  pub register-IsSound :
      (sess : Session) (srv : Server W) (claims : List Str)
      → In (to_lower sess.box_id) claims
      → IsSound W srv claims
      → IsSound W (register W sess srv) (without_claim (to_lower sess.box_id) claims)
  unfolding register
  register-IsSound sess srv claims at (unique, h) =
      let p = to_lower sess.box_id in
      (
        put-IsUnique sess.token sess srv.by_token (claim-IsFree p srv claims at h) unique,
        claims_without p srv (register W sess srv) claims
            (λ q differ free.
              All-put (λ row. IsOff q row.1) sess.token sess srv.by_token
                (inr (λ e. differ (sym e))) free)
            (λ q differ there. there) h,
      )

  pub release-IsSound :
      (id : Str) (srv : Server W) (claims : List Str)
      → IsSound W srv claims
      → IsSound W (release_box_id W id srv) (without_claim (to_lower id) claims)
  unfolding release_box_id
  release-IsSound id srv claims (unique, h) = elim (Bool-cases (id == [])) [
    | inl empty ↦
        rw empty (unique, claims_without (to_lower id) srv srv claims (λ q d f. f) (λ q d i. i) h)
    | inr given ↦ rw given (
      unique,
      claims_without (to_lower id) srv
          (record srv { pending_box_ids = without_claim (to_lower id) srv.pending_box_ids }) claims
          (λ q d f. f) (λ q d i. kept q d i) h,
    )
  ]
    where
      kept :
          (q : Str)
          → q ≢ to_lower id
          → In q srv.pending_box_ids
          → In q (without_claim (to_lower id) srv.pending_box_ids)
      kept q differ at =
          (In-filter (λ x. not (x == to_lower id)) q srv.pending_box_ids).1
            (at, ground (arith, str_beq_iff q (to_lower id)))

  pub begin-IsSound :
      (opts : CreateOptions) (name : Str) (srv : Server W) (claims : List Str)
      → (begin_create W opts srv).1 ≡ ok name
      → IsSound W srv claims
      → IsSound W (begin_create W opts srv).0 (to_lower opts.box_id ∷ claims)
  begin-IsSound opts name srv claims h (unique, old) =
      let p = to_lower opts.box_id in
      let (e, free, fresh) = begin_create_ok W opts name srv h in
      let t : Server W = record srv { pending_box_ids = p ∷ srv.pending_box_ids } in
      subst (λ u. IsSound W u (p ∷ claims)) (sym e)
        (
          unique,
          (
            free,
            inl refl,
            apart p srv claims fresh old,
            claims_keep W srv t claims (λ q f. f) (λ q at. inr at) old,
          ),
        )
    where
      apart :
          (p : Str) (srv : Server W) (claims : List Str)
          → contains srv.pending_box_ids p ≡ false
          → IsClaimed W srv claims
          → All (λ q. p ≢ q) claims
      apart p srv [] fresh h = tt
      apart p srv (q ∷ qs) fresh (_, at, _, h) =
          ((λ e. absurd (both (there e at) fresh)), apart p srv qs fresh h)
        where
          both : {b : Bool} → b ≡ true → b ≡ false → ⊥
          both e e' = cc (sym e ∙ e')

          there : p ≡ q → In q srv.pending_box_ids → contains srv.pending_box_ids p ≡ true
          there e i =
              (contains_iff srv.pending_box_ids p).1
                (subst (λ x. In x srv.pending_box_ids) (sym e) i)

  pub synced_id :
      (name : Str) (boxes : List BoxView) (w : W.State) (s : Session)
      → (synced W name boxes w s).box_id ≡ s.box_id
  unfolding synced
  synced_id name boxes w s = elim (Bool-cases (pinned W name w s)) [
    | inr elsewhere ↦ rw elsewhere refl
    | inl here ↦ rw here (observed_id (W.now w) s (seen (W.now w) boxes s))
  ]
    where
      observed_id : (now : ℤ) (s : Session) (v : Seen) → (observed now s v).box_id ≡ s.box_id
      observed_id now s (found b) = refl
      observed_id now s unsure = refl
      observed_id now s vanished = refl

  pub sync-IsSound :
      (name : Str) (boxes : List BoxView) (srv : Server W) (claims : List Str)
      → RevivesNone W name boxes srv
      → IsSound W srv claims
      → IsSound W (sync_spoke_inventory W name boxes srv) claims
  unfolding sync_spoke_inventory
  sync-IsSound name boxes srv claims tame (unique, h) =
      let f = synced W name boxes srv.world in
      let all = tamed srv.by_token tame in
      (
        map_values-IsUnique f srv.by_token all unique,
        claims_keep W srv (record srv { by_token = map_values f srv.by_token }) claims
            (λ p free. map_values-IsFree f p srv.by_token all free) (λ p at. at) h,
      )
    where
      tamed :
          (m : Table Str Session)
          → All
              (λ row.
                (terminated row.1 ≡ false)
                ⊎ (terminated (synced W name boxes srv.world row.1) ≡ true))
              m
          → All (λ row. IsTame (synced W name boxes srv.world) row.1) m
      tamed [] h = tt
      tamed (row ∷ m) (h, hs) = ((synced_id name boxes srv.world row.1, h), tamed m hs)
