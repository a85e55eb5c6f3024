-- ===== src/Box/Manager/Destroying.antt =====
-- What a `Destroy` that succeeds leaves, of the boxes and of their isolation.
use llmbox.Prelude.{
  ◌≡◌, ◌≢◌, refl, sym, ap, ◌∙◌, ◌⊎◌, inl, inr, not, ◌&&◌, Option, none, some, List, [],
  if◌then◌else◌, Bool-cases, All, In, Str, str_eq, ◌==◌, true, Result, ok, failed,
}
use llmbox.Box.Provisioner.{
  Backend, Applier, BoxView, Failure, not_found, other, Key, key_of, without,
}
use llmbox.Box.Manager.{Config, Spoke, released, removed, found_to_destroy, destroy}

module _ (B : Backend) (A : Applier) (cfg : Config) where
  -- No box has the name, unless that is empty, as its instance ID or box ID.
  abbrev IsUnknown : Str → List Key → Type 0
  IsUnknown id = All (λ k. ((k.0 ≢ id) × (k.1 ≢ id)) ⊎ (id ≡ []))

  -- One box, which answers to the name, is gone, and its isolation is released.
  abbrev Removed : Str → Spoke B A cfg → Spoke B A cfg → BoxView → Type 0
  Removed id (s, iso) (t, iso') b =
      In (key_of b) (B.held s)
      × (B.answers_to id b ≡ true)
      × (B.held t ≡ without b.instance_id (B.held s))
      × (iso' ≡ (if cfg.isolates && not (b.box_id == []) then (A.release b.box_id iso).0 else iso))

  abbrev pub Gone : Str → Spoke B A cfg → Spoke B A cfg → Type 0
  Gone id (s, iso) (t, iso') =
      (IsUnknown id (B.held s) × (B.held t ≡ B.held s) × (iso' ≡ iso))
      ⊎ ((b : BoxView) × Removed id (s, iso) (t, iso') b)

  released_both :
      (b : BoxView) (s : B.State) (iso : A.State)
      → ((released B A cfg b s iso).0 ≡ s)
        × ((released B A cfg b s iso).1
            ≡ (if cfg.isolates && not (b.box_id == []) then (A.release b.box_id iso).0 else iso))
  released_both b s iso = elim (Bool-cases (cfg.isolates && not (b.box_id == []))) [
    | inl isolated ↦ rw isolated (refl, refl)
    | inr exposed ↦ rw exposed (refl, refl)
  ]

  removed_gone :
      (b : BoxView) (iso : A.State) (r : B.State × Option Failure) (ks : List Key)
      → (r.1 ≡ none → B.held r.0 ≡ ks)
      → ((e : Str) → r.1 ≡ some (not_found e) → B.held r.0 ≡ ks)
      → (removed B A cfg b iso r).1 ≡ none
      → (B.held (removed B A cfg b iso r).0.0 ≡ ks)
        × ((removed B A cfg b iso r).0.1
            ≡ (if cfg.isolates && not (b.box_id == []) then (A.release b.box_id iso).0 else iso))
  removed_gone b iso (t, none) ks done gone h =
      let (same, free) = released_both b t iso in (ap B.held same ∙ done refl, free)
  removed_gone b iso (t, some (not_found e)) ks done gone h =
      let (same, free) = released_both b t iso in (ap B.held same ∙ gone e refl, free)
  removed_gone b iso (t, some (other e)) ks done gone h = cc h

  found-Gone :
      (id : Str) (s : B.State) (iso : A.State) (r : B.State × Result Failure BoxView)
      → B.find id s ≡ r
      → (found_to_destroy B A cfg iso r).1 ≡ none
      → Gone id (s, iso) (found_to_destroy B A cfg iso r).0
  found-Gone id s iso (t, failed (other e)) same h = cc h
  found-Gone id s iso (t, failed (not_found e)) same h =
      let state = ap (λ (x : B.State × Result Failure BoxView). B.held x.0) same in
      inl (
        B.find_none id e s (ap (λ (x : B.State × Result Failure BoxView). x.1) same),
        sym state ∙ B.find_keeps id s,
        refl,
      )
  found-Gone id s iso (t, ok b) same h =
      let state = ap (λ (x : B.State × Result Failure BoxView). B.held x.0) same in
      let held = sym state ∙ B.find_keeps id s in
      let (there, known) =
        B.find_gives id s b (ap (λ (x : B.State × Result Failure BoxView). x.1) same) in
      let (left, free) =
        removed_gone b iso (B.destroy b.instance_id t) (without b.instance_id (B.held s))
          (λ done. B.destroy_removes b.instance_id t done ∙ ap (without b.instance_id) held)
          (λ e gone. still e t gone held) h in
      inr (b, (there, known, left, free))
    where
      still :
          (e : Str) (t : B.State)
          → (B.destroy b.instance_id t).1 ≡ some (not_found e)
          → B.held t ≡ B.held s
          → B.held (B.destroy b.instance_id t).0 ≡ without b.instance_id (B.held s)
      still e t gone held =
          let absent = B.destroy_gone b.instance_id e t gone in
          elim (B.destroy_at_most b.instance_id t) [
            | inl kept ↦ kept ∙ sym absent ∙ ap (without b.instance_id) held
            | inr cut ↦ cut ∙ ap (without b.instance_id) held
          ]

  -- A Destroy that succeeds has either changed nothing, and then no box has the name, unless that is
  -- empty, as its instance ID or box ID; or it has removed the boxes of one instance ID, that of a
  -- box which answers to the name by the backend's Find, and no others, and released the isolation
  -- of that box if it has a box ID and there is an applier.
  pub destroy_lem :
      (id : Str) (s : B.State) (iso : A.State)
      → (destroy B A cfg id (s, iso)).1 ≡ none
      → Gone id (s, iso) (destroy B A cfg id (s, iso)).0
  unfolding destroy
  destroy_lem id s iso h = found-Gone id s iso (B.find id s) refl h
