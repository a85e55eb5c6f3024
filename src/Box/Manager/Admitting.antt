-- ===== src/Box/Manager/Admitting.antt =====
-- Which boxes are admitted, and that no two of them have the same ID.
use llmbox.Prelude.{
  ℕ, ◌<◌, ◌≡◌, refl, sym, ap, subst, ◌∙◌, ◌⊎◌, inl, inr, Bool, true, false, not, ◌&&◌, ◌||◌, Option,
  none, some, List, [], ◌∷◌, ◌++◌, map, arith, ltb, leb, if◌then◌else◌, Bool-cases, length, Str,
  str_eq, str_beq_iff, ◌==◌, In, All-In, All-of_In, Result, ok, failed,
}
use llmbox.Netfw.Firewall.{Error}
use llmbox.Box.Identifiers.{valid_box_id, equal_fold}
use llmbox.Box.Keys.{IsUnused, empty-IsUnused}
use llmbox.Box.Provisioner.{Backend, Applier, BoxView, CreateOptions, Key, key_of, without}
use llmbox.Box.Manager.{Config, invalid, used_by, unused, room, provisioned, checked, admit}

module _ (B : Backend) (A : Applier) (cfg : Config) where
  used_by-none :
      (id : Str) (bs : List BoxView) → used_by B A cfg id bs ≡ none → IsUnused id (map key_of bs)
  unfolding used_by
  used_by-none id [] h = tt
  used_by-none id (b ∷ bs) h = elim (Bool-cases (equal_fold b.box_id id)) [
    | inl taken ↦ cc (rw (taken, used_by) at h)
    | inr free ↦ (inr free, used_by-none id bs (rw (free, used_by) at h))
  ]

  -- What a check that passes has found.
  abbrev Passed : Str → List Key → Type 0
  Passed id ks = (0 < cfg.max_boxes → length ks < cfg.max_boxes) × IsUnused id ks

  room-Passed :
      (id : Str) (r : Result Str (List BoxView)) (ks : List Key)
      → ((found : List BoxView)
          → r ≡ ok found
          → (length found ≡ length ks) × ((k : Key) → In k ks → In k (map key_of found)))
      → room B A cfg id r ≡ none
      → Passed id ks
  room-Passed id (failed e) ks same h = cc h
  room-Passed id (ok found) ks same h =
      elim (Bool-cases (ltb 0 cfg.max_boxes && leb cfg.max_boxes (length found))) [
        | inl full ↦ cc (rw full at h)
        | inr space ↦
            let (sizes, shown) = same found refl in
            (
              λ capped. below (length found) (length ks) capped space sizes,
              All-of_In _ ks (λ k there.
                  All-In _ (map key_of found) k (nobody id found (rw space at h)) (shown k there)),
            )
      ]
    where
      below :
          (n m : ℕ)
          → 0 < cfg.max_boxes
          → (ltb 0 cfg.max_boxes && leb cfg.max_boxes n) ≡ false
          → n ≡ m
          → m < cfg.max_boxes
      below n m capped space e = ground arith

      unused_none : (id : Str) (o : Option Str) → unused B A cfg id o ≡ none → o ≡ none
      unused_none id none h = refl
      unused_none id (some x) h = cc h

      nobody :
          (id : Str) (found : List BoxView)
          → (if id == [] then none else unused B A cfg id (used_by B A cfg id found)) ≡ none
          → IsUnused id (map key_of found)
      nobody id found h = elim (Bool-cases (id == [])) [
        | inl empty ↦
            subst (λ x. IsUnused x (map key_of found)) (sym ((str_beq_iff id []).0 empty))
              (empty-IsUnused (map key_of found))
        | inr named ↦
            used_by-none id found (unused_none id (used_by B A cfg id found) (rw named at h))
      ]

  abbrev Form : Str → Type 0
  Form id = (id ≡ []) ⊎ (valid_box_id id ≡ true)

  -- The branches of `admit`, by its two tests.
  abbrev branches : CreateOptions → B.State → Bool → Bool → B.State × Result Str BoxView
  branches opts s malformed constrained =
      let listed = B.list s in
      if malformed
      then (s, failed (invalid opts.box_id))
      else (if constrained
          then checked B A cfg opts listed.0 (room B A cfg opts.box_id listed.1)
          else checked B A cfg opts s none)

  abbrev Added : CreateOptions → BoxView → List Key → B.State → Type 0
  Added opts b ks s = (B.held s ≡ ks ++ key_of b ∷ []) × (b.box_id ≡ opts.box_id)

  -- No box had the instance ID.
  abbrev IsFresh : BoxView → List Key → Type 0
  IsFresh b ks = without b.instance_id ks ≡ ks

  provisioned_ok :
      (r : B.State × Result Str BoxView) (b : BoxView)
      → (provisioned B A cfg r).1 ≡ ok b
      → (r.1 ≡ ok b) × ((provisioned B A cfg r).0 ≡ r.0)
  provisioned_ok (s, ok b') b h = (cc h, refl)
  provisioned_ok (s, failed e) b h = cc h

  checked_ok :
      (opts : CreateOptions) (s : B.State) (e : Error) (b : BoxView)
      → (checked B A cfg opts s e).1 ≡ ok b
      → (e ≡ none) × Added opts b (B.held s) (checked B A cfg opts s e).0 × IsFresh b (B.held s)
  checked_ok opts s (some e) b h = cc h
  checked_ok opts s none b h =
      let (done, same) = provisioned_ok (B.provision opts s) b h in
      let (adds, named, fresh) = B.provision_adds opts s b done in
      (refl, (ap B.held same ∙ adds, named), fresh)

  branches_ok :
      (opts : CreateOptions) (s : B.State) (b : BoxView) (m c : Bool)
      → (not (opts.box_id == []) && not (valid_box_id opts.box_id)) ≡ m
      → (not (opts.box_id == []) || ltb 0 cfg.max_boxes) ≡ c
      → (branches opts s m c).1 ≡ ok b
      → Added opts b (B.held s) (branches opts s m c).0
        × IsFresh b (B.held s)
        × Form opts.box_id
        × Passed opts.box_id (B.held s)
  branches_ok opts s b true c em ec h = cc h
  branches_ok opts s b false true em ec h =
      let (passed, (adds, named), fresh) =
        checked_ok opts (B.list s).0 (room B A cfg opts.box_id (B.list s).1) b h in
      (
        (adds ∙ ap (λ ks. ks ++ key_of b ∷ []) (B.list_keeps s), named),
        subst (IsFresh b) (B.list_keeps s) fresh,
        form opts.box_id em,
        room-Passed opts.box_id (B.list s).1 (B.held s) (B.list_gives s) passed,
      )
    where
      form : (id : Str) → (not (id == []) && not (valid_box_id id)) ≡ false → Form id
      form id e = ground (arith, str_beq_iff id [])
  branches_ok opts s b false false em ec h =
      let (_, added, fresh) = checked_ok opts s none b h in
      let nameless : opts.box_id ≡ [] = ground (arith, str_beq_iff opts.box_id []) in
      (
        added,
        fresh,
        inl nameless,
        (
          λ capped. absurd (uncapped capped ec),
          subst (λ x. IsUnused x (B.held s)) (sym nameless) (empty-IsUnused (B.held s)),
        ),
      )
    where
      uncapped : 0 < cfg.max_boxes → (not (opts.box_id == []) || ltb 0 cfg.max_boxes) ≡ false → ⊥
      uncapped capped e = ground arith

  -- An admission that succeeds adds the box that was asked for. Its ID has the right form and no
  -- other box has it, and if the number of boxes is capped then there was room.
  pub admit_ok :
      (opts : CreateOptions) (s : B.State) (b : BoxView)
      → (admit B A cfg opts s).1 ≡ ok b
      → Added opts b (B.held s) (admit B A cfg opts s).0
        × IsFresh b (B.held s)
        × Form opts.box_id
        × Passed opts.box_id (B.held s)
  unfolding admit
  admit_ok opts s b h = branches_ok opts s b _ _ refl refl h

  provisioned_failed :
      (opts : CreateOptions) (s : B.State) (e : Str) (r : B.State × Result Str BoxView)
      → ((x : Str) → r.1 ≡ failed x → B.held r.0 ≡ B.held s)
      → (provisioned B A cfg r).1 ≡ failed e
      → B.held (provisioned B A cfg r).0 ≡ B.held s
  provisioned_failed opts s e (u, ok b) keeps h = cc h
  provisioned_failed opts s e (u, failed x) keeps h = keeps x refl

  checked_failed :
      (opts : CreateOptions) (s : B.State) (r : Error) (e : Str)
      → (checked B A cfg opts s r).1 ≡ failed e
      → B.held (checked B A cfg opts s r).0 ≡ B.held s
  checked_failed opts s (some x) e h = refl
  checked_failed opts s none e h =
      provisioned_failed opts s e (B.provision opts s) (B.provision_failed opts s) h

  branches_failed :
      (opts : CreateOptions) (s : B.State) (e : Str) (m c : Bool)
      → (branches opts s m c).1 ≡ failed e
      → B.held (branches opts s m c).0 ≡ B.held s
  branches_failed opts s e true c h = refl
  branches_failed opts s e false true h =
      checked_failed opts (B.list s).0 (room B A cfg opts.box_id (B.list s).1) e h ∙ B.list_keeps s
  branches_failed opts s e false false h = checked_failed opts s none e h

  pub admit_failed :
      (opts : CreateOptions) (s : B.State) (e : Str)
      → (admit B A cfg opts s).1 ≡ failed e
      → B.held (admit B A cfg opts s).0 ≡ B.held s
  unfolding admit
  admit_failed opts s e h = branches_failed opts s e _ _ h
