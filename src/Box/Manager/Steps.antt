-- ===== src/Box/Manager/Steps.antt =====
-- The operations of the manager in any order, with the two parts of `Create` as steps of their own,
-- and what holds of the boxes all along.
use llmbox.Prelude.{
  ◌≤◌, ◌<◌, ◌≡◌, refl, sym, ap, subst, ◌∙◌, ◌⊎◌, inl, inr, not, ◌&&◌, Option, none, some, List, [],
  ◌∷◌, ◌++◌, arith, Bool-cases, Option-cases, ℤ, length, length-append, All, Str, str_eq, ◌==◌,
  Result, ok, failed, Result-cases,
}
use llmbox.Netfw.Firewall.{Error}
use llmbox.Guest.Agent.{InitResp}
use llmbox.Box.Keys.{
  Apart, HasDistinctIds, filter-HasDistinctIds, snoc-HasDistinctIds, length-filter,
}
use llmbox.Box.Provisioner.{
  Backend, Applier, BoxView, CreateOptions, CopyFile, Failure, not_found, other, Key, key_of,
  without,
}
use llmbox.Box.Manager.{
  Config, admit, streamed, statted, opened, copy_file, copy_files, initialised, copied, finish,
  released, removed, found_to_destroy, destroy, on_found, pause, resume, run_in, exec,
}
use llmbox.Box.Manager.Admitting.{admit_ok, admit_failed}

-- At most one box is gone.
abbrev Shrinks : List Key → List Key → Type 0
Shrinks ks ks' = (ks' ≡ ks) ⊎ ((id : Str) × (ks' ≡ without id ks))

module _ (B : Backend) (A : Applier) (cfg : Config) where
  -- No more boxes than the cap allows, and no two with the same ID.
  abbrev pub IsWithin : List Key → Type 0
  IsWithin ks = (0 < cfg.max_boxes → length ks ≤ cfg.max_boxes) × HasDistinctIds ks

  Shrinks-IsWithin : (ks ks' : List Key) → Shrinks ks ks' → IsWithin ks → IsWithin ks'
  Shrinks-IsWithin ks ks' (inl same) h = subst IsWithin (sym same) h
  Shrinks-IsWithin ks ks' (inr (id, e)) (bound, distinct) =
      subst IsWithin (sym e)
        (λ capped. smaller (bound capped), filter-HasDistinctIds (λ k. not (k.0 == id)) ks distinct)
    where
      smaller : length ks ≤ cfg.max_boxes → length (without id ks) ≤ cfg.max_boxes
      smaller below = omega (arith, length-filter (λ k. not (k.0 == id)) ks)

  admit-IsWithin :
      (opts : CreateOptions) (s : B.State)
      → IsWithin (B.held s)
      → IsWithin (B.held (admit B A cfg opts s).0)
  admit-IsWithin opts s (bound, distinct) = elim (Result-cases (admit B A cfg opts s).1) [
    | inr (e, refused) ↦
        subst IsWithin (sym (admit_failed B A cfg opts s e refused)) (bound, distinct)
    | inl (b, done) ↦
        let ((adds, named), _, _, (room, unused)) = admit_ok B A cfg opts s b done in
        subst IsWithin (sym adds) (
          λ capped. fits (key_of b) (room capped),
          snoc-HasDistinctIds (B.held s) (key_of b) distinct
              (subst (λ x. All (λ k. Apart k ([], x)) (B.held s)) (sym named) unused),
        )
  ]
    where
      fits :
          (k : Key)
          → length (B.held s) < cfg.max_boxes
          → length (B.held s ++ k ∷ []) ≤ cfg.max_boxes
      fits k h = omega (arith, length-append (B.held s) (k ∷ []))

  put_keeps :
      (f : CopyFile) (id : Str) (s : B.State) → B.held (copy_file B A cfg f id s).0 ≡ B.held s
  put_keeps f id s = opened_keeps (B.open_file f.host_path s)
    where
      streamed_keeps : (r : B.State × Error) → B.held (streamed B A cfg f r).0 ≡ B.held r.0
      streamed_keeps (u, none) = refl
      streamed_keeps (u, some e) = refl

      statted_keeps : (r : Result Str ℤ) → B.held (statted B A cfg f id s r).0 ≡ B.held s
      statted_keeps (failed e) = refl
      statted_keeps (ok n) = streamed_keeps (B.put_file id f n s) ∙ B.put_file_keeps id f n s

      opened_keeps : (r : Error) → B.held (opened B A cfg f id s r).0 ≡ B.held s
      opened_keeps none = statted_keeps (B.file_size f.host_path s)
      opened_keeps (some e) = refl

  pub copy_files_keeps :
      (fs : List CopyFile) (id : Str) (s : B.State)
      → B.held (copy_files B A cfg fs id s).0 ≡ B.held s
  unfolding copy_files
  copy_files_keeps [] id s = refl
  copy_files_keeps (f ∷ fs) id s = elim (Option-cases (copy_file B A cfg f id s).1) [
    | inl fine ↦
        rw (fine, copy_files)
          (copy_files_keeps fs id (copy_file B A cfg f id s).0 ∙ put_keeps f id s)
    | inr (e, broken) ↦ rw (broken, copy_files) (put_keeps f id s)
  ]

  destroy-Shrinks :
      (id : Str) (s : B.State) (ks : List Key)
      → B.held s ≡ ks
      → Shrinks ks (B.held (B.destroy id s).0)
  destroy-Shrinks id s ks e = elim (B.destroy_at_most id s) [
    | inl same ↦ inl (same ∙ e)
    | inr gone ↦ inr (id, gone ∙ ap (without id) e)
  ]

  initialised-Shrinks :
      (id : Str) (r : B.State × Result Str InitResp) (ks : List Key)
      → B.held r.0 ≡ ks
      → Shrinks ks (B.held (initialised B A cfg id r).0)
  initialised-Shrinks id (s, failed e) ks h = destroy-Shrinks id s ks h
  initialised-Shrinks id (s, ok r) ks h = inl h

  copied-Shrinks :
      (opts : CreateOptions) (id : Str) (r : B.State × Error) (ks : List Key)
      → B.held r.0 ≡ ks
      → Shrinks ks (B.held (copied B A cfg opts id r).0)
  copied-Shrinks opts id (s, some e) ks h = destroy-Shrinks id s ks h
  copied-Shrinks opts id (s, none) ks h =
      initialised-Shrinks id (B.init id _ s) ks (B.init_keeps id _ s ∙ h)

  finish-Shrinks :
      (opts : CreateOptions) (id : Str) (s : B.State)
      → Shrinks (B.held s) (B.held (finish B A cfg opts id s).0)
  unfolding finish
  finish-Shrinks opts id s =
      copied-Shrinks opts id (copy_files B A cfg cfg.copy_files id s) (B.held s)
        (copy_files_keeps cfg.copy_files id s)

  released_boxes : (b : BoxView) (s : B.State) (iso : A.State) → (released B A cfg b s iso).0 ≡ s
  released_boxes b s iso = elim (Bool-cases (cfg.isolates && not (b.box_id == []))) [
    | inl isolated ↦ rw isolated refl
    | inr exposed ↦ rw exposed refl
  ]

  removed-Shrinks :
      (b : BoxView) (iso : A.State) (r : B.State × Option Failure) (ks : List Key)
      → Shrinks ks (B.held r.0)
      → Shrinks ks (B.held (removed B A cfg b iso r).0.0)
  removed-Shrinks b iso (s, none) ks h =
      subst (λ x. Shrinks ks (B.held x)) (sym (released_boxes b s iso)) h
  removed-Shrinks b iso (s, some (not_found e)) ks h =
      subst (λ x. Shrinks ks (B.held x)) (sym (released_boxes b s iso)) h
  removed-Shrinks b iso (s, some (other e)) ks h = h

  found-Shrinks :
      (iso : A.State) (r : B.State × Result Failure BoxView) (ks : List Key)
      → B.held r.0 ≡ ks
      → Shrinks ks (B.held (found_to_destroy B A cfg iso r).0.0)
  found-Shrinks iso (s, failed (not_found e)) ks h = inl h
  found-Shrinks iso (s, failed (other e)) ks h = inl h
  found-Shrinks iso (s, ok b) ks h =
      removed-Shrinks b iso (B.destroy b.instance_id s) ks (destroy-Shrinks b.instance_id s ks h)

  on_found_keeps :
      (f : Str → B.State → B.State × Option Failure) (r : B.State × Result Failure BoxView)
      → ((id : Str) (s : B.State) → B.held (f id s).0 ≡ B.held s)
      → B.held (on_found B A cfg f r).0 ≡ B.held r.0
  on_found_keeps f (s, failed e) keeps = refl
  on_found_keeps f (s, ok b) keeps = keeps b.instance_id s

  run_in_keeps :
      (cmd : List Str) (r : B.State × Result Failure BoxView)
      → B.held (run_in B A cfg cmd r).0 ≡ B.held r.0
  run_in_keeps cmd (s, failed e) = refl
  run_in_keeps cmd (s, ok b) = B.exec_keeps b.instance_id cmd s

  -- One operation on the boxes, or one part of `Create`.
  pub data Step : B.State → B.State → Type 0 where
    admits : (opts : CreateOptions) (s : B.State) → Step s (admit B A cfg opts s).0
    finishes : (opts : CreateOptions) (id : Str) (s : B.State) → Step s (finish B A cfg opts id s).0
    lists : (s : B.State) → Step s (B.list s).0
    destroys : (id : Str) (iso : A.State) (s : B.State) → Step s (destroy B A cfg id (s, iso)).0.0
    pauses : (id : Str) (s : B.State) → Step s (pause B A cfg id s).0
    resumes : (id : Str) (s : B.State) → Step s (resume B A cfg id s).0
    runs : (id : Str) (cmd : List Str) (s : B.State) → Step s (exec B A cfg id cmd s).0

  pub data Reach (s : B.State) : B.State → Type 0 where
    here : Reach s s
    next : {t u : B.State} → Reach s t → Step t u → Reach s u

  keeps_IsWithin : (s t : B.State) → B.held t ≡ B.held s → IsWithin (B.held s) → IsWithin (B.held t)
  keeps_IsWithin s t e h = subst IsWithin (sym e) h

  Step-IsWithin : {s t : B.State} → Step s t → IsWithin (B.held s) → IsWithin (B.held t)
  unfolding destroy pause resume exec
  Step-IsWithin (admits opts s) h = admit-IsWithin opts s h
  Step-IsWithin (finishes opts id s) h = Shrinks-IsWithin (B.held s) _ (finish-Shrinks opts id s) h
  Step-IsWithin (lists s) h = keeps_IsWithin s (B.list s).0 (B.list_keeps s) h
  Step-IsWithin (destroys id iso s) h =
      Shrinks-IsWithin (B.held s) _ (found-Shrinks iso (B.find id s) (B.held s) (B.find_keeps id s))
        h
  Step-IsWithin (pauses id s) h =
      keeps_IsWithin s _ (on_found_keeps B.pause (B.find id s) B.pause_keeps ∙ B.find_keeps id s) h
  Step-IsWithin (resumes id s) h =
      keeps_IsWithin s _ (on_found_keeps B.resume (B.find id s) B.resume_keeps ∙ B.find_keeps id s)
        h
  Step-IsWithin (runs id cmd s) h =
      keeps_IsWithin s _ (run_in_keeps cmd (B.find id s) ∙ B.find_keeps id s) h

  -- From boxes that are within the cap (where there is one) and no two of which share an ID up to
  -- case, whatever operations run, in whatever order and with the two parts of Create of several
  -- callers interleaved, there are never more boxes than the cap and never two that share an ID
  -- up to case.
  pub Reach-IsWithin : {s t : B.State} → IsWithin (B.held s) → Reach s t → IsWithin (B.held t)
  Reach-IsWithin h here = h
  Reach-IsWithin h (next r step) = Step-IsWithin step (Reach-IsWithin h r)
