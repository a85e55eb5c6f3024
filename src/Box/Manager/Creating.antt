-- ===== src/Box/Manager/Creating.antt =====
-- The ends of a whole `Create`: what each adds and undoes.
use llmbox.Prelude.{
  ◌≡◌, refl, sym, ap, subst, ◌∙◌, inl, inr, Bool, true, not, none, some, List, [], ◌∷◌, ◌++◌,
  append-nil, arith, In, In-append, filter, Str, codes, str_eq, ◌==◌, Result, ok, failed, beq_refl,
  Bool-cases, Option-cases, Result-cases,
}
use llmbox.Netfw.Firewall.{Error}
use llmbox.Guest.Agent.{InitResp}
use llmbox.Box.Provisioner.{Backend, Applier, BoxView, CreateOptions, Key, without}
use llmbox.Box.Manager.{
  Config, CreateResult, admit, copy_files, result_of, initialised, init_request, copied, finish,
  admitted, create,
}
use llmbox.Box.Manager.Admitting.{admit_ok, admit_failed}
use llmbox.Box.Manager.Steps.{copy_files_keeps}

filter-append :
    (p : Key → Bool) (xs ys : List Key) → filter p (xs ++ ys) ≡ filter p xs ++ filter p ys
filter-append p [] ys = refl
filter-append p (x ∷ xs) ys = ground (arith, filter-append p xs ys)

-- Removing the box that was added under a new instance ID.
without-added : (ks : List Key) (k : Key) → without k.0 ks ≡ ks → without k.0 (ks ++ k ∷ []) ≡ ks
without-added ks k fresh =
    filter-append (λ j. not (j.0 == k.0)) ks (k ∷ [])
    ∙ ap (λ x. x ++ without k.0 (k ∷ [])) fresh
    ∙ last (beq_refl k.0)
  where
    last : (k.0 == k.0) ≡ true → ks ++ without k.0 (k ∷ []) ≡ ks
    last e = rw e (append-nil ks)

module _ (B : Backend) (A : Applier) (cfg : Config) where
  -- Tearing a box down succeeds while it is there.
  abbrev IsSafe : Type 0
  IsSafe = (k : Key) (s : B.State) → In k (B.held s) → (B.destroy k.0 s).1 ≡ none

  -- The copies into a box that was admitted, and the call of its agent after them.
  abbrev copies : CreateOptions → B.State → BoxView → B.State × Error
  copies opts s b = copy_files B A cfg cfg.copy_files b.instance_id (admit B A cfg opts s).0

  abbrev initialises : CreateOptions → B.State → BoxView → B.State × Result Str InitResp
  initialises opts s b = B.init b.instance_id (init_request B A cfg opts) (copies opts s b).0

  -- The four ends of `Create`, with the boxes that each leaves.
  pub data Leaves (opts : CreateOptions) (s : B.State) (out : B.State × Result Str CreateResult)
      : Type 0 where
    refused :
        (e : Str)
        → (admit B A cfg opts s).1 ≡ failed e
        → out.1 ≡ failed e
        → B.held out.0 ≡ B.held s
        → Leaves opts s out
    uncopied :
        (b : BoxView) (e : Str)
        → (admit B A cfg opts s).1 ≡ ok b
        → (copies opts s b).1 ≡ some e
        → out.1 ≡ failed (codes "copying files into box: " ++ e)
        → B.held out.0 ≡ B.held s
        → Leaves opts s out
    uninitialised :
        (b : BoxView) (e : Str)
        → (admit B A cfg opts s).1 ≡ ok b
        → (copies opts s b).1 ≡ none
        → (initialises opts s b).1 ≡ failed e
        → out.1 ≡ failed (codes "initialising box: " ++ e)
        → B.held out.0 ≡ B.held s
        → Leaves opts s out
    kept :
        (b : BoxView) (r : InitResp) (res : CreateResult)
        → (admit B A cfg opts s).1 ≡ ok b
        → (copies opts s b).1 ≡ none
        → (initialises opts s b).1 ≡ ok r
        → out.1 ≡ ok res
        → res.instance_id ≡ b.instance_id
        → res.init_script_failed ≡ r.script_failed
        → B.held out.0 ≡ B.held s ++ (b.instance_id, opts.box_id) ∷ []
        → Leaves opts s out

  torn_down_leaves :
      (ks : List Key) (k : Key) (s : B.State)
      → IsSafe
      → without k.0 ks ≡ ks
      → B.held s ≡ ks ++ k ∷ []
      → B.held (B.destroy k.0 s).0 ≡ ks
  torn_down_leaves ks k s safe fresh added =
      let there = subst (In k) (sym added) ((In-append k ks (k ∷ [])).1 (inr (inl refl))) in
      B.destroy_removes k.0 s (safe k s there) ∙ ap (without k.0) added ∙ without-added ks k fresh

  -- What each part of `Create` comes to, by the result of the call before it.
  admitted_failed :
      (opts : CreateOptions) (r : B.State × Result Str BoxView) (e : Str)
      → r.1 ≡ failed e
      → admitted B A cfg opts r ≡ (r.0, failed e)
  admitted_failed opts (t, ok b) e h = cc h
  admitted_failed opts (t, failed x) e h = cc h

  admitted_ok :
      (opts : CreateOptions) (r : B.State × Result Str BoxView) (b : BoxView)
      → r.1 ≡ ok b
      → admitted B A cfg opts r ≡ finish B A cfg opts b.instance_id r.0
  admitted_ok opts (t, ok x) b h =
      let same : x ≡ b = cc h in ap (λ (y : BoxView). finish B A cfg opts y.instance_id t) same
  admitted_ok opts (t, failed x) b h = cc h

  copied_failed :
      (opts : CreateOptions) (id : Str) (r : B.State × Error) (e : Str)
      → r.1 ≡ some e
      → copied B A cfg opts id r
        ≡ ((B.destroy id r.0).0, failed (codes "copying files into box: " ++ e))
  copied_failed opts id (t, none) e h = cc h
  copied_failed opts id (t, some x) e h = cc h

  copied_ok :
      (opts : CreateOptions) (id : Str) (r : B.State × Error)
      → r.1 ≡ none
      → copied B A cfg opts id r
        ≡ initialised B A cfg id (B.init id (init_request B A cfg opts) r.0)
  copied_ok opts id (t, none) h = refl
  copied_ok opts id (t, some x) h = cc h

  initialised_failed :
      (id : Str) (r : B.State × Result Str InitResp) (e : Str)
      → r.1 ≡ failed e
      → initialised B A cfg id r ≡ ((B.destroy id r.0).0, failed (codes "initialising box: " ++ e))
  initialised_failed id (t, ok x) e h = cc h
  initialised_failed id (t, failed x) e h = cc h

  initialised_ok :
      (id : Str) (r : B.State × Result Str InitResp) (i : InitResp)
      → r.1 ≡ ok i
      → initialised B A cfg id r ≡ (r.0, ok (result_of B A cfg id i))
  initialised_ok id (t, ok x) i h =
      let same : x ≡ i = cc h in ap (λ y. (t, ok (result_of B A cfg id y))) same
  initialised_ok id (t, failed x) i h = cc h

  result_of_lem :
      (id : Str) (r : InitResp)
      → ((result_of B A cfg id r).instance_id ≡ id)
        × ((result_of B A cfg id r).init_script_failed ≡ r.script_failed)
  result_of_lem id r = elim (Bool-cases r.script_failed) [
    | inl broken ↦ rw broken (refl, refl)
    | inr fine ↦ rw fine (refl, refl)
  ]

  module _ (opts : CreateOptions) (s : B.State) (b : BoxView)
      (done : (admit B A cfg opts s).1 ≡ ok b) where
    abbrev key : Key
    key = (b.instance_id, opts.box_id)

    -- The box is there, under a new instance ID, until it is torn down.
    fresh_lem : without b.instance_id (B.held s) ≡ B.held s
    fresh_lem = let (_, fresh, _, _) = admit_ok B A cfg opts s b done in fresh

    copies_lem : B.held (copies opts s b).0 ≡ B.held s ++ key ∷ []
    copies_lem =
        let ((adds, named), _, _, _) = admit_ok B A cfg opts s b done in
        copy_files_keeps B A cfg cfg.copy_files b.instance_id (admit B A cfg opts s).0
        ∙ adds
        ∙ ap (λ i. B.held s ++ (b.instance_id, i) ∷ []) named

    initialises_lem : B.held (initialises opts s b).0 ≡ B.held s ++ key ∷ []
    initialises_lem = B.init_keeps b.instance_id _ (copies opts s b).0 ∙ copies_lem

    -- `create`, once the box is admitted, comes to the part after its copies.
    created : create B A cfg opts s ≡ copied B A cfg opts b.instance_id (copies opts s b)
    unfolding create finish
    created = admitted_ok opts (admit B A cfg opts s) b done

    created_copied :
        (copies opts s b).1 ≡ none
        → create B A cfg opts s ≡ initialised B A cfg b.instance_id (initialises opts s b)
    created_copied h = created ∙ copied_ok opts b.instance_id (copies opts s b) h

    admitted-Leaves : IsSafe → Leaves opts s (create B A cfg opts s)
    admitted-Leaves safe = elim (Option-cases (copies opts s b).1) [
      | inr (e, broken) ↦
          let same = created ∙ copied_failed opts b.instance_id (copies opts s b) e broken in
          uncopied b e done broken (ap (λ x. x.1) same) (
            ap (λ x. B.held x.0) same
            ∙ torn_down_leaves (B.held s) key (copies opts s b).0 safe fresh_lem copies_lem)
      | inl fine ↦ elim (Result-cases (initialises opts s b).1) [
        | inr (e, broken) ↦
            let same =
              created_copied fine
              ∙ initialised_failed b.instance_id (initialises opts s b) e broken in
            uninitialised b e done fine broken (ap (λ x. x.1) same) (
              ap (λ x. B.held x.0) same
              ∙ torn_down_leaves (B.held s) key (initialises opts s b).0 safe fresh_lem
                  initialises_lem)
        | inl (r, good) ↦
            let same =
              created_copied fine ∙ initialised_ok b.instance_id (initialises opts s b) r good in
            let (instance, script) = result_of_lem b.instance_id r in
            kept b r (result_of B A cfg b.instance_id r) done fine good (ap (λ x. x.1) same)
              instance script (ap (λ x. B.held x.0) same ∙ initialises_lem)
      ]
    ]

  -- Where a box that is there can be torn down, a Create ends by the first of its parts that fails:
  -- when the box is not admitted, a file cannot be copied into it or its agent cannot initialise it,
  -- the error is returned and the boxes are as they were. Otherwise the box is kept under the ID that
  -- was asked for, also when the init script failed, and the result says whether it did.
  pub create-Leaves :
      IsSafe → (opts : CreateOptions) (s : B.State) → Leaves opts s (create B A cfg opts s)
  unfolding create
  create-Leaves safe opts s = elim (Result-cases (admit B A cfg opts s).1) [
    | inl (b, done) ↦ admitted-Leaves opts s b done safe
    | inr (e, broken) ↦
        let same = admitted_failed opts (admit B A cfg opts s) e broken in
        refused e broken (ap (λ x. x.1) same)
          (ap (λ x. B.held x.0) same ∙ admit_failed B A cfg opts s e broken)
  ]
