-- ===== src/Box/Fake/Contract.antt =====
-- That the backend in memory does what the manager relies on.
use llmbox.Prelude.{
  suc, ◌≡◌, ◌≢◌, refl, sym, ap, ◌∙◌, ◌⊎◌, inl, inr, Bool, true, false, Option, none, some, List, [],
  ◌∷◌, ◌++◌, map, ℤ, Bool-cases, Option-cases, All, In, Str, str_eq, str_beq_iff, Result, ok,
  failed, length, subst,
}
use llmbox.Box.Keys.{length-map}
use llmbox.Netfw.Firewall.{Error}
use llmbox.Guest.Agent.{InitReq, Os}
use llmbox.Guest.Verbs.{Host}
use llmbox.Box.Provisioner.{
  Backend, BoxView, CreateOptions, CopyFile, not_found, Key, key_of, without,
}
use llmbox.Box.Fake
use llmbox.Box.Fake.{
  fake_id, FakeInstance, meta, fake_key, next_end, has_id, named, answers_to, first_with, ended,
  provisioned, paused, resumed, stopped, served, hosted,
}
use llmbox.Box.Fake.Calls
use llmbox.Box.Fake.Calls.{reach, open_file, file_size, stream_file}
use llmbox.Box.Fake.Boxes.{
  keys, first_with-none, list_keys, keys-filter, absent_keys, fresh_number, added_keys,
  changed_keys, found_ok, found_failed,
}

module _ (O : Os) where
  abbrev pub held : Fake.Fake O → List Key
  held f = keys O f.insts

  provisioned_adds :
      (o : CreateOptions) (f : Fake.Fake O) (b : BoxView) (e : Error)
      → (provisioned O o f e).1 ≡ ok b
      → (held (provisioned O o f e).0 ≡ held f ++ key_of b ∷ [])
        × (b.box_id ≡ o.box_id)
        × (without b.instance_id (held f) ≡ held f)
  unfolding meta
  provisioned_adds o f b (some e) h = cc h
  provisioned_adds o f b none h =
      let i = Fake.started O o f in
      let same : meta O i ≡ b = cc h in
      (
        added_keys O f.insts i ∙ ap (λ b. held f ++ key_of b ∷ []) same,
        ap (λ (b : BoxView). b.box_id) (sym same),
        ap (λ (b : BoxView). without b.instance_id (held f)) (sym same)
            ∙ absent_keys O (fake_id (suc f.n)) f.insts (fresh_number O f.n f.insts f.numbered),
      )

  provisioned_failed :
      (o : CreateOptions) (f : Fake.Fake O) (x : Error) (e : Str)
      → (provisioned O o f x).1 ≡ failed e
      → held (provisioned O o f x).0 ≡ held f
  provisioned_failed o f (some x) e h = refl
  provisioned_failed o f none e h = cc h

  ended_gone :
      (id e : Str) (f : Fake.Fake O)
      → ended O id (first_with O (has_id O id) f.insts) ≡ some (not_found e)
      → without id (held f) ≡ held f
  ended_gone id e f h = elim (Option-cases (first_with O (has_id O id) f.insts)) [
    | inl absent ↦ absent_keys O id f.insts (first_with-none O (has_id O id) f.insts absent)
    | inr (i, there) ↦ cc (rw there at h)
  ]

  paused_keeps :
      (id : Str) (f : Fake.Fake O) (r : Option (FakeInstance O)) → held (paused O id f r).0 ≡ held f
  paused_keeps id f none = refl
  paused_keeps id f (some i) = changed_keys O id (stopped O) f.insts (λ i. refl)

  resumed_keeps :
      (id : Str) (f : Fake.Fake O) (r : Option (FakeInstance O)) (e : Error)
      → held (resumed O id f r e).0 ≡ held f
  resumed_keeps id f none e = refl
  resumed_keeps id f (some i) (some e) = refl
  resumed_keeps id f (some i) none = changed_keys O id (served O f) f.insts (λ i. refl)

  reach_keeps :
      {R : Type 0} (id : Str) (call : Host O → Host O × Result Str R) (f : Fake.Fake O)
      (r : Option (FakeInstance O))
      → held (reach O id call f r).0 ≡ held f
  reach_keeps id call f none = refl
  reach_keeps id call f (some i) = elim (Bool-cases i.paused) [
    | inl stop ↦ rw stop refl
    | inr go ↦ rw go (changed_keys O id (hosted O (call i.host).0) f.insts (λ i. refl))
  ]

  pub listed :
      (f : Fake.Fake O) (found : List BoxView)
      → (Fake.list O f).1 ≡ ok found
      → (length found ≡ length (held f)) × ((k : Key) → In k (held f) → In k (map key_of found))
  unfolding Fake.list
  listed f found h =
      let same : map (meta O) f.insts ≡ found = cc h in
      let keys_of = ap (map key_of) (sym same) ∙ list_keys O f.insts in
      (
        sym (length-map key_of found) ∙ ap length keys_of,
        λ k there. subst (In k) (sym keys_of) there,
      )

  pub provision_adds :
      (o : CreateOptions) (f : Fake.Fake O) (b : BoxView)
      → (Fake.provision O o f).1 ≡ ok b
      → (held (Fake.provision O o f).0 ≡ held f ++ key_of b ∷ [])
        × (b.box_id ≡ o.box_id)
        × (without b.instance_id (held f) ≡ held f)
  unfolding Fake.provision
  provision_adds o f b = provisioned_adds o f b (next_end O f.faults)

  pub provision_failed :
      (o : CreateOptions) (f : Fake.Fake O) (e : Str)
      → (Fake.provision O o f).1 ≡ failed e
      → held (Fake.provision O o f).0 ≡ held f
  unfolding Fake.provision
  provision_failed o f = provisioned_failed o f (next_end O f.faults)

  pub destroy_removes :
      (id : Str) (f : Fake.Fake O) → held (Fake.destroy O id f).0 ≡ without id (held f)
  unfolding Fake.destroy
  destroy_removes id f = keys-filter O id f.insts

  pub destroy_gone :
      (id e : Str) (f : Fake.Fake O)
      → (Fake.destroy O id f).1 ≡ some (not_found e)
      → without id (held f) ≡ held f
  unfolding Fake.destroy
  destroy_gone id e f = ended_gone id e f

  pub list_keeps : (f : Fake.Fake O) → held (Fake.list O f).0 ≡ held f
  unfolding Fake.list
  list_keeps f = refl

  pub find_keeps : (id : Str) (f : Fake.Fake O) → held (Fake.find O id f).0 ≡ held f
  unfolding Fake.find
  find_keeps id f = refl

  pub find_gives :
      (id : Str) (f : Fake.Fake O) (b : BoxView)
      → (Fake.find O id f).1 ≡ ok b
      → In (key_of b) (held f) × (answers_to O id b ≡ true)
  unfolding Fake.find
  find_gives id f b = found_ok O id f.insts _ _ b refl refl

  pub find_none :
      (id e : Str) (f : Fake.Fake O)
      → (Fake.find O id f).1 ≡ failed (not_found e)
      → All (λ k. ((k.0 ≢ id) × (k.1 ≢ id)) ⊎ (id ≡ [])) (held f)
  unfolding Fake.find
  find_none id e f = found_failed O id f.insts _ _ e refl refl

  pub pause_keeps : (id : Str) (f : Fake.Fake O) → held (Fake.pause O id f).0 ≡ held f
  unfolding Fake.pause
  pause_keeps id f = paused_keeps id f (first_with O (has_id O id) f.insts)

  pub resume_keeps : (id : Str) (f : Fake.Fake O) → held (Fake.resume O id f).0 ≡ held f
  unfolding Fake.resume
  resume_keeps id f = resumed_keeps id f (first_with O (has_id O id) f.insts) (next_end O f.faults)

  pub put_file_keeps :
      (id : Str) (file : CopyFile) (n : ℤ) (f : Fake.Fake O)
      → held (Calls.put_file O id file n f).0 ≡ held f
  unfolding Calls.put_file
  put_file_keeps id file n f =
      reach_keeps id (stream_file O file n _) f (first_with O (has_id O id) f.insts)

  pub init_keeps :
      (id : Str) (r : InitReq) (f : Fake.Fake O) → held (Calls.init O id r f).0 ≡ held f
  unfolding Calls.init
  init_keeps id r f = reach_keeps id _ f (first_with O (has_id O id) f.insts)

  pub exec_keeps :
      (id : Str) (c : List Str) (f : Fake.Fake O) → held (Calls.exec O id c f).0 ≡ held f
  unfolding Calls.exec
  exec_keeps id c f = reach_keeps id _ f (first_with O (has_id O id) f.insts)

  -- The backend in memory, with the laws of a backend.
  abbrev pub fake_backend : Backend
  fake_backend = record {
    State = Fake.Fake O;
    held = held;
    provision = Fake.provision O;
    list = Fake.list O;
    find = Fake.find O;
    answers_to = answers_to O;
    destroy = Fake.destroy O;
    pause = Fake.pause O;
    resume = Fake.resume O;
    open_file = open_file O;
    file_size = file_size O;
    put_file = Calls.put_file O;
    init = Calls.init O;
    exec = Calls.exec O;
    list_gives = listed;
    provision_adds = provision_adds;
    provision_failed = provision_failed;
    destroy_at_most = λ id f. inr (destroy_removes id f);
    destroy_removes = λ id f h. destroy_removes id f;
    destroy_gone = destroy_gone;
    list_keeps = list_keeps;
    find_keeps = find_keeps;
    find_gives = find_gives;
    find_none = find_none;
    pause_keeps = pause_keeps;
    resume_keeps = resume_keeps;
    put_file_keeps = put_file_keeps;
    init_keeps = init_keeps;
    exec_keeps = exec_keeps;
  }

  -- A box that is there is destroyed without an error.
  pub fake_safe : (k : Key) (f : Fake.Fake O) → In k (held f) → (Fake.destroy O k.0 f).1 ≡ none
  unfolding Fake.destroy first_with
  fake_safe k f there = let (i, e) = some_box f.insts there in rw e refl
    where
      differs : {b : Bool} → b ≡ true → b ≡ false → ⊥
      differs e e' = cc (sym e ∙ e')

      some_box :
          (xs : List (FakeInstance O))
          → In k (keys O xs)
          → (i : FakeInstance O) × (first_with O (has_id O k.0) xs ≡ some i)
      some_box [] h = absurd h
      some_box (x ∷ xs) h = elim (Bool-cases (has_id O k.0 x)) [
        | inl it ↦ (x, rw (it, first_with) refl)
        | inr apart ↦ elim h [
          | inl same ↦
              absurd (
                differs ((str_beq_iff (fake_id x.number) k.0).1 (ap (λ (j : Key). j.0) same)) apart)
          | inr later ↦ let (i, e) = some_box xs later in (i, rw (apart, first_with) e)
        ]
      ]
