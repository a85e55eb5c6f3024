-- ===== src/Hub/Sessions/Registering.antt =====
-- What a whole `createBox` leaves.
use llmbox.Prelude.{
  ◌≡◌, refl, sym, ap, subst, ◌∙◌, inl, inr, true, false, not, List, [], ◌∷◌, arith, Bool-cases, In,
  beq_refl, contains, Str, str_eq, ◌==◌, to_lower, Table, Result, ok, failed,
}
use llmbox.Box.Provisioner.{BoxView, CreateOptions}
use llmbox.Hub.Records.{Session, World, persist}
use llmbox.Hub.Sessions.{Server, replaced, release_box_id, drop_terminated_records}
use llmbox.Hub.Sessions.Claiming.{Claims, begin_create_ok, begin_create_failed}
use llmbox.Hub.Sessions.Creating.{
  Made, begin_create, make_box, session_of, register, after_register, finish_create, released,
  rest_of_create, create_box,
}
use llmbox.Hub.Sessions.Syncing.{synced, sync_spoke_inventory, folded, sync_spoke}
use llmbox.Hub.Sessions.Unique.{In-put, In-keep, In-map_values}
use llmbox.Hub.Sessions.Sound.{without_claim}
use llmbox.Hub.Sessions.Sound.Parts.{synced_id}

module _ (W : World) where
  -- A record with the ID under the token.
  abbrev Has : Str → Str → Table Str Session → Type 0
  Has id token m = (s : Session) × In (token, s) m × (s.box_id ≡ id)

  drop-Has :
      (id token : Str) (srv : Server W)
      → Has id token srv.by_token
      → Has id token (drop_terminated_records W id token srv).by_token
  unfolding drop_terminated_records
  drop-Has id token srv (s, at, same) = elim (Bool-cases (id == [])) [
    | inl empty ↦ rw empty (s, at, same)
    | inr given ↦ rw given (
      s,
      In-keep (λ tok x. not (replaced W id token tok x)) token s srv.by_token
          (spared (beq_refl token)) at,
      same,
    )
  ]
    where
      spared : (token == token) ≡ true → not (replaced W id token token s) ≡ true
      spared e = rw e refl

  sync-Has :
      (id token name : Str) (srv : Server W)
      → Has id token srv.by_token
      → Has id token (sync_spoke W name srv).by_token
  unfolding sync_spoke sync_spoke_inventory
  sync-Has id token name srv has = go (W.list name srv.world) has
    where
      go :
          (r : W.State × Result Str (List BoxView))
          → Has id token srv.by_token
          → Has id token (folded W name srv r).by_token
      go (w, failed e) has = has
      go (w, ok boxes) (s, at, same) =
          let f = synced W name boxes w in
          (f s, In-map_values f token s srv.by_token at, synced_id W name boxes w s ∙ same)

  drop_pending :
      (id token : Str) (srv : Server W)
      → (drop_terminated_records W id token srv).pending_box_ids ≡ srv.pending_box_ids
  unfolding drop_terminated_records
  drop_pending id token srv = elim (Bool-cases (id == [])) [
    | inl empty ↦ rw empty refl
    | inr given ↦ rw given refl
  ]

  sync_pending :
      (name : Str) (srv : Server W) → (sync_spoke W name srv).pending_box_ids ≡ srv.pending_box_ids
  unfolding sync_spoke sync_spoke_inventory
  sync_pending name srv = go (W.list name srv.world)
    where
      go :
          (r : W.State × Result Str (List BoxView))
          → (folded W name srv r).pending_box_ids ≡ srv.pending_box_ids
      go (w, failed e) = refl
      go (w, ok boxes) = refl

  without_new : (p : Str) (ps : List Str) → contains ps p ≡ false → without_claim p (p ∷ ps) ≡ ps
  unfolding contains
  without_new p ps fresh = first (beq_refl p)
    where
      none_left : (qs : List Str) → contains qs p ≡ false → without_claim p qs ≡ qs
      none_left [] h = refl
      none_left (q ∷ qs) h =
          let apart : (q == p) ≡ false = ground arith in
          let rest : contains qs p ≡ false = ground arith in
          rw apart (ap (λ x. q ∷ x) (none_left qs rest))

      first : (p == p) ≡ true → without_claim p (p ∷ ps) ≡ ps
      first e = rw e (none_left ps fresh)

  released_as :
      (id : Str) (srv : Server W) (ps : List Str)
      → (id == []) ≡ false
      → srv.pending_box_ids ≡ to_lower id ∷ ps
      → contains ps (to_lower id) ≡ false
      → release_box_id W id srv ≡ record srv { pending_box_ids = ps }
  unfolding release_box_id
  released_as id srv ps given e fresh = rw given (
      ap (λ (x : List Str). record srv { pending_box_ids = x })
        (ap (without_claim (to_lower id)) e ∙ without_new (to_lower id) ps fresh))

  -- What a creation leaves: with a session, a record of the box under its token, and with an error,
  -- the records as they were; and in both cases the claims as they were.
  abbrev pub Leaves : CreateOptions → Server W → Server W × Result Str Session → Type 0
  Leaves opts srv (t, failed e) =
      (t.by_token ≡ srv.by_token) × (t.pending_box_ids ≡ srv.pending_box_ids)
  Leaves opts srv (t, ok sess) =
      Has opts.box_id sess.token t.by_token × (t.pending_box_ids ≡ srv.pending_box_ids)

  begin_given :
      (opts : CreateOptions) (n : Str) (srv : Server W)
      → (begin_create W opts srv).1 ≡ ok n
      → (opts.box_id == []) ≡ false
  unfolding begin_create
  begin_given opts n srv h = elim (Bool-cases (opts.box_id == [])) [
    | inl empty ↦ cc (rw empty at h)
    | inr given ↦ given
  ]

  after_register-Has :
      (opts : CreateOptions) (name : Str) (made : Made W) (sess : Session) (srv : Server W)
      → Has opts.box_id sess.token srv.by_token
      → Has opts.box_id sess.token (after_register W opts name made sess srv).by_token
  unfolding after_register
  after_register-Has opts name made sess srv has =
      let stored = record srv { world = (W.put_box (persist sess) srv.world).0 } in
      sync-Has opts.box_id sess.token name (drop_terminated_records W opts.box_id sess.token stored)
        (drop-Has opts.box_id sess.token stored has)

  after_register_pending :
      (opts : CreateOptions) (name : Str) (made : Made W) (sess : Session) (srv : Server W)
      → (after_register W opts name made sess srv).pending_box_ids ≡ srv.pending_box_ids
  unfolding after_register
  after_register_pending opts name made sess srv =
      let stored = record srv { world = (W.put_box (persist sess) srv.world).0 } in
      sync_pending name (drop_terminated_records W opts.box_id sess.token stored)
      ∙ drop_pending opts.box_id sess.token stored

  finish_pending :
      (opts : CreateOptions) (name : Str) (srv : Server W) (r : W.State × Result Str (Made W))
      → (finish_create W opts name srv r).0.pending_box_ids ≡ srv.pending_box_ids
  unfolding register
  finish_pending opts name srv (w, failed e) = refl
  finish_pending opts name srv (w, ok made) =
      let sess = session_of W opts name made w in
      after_register_pending opts name made sess (register W sess (record srv { world = w }))

  -- The release of the claim, at the end.
  released-Leaves :
      (opts : CreateOptions) (name : Str) (srv t : Server W) (r : W.State × Result Str (Made W))
      → (opts.box_id == []) ≡ false
      → Claims W opts.box_id srv t
      → Leaves opts srv (released W opts.box_id (finish_create W opts name t r))
  unfolding session_of register
  released-Leaves opts name srv t (w, failed e) given (claimed, free, fresh) =
      let u : Server W = record t { world = w } in
      let pending : u.pending_box_ids ≡ to_lower opts.box_id ∷ srv.pending_box_ids =
        ap (λ (x : Server W). x.pending_box_ids) claimed in
      let done = released_as opts.box_id u srv.pending_box_ids given pending fresh in
      (
        ap (λ (x : Server W). x.by_token) done ∙ ap (λ (x : Server W). x.by_token) claimed,
        ap (λ (x : Server W). x.pending_box_ids) done,
      )
  released-Leaves opts name srv t (w, ok made) given (claimed, free, fresh) =
      let sess = session_of W opts name made w in
      let u = (finish_create W opts name t (w, ok made)).0 in
      let pending : u.pending_box_ids ≡ to_lower opts.box_id ∷ srv.pending_box_ids =
        finish_pending opts name t (w, ok made)
        ∙ ap (λ (x : Server W). x.pending_box_ids) claimed in
      let done = released_as opts.box_id u srv.pending_box_ids given pending fresh in
      let has =
        after_register-Has opts name made sess (register W sess (record t { world = w }))
          (sess, In-put sess.token sess t.by_token, refl) in
      (
        subst (Has opts.box_id sess.token) (sym (ap (λ (x : Server W). x.by_token) done)) has,
        ap (λ (x : Server W). x.pending_box_ids) done,
      )

  -- A creation that gives a session has left a record with the box ID that was asked for under
  -- its token, and one that fails has left the records as they were; in both cases the claims are
  -- as they were.
  pub create_box-Leaves :
      (opts : CreateOptions) (srv : Server W) → Leaves opts srv (create_box W opts srv)
  unfolding create_box
  create_box-Leaves opts srv = go (begin_create W opts srv) refl
    where
      go :
          (r : Server W × Result Str Str)
          → begin_create W opts srv ≡ r
          → Leaves opts srv (rest_of_create W opts r)
      go (t, failed e) same =
          let kept =
            ap (λ (x : Server W × Result Str Str). x.0) (sym same)
            ∙ begin_create_failed W opts e srv (ap (λ (x : Server W × Result Str Str). x.1) same) in
          (ap (λ (x : Server W). x.by_token) kept, ap (λ (x : Server W). x.pending_box_ids) kept)
      go (t, ok name) same =
          let said = ap (λ (x : Server W × Result Str Str). x.1) same in
          let (claimed, free, fresh) = begin_create_ok W opts name srv said in
          released-Leaves opts name srv t (make_box W opts name t.world)
            (begin_given opts name srv said)
            (ap (λ (x : Server W × Result Str Str). x.0) (sym same) ∙ claimed, free, fresh)
