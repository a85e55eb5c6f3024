-- ===== src/Hub/Sessions/Claiming.antt =====
-- What a creation has when its claim was accepted.
use llmbox.Prelude.{
  ◌≡◌, refl, ◌∙◌, inl, inr, false, Option, none, some, [], ◌∷◌, Bool-cases, contains, Str, str_eq,
  ◌==◌, to_lower, Result, ok, failed,
}
use llmbox.Netfw.Firewall.{Error}
use llmbox.Box.Identifiers.{valid_box_id}
use llmbox.Box.Provisioner.{CreateOptions}
use llmbox.Hub.Records.{Session, World}
use llmbox.Hub.Sessions.{Server, first_holder, claim, reserve_box_id, spoke}
use llmbox.Hub.Sessions.Creating.{reserved, reserve_on, begin_create}
use llmbox.Hub.Sessions.Unique.{IsFree, first_holder-IsFree}

module _ (W : World) where
  -- The claim is pending, was not before, and no live record has the ID.
  abbrev pub Claims : Str → Server W → Server W → Type 0
  Claims id srv t =
      (t ≡ record srv { pending_box_ids = to_lower id ∷ srv.pending_box_ids })
      × IsFree (to_lower id) srv.by_token
      × (contains srv.pending_box_ids (to_lower id) ≡ false)

  claim_ok :
      (id : Str) (srv : Server W) (o : Option Session)
      → first_holder id srv.by_token ≡ o
      → (claim W id srv o).1 ≡ none
      → Claims id srv (claim W id srv o).0
  claim_ok id srv (some s) e h = cc h
  claim_ok id srv none e h = elim (Bool-cases (contains srv.pending_box_ids (to_lower id))) [
    | inl taken ↦ cc (rw taken at h)
    | inr fresh ↦ rw fresh (refl, first_holder-IsFree id srv.by_token e, refl)
  ]

  claim_failed :
      (id x : Str) (srv : Server W) (o : Option Session)
      → (claim W id srv o).1 ≡ some x
      → (claim W id srv o).0 ≡ srv
  claim_failed id x srv (some s) h = refl
  claim_failed id x srv none h = elim (Bool-cases (contains srv.pending_box_ids (to_lower id))) [
    | inl taken ↦ rw taken refl
    | inr fresh ↦ cc (rw fresh at h)
  ]

  reserve_ok :
      (id : Str) (srv : Server W)
      → (id == []) ≡ false
      → (reserve_box_id W id srv).1 ≡ none
      → Claims id srv (reserve_box_id W id srv).0
  unfolding reserve_box_id
  reserve_ok id srv given h =
      rw given (claim_ok id srv (first_holder id srv.by_token) refl (rw given at h))

  reserve_failed :
      (id x : Str) (srv : Server W)
      → (reserve_box_id W id srv).1 ≡ some x
      → (reserve_box_id W id srv).0 ≡ srv
  unfolding reserve_box_id
  reserve_failed id x srv h = elim (Bool-cases (id == [])) [
    | inl empty ↦ rw empty refl
    | inr given ↦ rw given (claim_failed id x srv (first_holder id srv.by_token) (rw given at h))
  ]

  reserved_ok :
      (name n : Str) (r : Server W × Error)
      → (reserved W name r).1 ≡ ok n
      → (r.1 ≡ none) × ((reserved W name r).0 ≡ r.0)
  reserved_ok name n (t, none) h = (refl, refl)
  reserved_ok name n (t, some e) h = cc h

  reserved_failed :
      (name x : Str) (srv : Server W) (r : Server W × Error)
      → ((e : Str) → r.1 ≡ some e → r.0 ≡ srv)
      → (reserved W name r).1 ≡ failed x
      → (reserved W name r).0 ≡ srv
  reserved_failed name x srv (t, none) same h = cc h
  reserved_failed name x srv (t, some e) same h = same e refl

  reserve_on_ok :
      (id n : Str) (srv : Server W) (r : Result Str Str)
      → (id == []) ≡ false
      → (reserve_on W id srv r).1 ≡ ok n
      → Claims id srv (reserve_on W id srv r).0
  reserve_on_ok id n srv (failed e) given h = cc h
  reserve_on_ok id n srv (ok name) given h =
      let (done, same) = reserved_ok name n (reserve_box_id W id srv) h in
      let (pending, free, fresh) = reserve_ok id srv given done in (same ∙ pending, free, fresh)

  reserve_on_failed :
      (id x : Str) (srv : Server W) (r : Result Str Str)
      → (reserve_on W id srv r).1 ≡ failed x
      → (reserve_on W id srv r).0 ≡ srv
  reserve_on_failed id x srv (failed e) h = refl
  reserve_on_failed id x srv (ok name) h =
      reserved_failed name x srv (reserve_box_id W id srv) (λ e. reserve_failed id e srv) h

  pub begin_create_ok :
      (opts : CreateOptions) (n : Str) (srv : Server W)
      → (begin_create W opts srv).1 ≡ ok n
      → Claims opts.box_id srv (begin_create W opts srv).0
  unfolding begin_create
  begin_create_ok opts n srv h = elim (Bool-cases (opts.box_id == [])) [
    | inl empty ↦ cc (rw empty at h)
    | inr given ↦ elim (Bool-cases (valid_box_id opts.box_id)) [
      | inr malformed ↦ cc (rw (given, malformed) at h)
      | inl formed ↦
          rw (given, formed)
            (reserve_on_ok opts.box_id n srv (spoke W opts.spoke_name srv.world) given
              (rw (given, formed) at h))
    ]
  ]

  pub begin_create_failed :
      (opts : CreateOptions) (x : Str) (srv : Server W)
      → (begin_create W opts srv).1 ≡ failed x
      → (begin_create W opts srv).0 ≡ srv
  unfolding begin_create
  begin_create_failed opts x srv h = elim (Bool-cases (opts.box_id == [])) [
    | inl empty ↦ rw empty refl
    | inr given ↦ elim (Bool-cases (valid_box_id opts.box_id)) [
      | inr malformed ↦ rw (given, malformed) refl
      | inl formed ↦
          rw (given, formed)
            (reserve_on_failed opts.box_id x srv (spoke W opts.spoke_name srv.world)
              (rw (given, formed) at h))
    ]
  ]
