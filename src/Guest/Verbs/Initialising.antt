-- ===== src/Guest/Verbs/Initialising.antt =====
-- That a box is initialised once, and what each outcome of `Init` leaves behind.
use llmbox.Prelude.{
  ◌≡◌, refl, sym, ap, subst, ◌∙◌, inl, inr, true, false, not, Option, none, some, List, [], ◌∷◌,
  arith, if◌then◌else◌, Bool-cases, Str, codes, str_eq, ◌==◌, Result, ok, failed,
}
use llmbox.Netfw.Firewall.{Error}
use llmbox.Guest.Frames.{Json}
use llmbox.Guest.Agent.{InitReq, InitResp, Request, Os, Codecs, Agent, write_files, run_init_script}
use llmbox.Guest.Verbs.{
  Host, init_ended, init_written, handle_init, handle_exec, marshalled, dispatch_init,
  dispatch_exec, dispatch, verb_init, verb_exec,
}

module _ (O : Os) where
  -- What an attempt leaves of the agent `a`: all of it where it is refused, and else the request
  -- with the mark that it was carried out, unless its script failed.
  abbrev pub Leaves : InitReq → Agent → Host O × Result Str InitResp → Type 0
  Leaves req a (h, failed e) = h.0 ≡ a
  Leaves req a (h, ok resp) = h.0 ≡ record a { init_req = req; inited = not resp.script_failed }

  init_ended-Leaves :
      (req : InitReq) (a : Agent) (r : O.State × Option (Str × Str))
      → a.inited ≡ false
      → Leaves req a (init_ended O (record a { init_req = req }) r)
  init_ended-Leaves req a (s, none) fresh = refl
  init_ended-Leaves req a (s, some f) fresh = ground arith

  init_written-Leaves :
      (req : InitReq) (a : Agent) (r : O.State × Error)
      → a.inited ≡ false
      → Leaves req a (init_written O a req r)
  init_written-Leaves req a (s, some e) fresh = refl
  init_written-Leaves req a (s, none) fresh = elim (Bool-cases (req.init_script == [])) [
    | inl absent ↦ rw absent (init_ended-Leaves req a (s, none) fresh)
    | inr present ↦
        rw present
          (init_ended-Leaves req a (run_init_script O (record a { init_req = req }) req s) fresh)
  ]

  init-Leaves :
      (req : InitReq) (a : Agent) (s : O.State)
      → a.inited ≡ false
      → Leaves req a (handle_init O req (a, s))
  unfolding handle_init
  init-Leaves req a s fresh =
      let attempt = init_written O a req (write_files O req.files s) in
      subst
        (λ b. Leaves req a (if b then ((a, s), failed (codes "already initialised")) else attempt))
        (sym fresh) (init_written-Leaves req a (write_files O req.files s) fresh)

  again_refused :
      (req : InitReq) (h : Host O)
      → h.0.inited ≡ true
      → handle_init O req h ≡ (h, failed (codes "already initialised"))
  unfolding handle_init
  again_refused req (a, s) done = rw done refl

  done-Leaves :
      (req : InitReq) (a : Agent) (r : Host O × Result Str InitResp) (resp : InitResp)
      → Leaves req a r
      → r.1 ≡ ok resp
      → resp.script_failed ≡ false
      → r.0.0.inited ≡ true
  done-Leaves req a (h, failed e) resp left got fine = cc got
  done-Leaves req a (h, ok resp') resp left got fine =
      let same : resp' ≡ resp = cc got in
      ap (λ (b : Agent). b.inited) left
      ∙ ap (λ (x : InitResp). not x.script_failed) same
      ∙ rw fine refl

  init_done :
      (req : InitReq) (h : Host O) (resp : InitResp)
      → (handle_init O req h).1 ≡ ok resp
      → resp.script_failed ≡ false
      → (handle_init O req h).0.0.inited ≡ true
  unfolding handle_init
  init_done req (a, s) resp got fine = elim (Bool-cases a.inited) [
    | inl already ↦ cc (rw already at got)
    | inr fresh ↦
        done-Leaves req a (handle_init O req (a, s)) resp (init-Leaves req a s fresh) got fine
  ]

  module _ (C : Codecs) where
    -- The host after a sequence of requests.
    abbrev pub dispatch_all : List Request → Host O → Host O
    dispatch_all [] h = h
    dispatch_all (r ∷ rs) h = dispatch_all rs (dispatch O C r h).0

    marshalled_host :
        {A : Type 0} (J : Json A) (r : Host O × Result Str A) → (marshalled O J r).0 ≡ r.0
    marshalled_host J (h, ok v) = refl
    marshalled_host J (h, failed e) = refl

    exec_keeps : (cmd : List Str) (h : Host O) → (handle_exec O cmd h).0.0 ≡ h.0
    unfolding handle_exec
    exec_keeps [] h = refl
    exec_keeps (c ∷ args) h = refl

    dispatch_init_keeps :
        (h : Host O) (r : Result Str InitReq)
        → h.0.inited ≡ true
        → (dispatch_init O C h r).0.0.inited ≡ true
    dispatch_init_keeps h (failed e) done = done
    dispatch_init_keeps h (ok req) done =
        ap (λ (x : Host O). x.0.inited)
          (marshalled_host C.init_resp (handle_init O req h)
            ∙ ap (λ (x : Host O × Result Str InitResp). x.0) (again_refused req h done))
        ∙ done

    dispatch_exec_keeps :
        (h : Host O) (r : Result Str (List Str))
        → h.0.inited ≡ true
        → (dispatch_exec O C h r).0.0.inited ≡ true
    dispatch_exec_keeps h (failed e) done = done
    dispatch_exec_keeps h (ok cmd) done =
        ap (λ (x : Host O). x.0.inited) (marshalled_host C.exec_result (handle_exec O cmd h))
        ∙ ap (λ (x : Agent). x.inited) (exec_keeps cmd h)
        ∙ done

    dispatch_keeps :
        (r : Request) (h : Host O) → h.0.inited ≡ true → (dispatch O C r h).0.0.inited ≡ true
    unfolding dispatch
    dispatch_keeps r h done = elim (Bool-cases (r.verb == verb_init O)) [
      | inl init ↦ rw init (dispatch_init_keeps h (C.init_req.unmarshal r.payload) done)
      | inr other ↦ elim (Bool-cases (r.verb == verb_exec O)) [
        | inl exec ↦ rw (other, exec) (dispatch_exec_keeps h (C.exec_req.unmarshal r.payload) done)
        | inr unknown ↦ rw (other, unknown) done
      ]
    ]

    dispatch_all_keeps :
        (rs : List Request) (h : Host O) → h.0.inited ≡ true → (dispatch_all rs h).0.inited ≡ true
    dispatch_all_keeps [] h done = done
    dispatch_all_keeps (r ∷ rs) h done =
        dispatch_all_keeps rs (dispatch O C r h).0 (dispatch_keeps r h done)

    -- After an initialisation that succeeded and whose script did not fail, and any requests
    -- that follow it, another initialisation is refused and changes nothing.
    pub initialised_once :
        (req again : InitReq) (h : Host O) (resp : InitResp) (rs : List Request)
        → (handle_init O req h).1 ≡ ok resp
        → resp.script_failed ≡ false
        → handle_init O again (dispatch_all rs (handle_init O req h).0)
          ≡ (dispatch_all rs (handle_init O req h).0, failed (codes "already initialised"))
    initialised_once req again h resp rs got fine =
        again_refused again (dispatch_all rs (handle_init O req h).0)
          (dispatch_all_keeps rs (handle_init O req h).0 (init_done req h resp got fine))
