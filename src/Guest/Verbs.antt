-- ===== src/Guest/Verbs.antt =====
-- internal/guest/guest.go: the verbs of the agent, and its loop over the frames of a connection. The
-- verbs that turn the connection into a stream of bytes end the loop.
pub mod Initialising
pub mod Serving
use llmbox.Prelude.{
  ℕ, zero, suc, ◌*◌, ◌^◌, Bool, true, false, Option, none, some, List, [], ◌∷◌, ◌++◌, pos,
  if◌then◌else◌, Str, codes, str_eq, str_beq, ◌==◌, Result, ok, failed,
}
use llmbox.Netfw.Firewall.{Error}
use llmbox.Guest.Words.{Bytes, Writer}
use llmbox.Guest.Frames.{Json, write_frame, read_frame}
use llmbox.Guest.Agent.{
  InitReq, InitResp, ExecResult, Request, Response, Ran, Os, Codecs, Agent, cap_output, write_files,
  entry_env, run_init_script,
}

abbrev pub succeeded : InitResp
succeeded = record { script_failed = false; script_error = []; script_output = [] }

abbrev script_failure : Str × Str → InitResp
script_failure (output, e) = record {
  script_failed = true;
  script_error = e;
  script_output = output;
}

-- `%q` of a verb, which is a text without quotes.
abbrev quoted : Str → Str
quoted s = b'"' ∷ s ++ b'"' ∷ []

module _ (O : Os) where
  abbrev pub Host : Type 0
  Host = Agent × O.State

  -- The end of `handleInit`, after the script.
  abbrev init_ended : Agent → O.State × Option (Str × Str) → Host × Result Str InitResp
  init_ended a (s, some f) = ((a, s), ok (script_failure f))
  init_ended a (s, none) = ((record a { inited = true }, s), ok succeeded)

  abbrev init_written : Agent → InitReq → O.State × Error → Host × Result Str InitResp
  init_written a req (s, some e) = ((a, s), failed e)
  init_written a req (s, none) =
      let kept = record a { init_req = req } in
      if req.init_script == []
      then init_ended kept (s, none)
      else init_ended kept (run_init_script O kept req s)

  -- `handleInit`.
  unfoldable pub handle_init : InitReq → Host → Host × Result Str InitResp
  unfolding write_files run_init_script
  handle_init req (a, s) =
      if a.inited
      then ((a, s), failed (codes "already initialised"))
      else init_written a req (write_files O req.files s)

  abbrev exec_ended : Ran → Result Str ExecResult
  exec_ended ran =
      let captured = ok (record {
        stdout = cap_output ran.out;
        stderr = cap_output ran.err;
        exit_code = ran.code;
      }) in
      elim ran.error [
        | none ↦ captured
        | some e ↦ if ran.exited then captured else failed (codes "running command: " ++ e)
      ]

  -- `handleExec`.
  unfoldable pub handle_exec : List Str → Host → Host × Result Str ExecResult
  unfolding entry_env cap_output
  handle_exec [] (a, s) = ((a, s), failed (codes "empty command"))
  handle_exec (c ∷ args) (a, s) =
      let ran =
        O.run
          (record { argv = c ∷ args; env = entry_env O a; dir = []; cred = a.cred; timeout = none })
          s in
      ((a, ran.0), exec_ended ran.1)

  abbrev pub verb_init : Str
  verb_init = codes "init"

  abbrev pub verb_exec : Str
  verb_exec = codes "exec"

  abbrev marshalled : {A : Type 0} → Json A → Host × Result Str A → Host × Result Str Bytes
  marshalled J (h, failed e) = (h, failed e)
  marshalled J (h, ok v) = (h, J.marshal v)

  module _ (C : Codecs) where
    abbrev dispatch_init : Host → Result Str InitReq → Host × Result Str Bytes
    dispatch_init h (failed e) = (h, failed (codes "decoding init: " ++ e))
    dispatch_init h (ok req) = marshalled C.init_resp (handle_init req h)

    abbrev dispatch_exec : Host → Result Str (List Str) → Host × Result Str Bytes
    dispatch_exec h (failed e) = (h, failed (codes "decoding exec: " ++ e))
    dispatch_exec h (ok cmd) = marshalled C.exec_result (handle_exec cmd h)

    -- `dispatch`.
    unfoldable pub dispatch : Request → Host → Host × Result Str Bytes
    unfolding handle_init handle_exec
    dispatch r h =
        if r.verb == verb_init
        then dispatch_init h (C.init_req.unmarshal r.payload)
        else (if r.verb == verb_exec
            then dispatch_exec h (C.exec_req.unmarshal r.payload)
            else (h, failed (codes "unknown verb " ++ quoted r.verb)))

    -- The verbs after which the connection carries raw bytes.
    abbrev pub streams : Str → Bool
    streams verb =
        if verb == codes "dial"
        then true
        else (if verb == codes "putfile" then true else verb == codes "pty")

    -- How the loop over a connection ends: what was handed over to a streaming verb, if any, with
    -- the bytes that are left.
    pub record Served : Type 0 where
      pub host : Host
      pub out : Writer
      pub handed : Option (Request × Bytes)

    abbrev pub answered : Writer × Error → Writer × Bool
    answered (w, none) = (w, true)
    answered (w, some e) = (w, false)

    -- The response to one request, and whether the loop goes on after it.
    abbrev pub answer : Writer → Result Str Bytes → Writer × Bool
    answer w (failed e) = ((write_frame C.response (record { err = e; payload = [] }) w).0, true)
    answer w (ok b) = answered (write_frame C.response (record { err = []; payload = b }) w)

    -- `handleConn`, with fuel: nothing when the fuel ran out.
    unfoldable pub handle_conn : ℕ → Bytes → Host → Writer → Option Served
    unfolding dispatch
    handle_conn zero r h w = none
    handle_conn (suc fuel) r h w =
        let got = read_frame C.request r in
        elim got.1 [
          | failed e ↦ some (record { host = h; out = w; handed = none })
          | ok req ↦
              let done = dispatch req h in
              let sent = answer w done.1 in
              let next = handle_conn fuel got.0 done.0 sent.0 in
              if streams req.verb
              then some (record { host = h; out = w; handed = some (req, got.0) })
              else (if sent.1
                  then next
                  else some (record { host = done.0; out = sent.0; handed = none }))
        ]
