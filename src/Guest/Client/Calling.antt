-- ===== src/Guest/Client/Calling.antt =====
-- That a call by the host gives what the agent's handler returned.
use llmbox.Prelude.{
  ℕ, suc, ◌+◌, ◌≡◌, ◌≢◌, refl, sym, ap, ◌∙◌, Bool, true, false, Option, none, some, [], append-nil,
  arith, length, length-append, ◌%◌, ◌^◌, Str, codes, str_eq, str_beq, str_beq_iff, ◌==◌, Result,
  ok, failed,
}
use llmbox.Netfw.Firewall.{Error}
use llmbox.Guest.Words.{Bytes, Writer, read_full, put_uint32, length-put_uint32}
use llmbox.Guest.Frames.{Json, read_frame}
use llmbox.Guest.Frames.Round.{Carries, framed, write_frame-Carries, read_frame-framed}
use llmbox.Guest.Agent.{Request, Response, Os, Codecs}
use llmbox.Guest.Verbs.{Host, dispatch, answer, answered, streams, Served, handle_conn}
use llmbox.Guest.Client.{opened, accepted, received, after_sending, call_raw}

framed_long : {A : Type 0} (J : Json A) (b : Bytes) → (n : ℕ) × (length (framed J b) ≡ suc n)
framed_long J b = (
  3 + length b,
  omega (
    arith,
    length-append (put_uint32 (length b % 2 ^ 32)) b,
    length-put_uint32 (length b % 2 ^ 32),
  ),
)

module _ (O : Os) (C : Codecs) where
  -- What the agent has written on a connection when its loop has returned.
  abbrev written_by : Option (Served O C) → Bytes
  written_by none = []
  written_by (some served) = served.out.written

  -- The agent as the peer of a connection, which the host closes after one request.
  abbrev pub box : Host O → Bytes → Bytes
  box h b = written_by (handle_conn O C (suc (length b)) b h opened)

  -- The response that carries the result of a handler.
  abbrev response_to : Result Str Bytes → Response
  response_to (failed e) = record { err = e; payload = [] }
  response_to (ok b) = record { err = []; payload = b }

  answer-Carries :
      (r : Result Str Bytes) (c : Carries C.response (response_to r))
      → answer O C opened r ≡ (record { written = framed C.response c.0; faults = [] }, true)
  answer-Carries (failed e) c =
      ap (λ (x : Writer × Error). (x.0, true))
        (write_frame-Carries C.response (response_to (failed e)) opened c refl)
  answer-Carries (ok b) c =
      ap (answered O C) (write_frame-Carries C.response (response_to (ok b)) opened c refl)

  read_frame-nil : (read_frame C.request []).1 ≡ failed (codes "EOF")
  unfolding read_frame read_full
  read_frame-nil = refl

  -- One round of the loop, and its end.
  conn_step :
      (fuel : ℕ) (r rest : Bytes) (req : Request) (h : Host O) (w x : Writer)
      → read_frame C.request r ≡ (rest, ok req)
      → streams O C req.verb ≡ false
      → answer O C w (dispatch O C req h).1 ≡ (x, true)
      → handle_conn O C (suc fuel) r h w ≡ handle_conn O C fuel rest (dispatch O C req h).0 x
  unfolding handle_conn
  conn_step fuel r rest req h w x read call said =
      rw
        (
          ap (λ (p : Bytes × Result Str Request). p.1) read,
          ap (λ (p : Bytes × Result Str Request). p.0) read,
          call,
          ap (λ (p : Writer × Bool). p.1) said,
          ap (λ (p : Writer × Bool). p.0) said,
          handle_conn,
        )
        refl

  conn_end :
      (fuel : ℕ) (h : Host O) (w : Writer)
      → handle_conn O C (suc fuel) [] h w ≡ some (record { host = h; out = w; handed = none })
  unfolding handle_conn
  conn_end fuel h w = rw (read_frame-nil, handle_conn) refl

  accepted-response_to : (r : Result Str Bytes) → r ≢ failed [] → accepted (response_to r) ≡ r
  unfolding str_beq
  accepted-response_to (ok b) said = refl
  accepted-response_to (failed e) said =
      let present : e ≢ [] = λ empty. said (ap failed empty) in
      let other : (e == []) ≡ false = ground (arith, str_beq_iff e []) in rw other refl

  read_carried :
      {A : Type 0} (J : Json A) (v : A) (c : Carries J v) → read_frame J (framed J c.0) ≡ ([], ok v)
  read_carried J v (b, encoded, fits, decoded) =
      ap (read_frame J) (sym (append-nil (framed J b)))
      ∙ read_frame-framed J b [] fits
      ∙ ap (λ r. ([], r)) decoded

  replied :
      (req : Request) (h : Host O)
      → streams O C req.verb ≡ false
      → (fits : Carries C.request req)
      → (answered : Carries C.response (response_to (dispatch O C req h).1))
      → box h (framed C.request fits.0) ≡ framed C.response answered.0
  replied req h call fits answered =
      let sent = framed C.request fits.0 in
      let x : Writer = record { written = framed C.response answered.0; faults = [] } in
      let (n, long) = framed_long C.request fits.0 in
      ap written_by (
        conn_step (length sent) sent [] req h opened x (read_carried C.request req fits) call
          (answer-Carries (dispatch O C req h).1 answered)
        ∙ ap (λ m. handle_conn O C m [] (dispatch O C req h).0 x) long
        ∙ conn_end n (dispatch O C req h).0 x)

  -- A call of a verb that is no stream, whose request fits into a frame and whose response does,
  -- with payloads that are decoded to what was encoded, gives what the handler of the agent
  -- returned, unless that is the empty error.
  pub call-dispatch :
      (req : Request) (h : Host O)
      → streams O C req.verb ≡ false
      → Carries C.request req
      → Carries C.response (response_to (dispatch O C req h).1)
      → (dispatch O C req h).1 ≢ failed []
      → call_raw C.request C.response (box h) req.verb req.payload ≡ (dispatch O C req h).1
  unfolding call_raw
  call-dispatch req h call fits answered said =
      let result = (dispatch O C req h).1 in
      let sent = framed C.request fits.0 in
      let back = framed C.response answered.0 in
      let verb = req.verb in
      ap (after_sending C.request C.response (box h) verb)
        (write_frame-Carries C.request req opened fits refl)
      ∙ ap (λ b. received C.request C.response (box h) verb (read_frame C.response b).1)
          (replied req h call fits answered)
      ∙ ap (λ (p : Bytes × Result Str Response). received C.request C.response (box h) verb p.1)
          (read_carried C.response (response_to result) answered)
      ∙ accepted-response_to result said
