-- ===== src/Guest/Verbs/Serving.antt =====
-- That the loop over a connection returns.
use llmbox.Prelude.{
  ℕ, zero, suc, ◌<◌, ◌≡◌, refl, inl, inr, none, some, arith, Bool-cases, length, Result-cases,
}
use llmbox.Guest.Words.{Bytes, Writer}
use llmbox.Guest.Frames.{read_frame}
use llmbox.Guest.Frames.Bounds.{read_frame_shrinks}
use llmbox.Guest.Agent.{Os, Codecs}
use llmbox.Guest.Verbs.{Host, dispatch, answer, streams, Served, handle_conn}

module _ (O : Os) (C : Codecs) where
  -- With more fuel than a connection delivers bytes, whatever they are, the loop over the
  -- connection returns.
  pub handle_conn_returns :
      (fuel : ℕ) (r : Bytes) (h : Host O) (w : Writer)
      → length r < fuel
      → (served : Served O C) × (handle_conn O C fuel r h w ≡ some served)
  unfolding handle_conn
  handle_conn_returns zero r h w enough = absurd (omega arith)
  handle_conn_returns (suc fuel) r h w enough = elim (Result-cases (read_frame C.request r).1) [
    | inr (e, ended) ↦ (record { host = h; out = w; handed = none }, rw (ended, handle_conn) refl)
    | inl (req, got) ↦
        let rest = (read_frame C.request r).0 in
        let done = dispatch O C req h in
        let sent = answer O C w done.1 in
        elim (Bool-cases (streams O C req.verb)) [
          | inl stream ↦ (
            record { host = h; out = w; handed = some (req, rest) },
            rw (got, stream, handle_conn) refl,
          )
          | inr call ↦ elim (Bool-cases sent.1) [
            | inr stop ↦ (
              record { host = done.0; out = sent.0; handed = none },
              rw (got, call, stop, handle_conn) refl,
            )
            | inl go ↦
                let shorter = read_frame_shrinks C.request r req got in
                let (served, e) = handle_conn_returns fuel rest done.0 sent.0 (omega arith) in
                (served, rw (got, call, go, handle_conn) e)
          ]
        ]
  ]
