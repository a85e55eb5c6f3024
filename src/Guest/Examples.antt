-- ===== src/Guest/Examples.antt =====
-- The agent and its protocol at concrete inputs.
use llmbox.Prelude.{
  ℕ, ◌+◌, ◌≤◌, ◌≡◌, refl, sym, true, some, [], ◌∷◌, ◌++◌, arith, pos, length, codes, str_eq,
  str_beq, ok, failed, cut_prefix,
}
use llmbox.Guest.Words
use llmbox.Guest.Words.{Bytes, Writer}
use llmbox.Guest.Frames
use llmbox.Guest.Frames.{max_frame, write_frame, read_frame}
use llmbox.Guest.Frames.Round.{read_frame-write_frame}
use llmbox.Guest.Frames.Bounds.{read_frame_takes}
use llmbox.Guest.Pty
use llmbox.Guest.Pty.{Terminal, pump_input}
use llmbox.Guest.Pty.Pumping.{keys, window, sent, after, pump_returns, pump_sent}
use llmbox.Guest.Agent
use llmbox.Guest.Agent.{Request}
use llmbox.Guest.Verbs
use llmbox.Guest.Verbs.{Served, dispatch, handle_init, handle_conn}
use llmbox.Guest.Verbs.Initialising.{dispatch_all, initialised_once}
use llmbox.Guest.Verbs.Serving.{handle_conn_returns}
use llmbox.Guest.Client
use llmbox.Guest.Client.{opened, call_raw}
use llmbox.Guest.Client.Calling.{box, call-dispatch}
use llmbox.Guest.PutFile
use llmbox.Guest.PutFile.{PutFileReq, is_abs, handle_put_file}
use llmbox.Guest.PutFile.Acknowledging.{IsWritten, put_file_acknowledged}
use llmbox.Guest.Machine.{small_os, text_codec, script_request, small_codecs, new_agent}

-- What the examples compute with.
computing : Unit {0}
unfolding Words.put_uint32 Words.uint32 Words.put_uint16 Words.uint16 Words.read_full Words.write
    Frames.write_frame Frames.read_frame Pty.encode_control Pty.encode_resize Pty.next_message
    Pty.apply_message Pty.pump_input Agent.cap_output Agent.has_env_key Agent.home_from_env
    Agent.write_inject_file Agent.write_files Agent.entry_env Agent.run_init_script
    Verbs.handle_init Verbs.handle_exec Verbs.dispatch Verbs.handle_conn Client.call_raw
    PutFile.write_put_file PutFile.handle_put_file str_beq cut_prefix
computing = tt

read_frame-write_frame_example :
    (out : Bytes) × ((write_frame text_codec (codes "hi") opened).0.written ≡ [] ++ out)
    × ((rest : Bytes) → read_frame text_codec (out ++ rest) ≡ (rest, ok (codes "hi")))
unfolding computing
read_frame-write_frame_example =
    read_frame-write_frame text_codec (codes "hi") opened (λ b h. sym h) refl

read_frame_takes_example :
    length (0 ∷ 0 ∷ 0 ∷ 1 ∷ codes "hi")
    ≤ length (read_frame text_codec (0 ∷ 0 ∷ 0 ∷ 1 ∷ codes "hi")).0 + max_frame + 4
read_frame_takes_example = read_frame_takes text_codec (0 ∷ 0 ∷ 0 ∷ 1 ∷ codes "hi")

abbrev screen : Terminal
screen = record { master = opened; cols = 80; rows = 24 }

pump_returns_example :
    (final : Terminal) × (pump_input 9 (0 ∷ 0 ∷ 0 ∷ 0 ∷ 2 ∷ codes "ls") screen ≡ some final)
pump_returns_example = pump_returns 9 (0 ∷ 0 ∷ 0 ∷ 0 ∷ 2 ∷ codes "ls") screen (omega arith)

pump_sent_example :
    pump_input 99 (sent (keys (codes "ls") ∷ window 100 30 ∷ [])) screen
    ≡ some (after (keys (codes "ls") ∷ window 100 30 ∷ []) screen)
unfolding computing
pump_sent_example =
    pump_sent (keys (codes "ls") ∷ window 100 30 ∷ []) 99 screen
      (omega arith, ((omega arith, omega arith), tt)) refl (omega arith)

abbrev exec_hello : Request
exec_hello = record { verb = codes "exec"; payload = codes "greet" }

initialised_once_example :
    handle_init small_os (script_request []) (
      dispatch_all small_os small_codecs
        (exec_hello ∷ [])
        (handle_init small_os (script_request (codes "setup")) (new_agent, [])).0)
    ≡ (
      dispatch_all small_os small_codecs
          (exec_hello ∷ [])
          (handle_init small_os (script_request (codes "setup")) (new_agent, [])).0,
      failed (codes "already initialised"),
    )
unfolding computing
initialised_once_example =
    initialised_once small_os small_codecs (script_request (codes "setup")) (script_request [])
      (new_agent, []) Verbs.succeeded (exec_hello ∷ []) refl refl

handle_conn_returns_example :
    (served : Served small_os small_codecs) × (handle_conn small_os small_codecs 20
        (0 ∷ 0 ∷ 0 ∷ 5 ∷ 4 ∷ codes "exec")
        (new_agent, [])
        opened
      ≡ some served)
handle_conn_returns_example =
    handle_conn_returns small_os small_codecs 20 (0 ∷ 0 ∷ 0 ∷ 5 ∷ 4 ∷ codes "exec") (new_agent, [])
      opened (omega arith)

call-dispatch_example :
    call_raw small_codecs.request small_codecs.response
      (box small_os small_codecs (new_agent, []))
      (codes "exec")
      (codes "greet")
    ≡ (dispatch small_os small_codecs exec_hello (new_agent, [])).1
unfolding computing
call-dispatch_example =
    call-dispatch small_os small_codecs exec_hello (new_agent, []) refl
      (4 ∷ codes "execgreet", refl, omega arith, refl) (0 ∷ codes "hello", refl, omega arith, refl)
      (λ h. cc h)

abbrev notes : PutFileReq
notes = record { path = codes "/notes"; mode = pos 0; size = pos 2 }

put_file_acknowledged_example :
    (is_abs notes.path ≡ true)
    × ((n : ℕ) × (notes.size ≡ pos n) × IsWritten small_os notes (codes "hi!") [] n)
unfolding computing
put_file_acknowledged_example = put_file_acknowledged small_os new_agent notes (codes "hi!") [] refl
