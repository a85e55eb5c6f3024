-- ===== src/Box/Fake/Calls.antt =====
-- internal/spoke/box/conformance/fake.go, `Control`, with internal/guest behind it: what reaches the
-- agent in a box, and the files that the host streams to it.
use llmbox.Prelude.{
  refl, Option, none, some, List, [], ◌++◌, pos, ℤ, if◌then◌else◌, length, Str, codes, str_eq, ◌==◌,
  Result, ok, failed,
}
use llmbox.Netfw.Firewall.{Error}
use llmbox.Guest.Words.{Bytes}
use llmbox.Guest.Agent.{InitReq, InitResp, ExecResult, Response, Os}
use llmbox.Guest.Verbs.{Host, handle_init, handle_exec}
use llmbox.Guest.PutFile.{handle_put_file}
use llmbox.Box.Provisioner.{CopyFile}
use llmbox.Box.Fake.{FakeInstance, Fake, has_id, first_with, changed, hosted}

module _ (O : Os) where
  abbrev unreachable : Str
  unreachable = codes "connecting to box guest"

  -- A call of the agent in a box, which is reached by `Control` unless it is gone or paused.
  abbrev pub reach :
      {R : Type 0}
      → Str
      → (Host O → Host O × Result Str R)
      → Fake O
      → Option (FakeInstance O)
      → Fake O × Result Str R
  reach id call f none = (f, failed unreachable)
  reach id call f (some i) =
      let done = call i.host in
      if i.paused
      then (f, failed unreachable)
      else (changed O id (hosted O done.0) (λ i. refl) f, done.1)

  unfoldable pub init : Str → InitReq → Fake O → Fake O × Result Str InitResp
  unfolding first_with handle_init
  init id req f = reach id (handle_init O req) f (first_with O (has_id O id) f.insts)

  unfoldable pub exec : Str → List Str → Fake O → Fake O × Result Str ExecResult
  unfolding first_with handle_exec
  exec id cmd f = reach id (handle_exec O cmd) f (first_with O (has_id O id) f.insts)

  abbrev acknowledged : Response → Result Str Unit
  acknowledged r = if r.err == [] then ok tt else failed r.err

  -- The agent's part in copying a file of the host into the box.
  abbrev pub stream_file : CopyFile → ℤ → Bytes → Host O → Host O × Result Str Unit
  stream_file file size content (a, s) =
      let done =
        handle_put_file O a (record { path = file.box_path; mode = file.mode; size = size }) content
          s in
      ((a, done.0), acknowledged done.1)

  abbrev error_of : Result Str Unit → Error
  error_of (ok _) = none
  error_of (failed e) = some e

  abbrev content_of : Option Bytes → Bytes
  content_of none = []
  content_of (some b) = b

  unfoldable pub put_file : Str → CopyFile → ℤ → Fake O → Fake O × Error
  unfolding first_with handle_put_file
  put_file id file size f =
      let (t, done) =
        reach id (stream_file file size (content_of (f.files file.host_path))) f
          (first_with O (has_id O id) f.insts) in
      (t, error_of done)

  -- The host's files, as `os.Open` and `Stat` see them.
  abbrev pub open_file : Str → Fake O → Error
  open_file path f = elim (f.files path) [
    | none ↦ some (codes "open " ++ path ++ codes ": no such file or directory")
    | some b ↦ none
  ]

  abbrev pub file_size : Str → Fake O → Result Str ℤ
  file_size path f = ok (pos (length (content_of (f.files path))))
