-- ===== src/Guest/Client.antt =====
-- internal/guest/client.go: the call of a verb by the host. The connection is a parameter: what the
-- box answers to the bytes that were sent.
pub mod Calling
use llmbox.Prelude.{
  Bool, true, false, Option, none, some, List, [], ◌∷◌, ◌++◌, if◌then◌else◌, Str, codes, str_eq,
  str_beq, ◌==◌, Result, ok, failed,
}
use llmbox.Netfw.Firewall.{Error}
use llmbox.Guest.Words.{Bytes, Writer}
use llmbox.Guest.Frames.{Json, write_frame, read_frame}
use llmbox.Guest.Agent.{Request, Response}

-- A connection on which nothing was sent yet, and whose writes do not fail.
abbrev pub opened : Writer
opened = record { written = []; faults = [] }

abbrev pub accepted : Response → Result Str Bytes
accepted r = if r.err == [] then ok r.payload else failed r.err

module _ (request : Json Request) (response : Json Response) (peer : Bytes → Bytes) where
  abbrev pub received : Str → Result Str Response → Result Str Bytes
  received verb (failed e) = failed (codes "reading " ++ verb ++ codes " response: " ++ e)
  received verb (ok r) = accepted r

  abbrev pub after_sending : Str → Writer × Error → Result Str Bytes
  after_sending verb (w, some e) = failed (codes "sending " ++ verb ++ codes ": " ++ e)
  after_sending verb (w, none) = received verb (read_frame response (peer w.written)).1

  -- `call` of a verb with its encoded input, as far as the data of the response.
  unfoldable pub call_raw : Str → Bytes → Result Str Bytes
  call_raw verb b =
      after_sending verb (write_frame request (record { verb = verb; payload = b }) opened)

  -- A response without data leaves the output as it was.
  abbrev decoded : {B : Type 0} → Json B → B → Result Str Bytes → Result Str B
  decoded J zero (failed e) = failed e
  decoded J zero (ok []) = ok zero
  decoded J zero (ok (c ∷ b)) = J.unmarshal (c ∷ b)

  abbrev call_encoded : {B : Type 0} → Json B → B → Str → Result Str Bytes → Result Str B
  call_encoded J zero verb (failed e) = failed e
  call_encoded J zero verb (ok b) = decoded J zero (call_raw verb b)

  -- `call`, with the codecs of the input and the output, and the output's zero value.
  pub call : {A B : Type 0} → Json A → Json B → B → Str → A → Result Str B
  unfolding call_raw
  call J K zero verb input = call_encoded K zero verb (J.marshal input)
