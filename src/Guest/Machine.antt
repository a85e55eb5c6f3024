-- ===== src/Guest/Machine.antt =====
-- A small operating system and small codecs, to run the agent on.
use llmbox.Prelude.{
  true, false, none, List, [], ◌∷◌, ◌++◌, pos, if◌then◌else◌, length, take, drop, Str, codes,
  str_eq, ◌==◌, Result, ok, failed,
}
use llmbox.Guest.Words.{Bytes}
use llmbox.Guest.Frames.{Json}
use llmbox.Guest.Agent.{InitReq, Request, Response, Os, Codecs, Agent}

-- Files with their contents, the newest first. A command prints a greeting.
abbrev pub small_os : Os
small_os = record {
  State = List (Str × Bytes);
  getenv = λ key. if key == codes "PATH" then codes "/bin" else [];
  mkdir_parent = λ path s. (s, none);
  write_file = λ path b mode s. ((path, b) ∷ s, none);
  create = λ path mode s. ((path, []) ∷ s, none);
  append = λ path b s. ((path, b) ∷ s, none);
  close = λ path s. (s, none);
  chmod = λ path mode s. (s, none);
  chown = λ path uid gid s. (s, none);
  run = λ c s. (
    s,
    record {
      error = none;
      exited = true;
      timed_out = false;
      out = codes "hello";
      err = [];
      code = pos 0;
    },
  );
  show_duration = λ n. codes "5m0s";
}

-- A text behind the length of another one.
abbrev both : Str → Bytes → Bytes
both s b = length s ∷ s ++ b

abbrev split_request : Bytes → Result Str Request
split_request [] = failed (codes "no request")
split_request (n ∷ b) = ok (record { verb = take n b; payload = drop n b })

abbrev split_response : Bytes → Result Str Response
split_response [] = failed (codes "no response")
split_response (n ∷ b) = ok (record { err = take n b; payload = drop n b })

abbrev pub text_codec : Json Bytes
text_codec = record { marshal = λ b. ok b; unmarshal = λ b. ok b }

abbrev pub script_request : Bytes → InitReq
script_request b = record { files = []; env = []; init_script = b; init_script_timeout = pos 0 }

abbrev pub small_codecs : Codecs
small_codecs = record {
  request = record { marshal = λ r. ok (both r.verb r.payload); unmarshal = split_request };
  response = record { marshal = λ r. ok (both r.err r.payload); unmarshal = split_response };
  init_req = record { marshal = λ r. ok r.init_script; unmarshal = λ b. ok (script_request b) };
  init_resp = record {
    marshal = λ r. ok r.script_output;
    unmarshal = λ b. ok (record { script_failed = false; script_error = []; script_output = b });
  };
  exec_req = record { marshal = λ c. ok []; unmarshal = λ b. ok (b ∷ []) };
  exec_result = record {
    marshal = λ r. ok r.stdout;
    unmarshal = λ b. ok (record { stdout = b; stderr = []; exit_code = pos 0 });
  };
}

abbrev pub new_agent : Agent
new_agent = record {
  home = codes "/root";
  init_script_path = codes "/init-script";
  cred = none;
  init_req = script_request [];
  inited = false;
}
