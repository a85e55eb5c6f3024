-- ===== src/Guest/Agent.antt =====
-- internal/guest/guest.go and output.go: the state of the agent in a box, the files that it writes
-- and the script that it runs. What it asks of the operating system is a parameter.
use llmbox.Prelude.{
  ℕ, ◌-◌, ◌*◌, ◌%◌, ◌^◌, Bool, true, false, ◌||◌, ◌&&◌, Option, none, some, List, [], ◌∷◌, ◌++◌, ℤ,
  pos, negsuc, after, if◌then◌else◌, leb, nat_beq, length, take, Str, codes, str_eq, ◌==◌,
  cut_prefix, trim_space,
}
use llmbox.Netfw.Firewall.{Error}
use llmbox.Guest.Words.{Bytes}
use llmbox.Guest.Frames.{Json}

-- `sandbox.InjectFile` and `InitReq`.
pub record InjectFile : Type 0 where
  pub path : Str
  pub content : Bytes
  pub mode : ℤ
  pub uid : ℤ
  pub gid : ℤ

pub record InitReq : Type 0 where
  pub files : List InjectFile
  pub env : List Str
  pub init_script : Bytes
  pub init_script_timeout : ℤ

pub record InitResp : Type 0 where
  pub script_failed : Bool
  pub script_error : Str
  pub script_output : Str

-- `sandbox.ExecResult`.
pub record ExecResult : Type 0 where
  pub stdout : Str
  pub stderr : Str
  pub exit_code : ℤ

-- The envelopes `req` and `resp`. No data is the empty text.
pub record Request : Type 0 where
  pub verb : Str
  pub payload : Bytes

pub record Response : Type 0 where
  pub err : Str
  pub payload : Bytes

-- How a command ended: it could not run, or its output and exit code; and whether its time was over.
pub record Ran : Type 0 where
  pub error : Error
  pub exited : Bool
  pub timed_out : Bool
  pub out : Bytes
  pub err : Bytes
  pub code : ℤ

-- A command with its environment, its directory (empty for the default), its user and its time.
pub record Command : Type 0 where
  pub argv : List Str
  pub env : List Str
  pub dir : Str
  pub cred : Option (ℕ × ℕ)
  pub timeout : Option ℤ

-- What the agent asks of the operating system, and how Go prints a duration.
pub record Os : Type 1 where
  pub State : Type 0
  pub getenv : Str → Str
  pub mkdir_parent : Str → State → State × Error
  pub write_file : Str → Bytes → ℕ → State → State × Error
  pub create : Str → ℕ → State → State × Error
  pub append : Str → Bytes → State → State × Error
  pub close : Str → State → State × Error
  pub chmod : Str → ℕ → State → State × Error
  pub chown : Str → ℤ → ℤ → State → State × Error
  pub run : Command → State → State × Ran
  pub show_duration : ℤ → Str

-- The codecs of the payloads.
pub record Codecs : Type 0 where
  pub request : Json Request
  pub response : Json Response
  pub init_req : Json InitReq
  pub init_resp : Json InitResp
  pub exec_req : Json (List Str)
  pub exec_result : Json ExecResult

-- `Guest`. The credential is a user and a group.
pub record Agent : Type 0 where
  pub home : Str
  pub init_script_path : Str
  pub cred : Option (ℕ × ℕ)
  pub init_req : InitReq
  pub inited : Bool

abbrev max_exec_output : ℕ
max_exec_output = 64 * 2 ^ 10

abbrev truncated : Str
truncated = 10 ∷ codes "... [output truncated]"

-- `capOutput`.
unfoldable pub cap_output : Bytes → Str
cap_output b = if leb (length b) max_exec_output then b else take max_exec_output b ++ truncated

-- `hasEnvKey`.
unfoldable pub has_env_key : List Str → Str → Bool
unfolding cut_prefix
has_env_key [] key = false
has_env_key (e ∷ env) key = elim (cut_prefix (key ++ codes "=") e) [
  | some _ ↦ true
  | none ↦ has_env_key env key
]

-- `homeFromEnv`.
unfoldable pub home_from_env : List Str → Str
unfolding cut_prefix
home_from_env [] = []
home_from_env (e ∷ env) = elim (cut_prefix (codes "HOME=") e) [
  | some v ↦ v
  | none ↦ home_from_env env
]

-- `os.FileMode` of an int64, with the default of 0644.
abbrev to_uint32 : ℤ → ℕ
to_uint32 (pos n) = n % 2 ^ 32
to_uint32 (negsuc n) = 2 ^ 32 - 1 - n % 2 ^ 32

abbrev pub file_mode : ℤ → ℕ
file_mode m = if nat_beq (to_uint32 m) 0 then 420 else to_uint32 m

abbrev is_zero : ℤ → Bool
is_zero (pos n) = nat_beq n 0
is_zero (negsuc n) = false

module _ (O : Os) where
  -- A step that the next one follows unless it fails, with `fmt.Errorf("…: %w")`.
  abbrev pub then_do :
      Str → (O.State → O.State × Error) → (O.State → O.State × Error) → O.State → O.State × Error
  then_do what f g s =
      let called = f s in
      let rest = g called.0 in
      elim called.1 [ none ↦ rest | some e ↦ (called.0, some (what ++ codes ": " ++ e)) ]

  abbrev finish : O.State → O.State × Error
  finish s = (s, none)

  -- `writeInjectFile`.
  unfoldable pub write_inject_file : InjectFile → O.State → O.State × Error
  write_inject_file f =
      let owned =
        if is_zero f.uid && is_zero f.gid
        then finish
        else then_do (codes "chown " ++ f.path) (O.chown f.path f.uid f.gid) finish in
      then_do (codes "creating dir for " ++ f.path) (O.mkdir_parent f.path) (
        then_do (codes "writing " ++ f.path) (O.write_file f.path f.content (file_mode f.mode))
          (then_do (codes "chmod " ++ f.path) (O.chmod f.path (file_mode f.mode)) owned))

  -- The loop of `handleInit` over the files.
  unfoldable pub write_files : List InjectFile → O.State → O.State × Error
  unfolding write_inject_file
  write_files [] s = (s, none)
  write_files (f ∷ fs) s =
      let called = write_inject_file f s in
      let rest = write_files fs called.0 in
      elim called.1 [ none ↦ rest | some e ↦ (called.0, some e) ]

  -- `entryEnv`.
  unfoldable pub entry_env : Agent → List Str
  unfolding has_env_key
  entry_env a =
      let home = if a.home == [] then O.getenv (codes "HOME") else a.home in
      let path = O.getenv (codes "PATH") in
      let env =
        if has_env_key a.init_req.env (codes "HOME") || home == []
        then a.init_req.env
        else a.init_req.env ++ (codes "HOME=" ++ home) ∷ [] in
      if has_env_key env (codes "PATH") || path == []
      then env
      else env ++ (codes "PATH=" ++ path) ∷ []

  abbrev default_timeout : ℤ
  default_timeout = pos (300 * 1000000000)

  abbrev pub owner : Option (ℕ × ℕ) → ℤ × ℤ
  owner none = (pos 0, pos 0)
  owner (some (u, g)) = (pos u, pos g)

  abbrev script_of : Agent → InitReq → InjectFile
  script_of a req = record {
    path = a.init_script_path;
    content = req.init_script;
    mode = pos 493;
    uid = (owner a.cred).0;
    gid = (owner a.cred).1;
  }

  abbrev script_timeout : InitReq → ℤ
  script_timeout req =
      if after req.init_script_timeout (pos 0) then req.init_script_timeout else default_timeout

  abbrev script_ended : InitReq → Ran → Option (Str × Str)
  script_ended req ran =
      let tail = trim_space (cap_output ran.out) in
      elim ran.error [
        | none ↦ none
        | some e ↦ some (
          tail,
          if ran.timed_out
              then codes "init script did not finish within "
                ++ O.show_duration (script_timeout req)
              else codes "init script failed: " ++ e,
        )
      ]

  -- `runInitScript`: nothing, or the output with the error.
  unfoldable pub run_init_script : Agent → InitReq → O.State → O.State × Option (Str × Str)
  unfolding write_inject_file entry_env cap_output home_from_env
  run_init_script a req s =
      let written = write_inject_file (script_of a req) s in
      let ran =
        O.run
          (record {
            argv = a.init_script_path ∷ [];
            env = entry_env a;
            dir = home_from_env (entry_env a);
            cred = a.cred;
            timeout = some (script_timeout req);
          })
          written.0 in
      elim written.1 [
        | some e ↦ (written.0, some ([], codes "writing init script: " ++ e))
        | none ↦ (ran.0, script_ended req ran.1)
      ]
