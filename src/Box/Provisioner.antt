-- ===== src/Box/Provisioner.antt =====
-- internal/spoke/box/provisioner.go: what the manager asks of a backend, and of the guest in a box.
use llmbox.Prelude.{
  ◌≡◌, ◌≢◌, ◌⊎◌, not, Option, none, some, List, [], ◌∷◌, ◌++◌, map, ℤ, filter, All, Str, str_eq,
  ◌==◌, Result, ok, failed, In, Bool, true, length,
}
use llmbox.Netfw.Firewall.{Error}
use llmbox.Guest.Agent.{InjectFile, InitReq, InitResp, ExecResult}

-- `sandbox.Box`, as a backend reports it.
pub record BoxView : Type 0 where
  pub instance_id : Str
  pub name : Str
  pub box_id : Str
  pub image : Str
  pub state : Str
  pub phase : Str
  pub created : ℤ

-- `sandbox.CreateOptions`.
pub record CreateOptions : Type 0 where
  pub box_id : Str
  pub description : Str
  pub spoke_name : Str
  pub files : List InjectFile
  pub disk_bytes : ℤ

-- `CopyFile`.
pub record CopyFile : Type 0 where
  pub host_path : Str
  pub box_path : Str
  pub mode : ℤ

-- An error of a backend: one that wraps `sandbox.ErrBoxNotFound`, or another.
pub data Failure : Type 0 where
  not_found : Str → Failure
  other : Str → Failure

-- What tells boxes apart: the instance ID, and the box ID that the caller chose.
abbrev pub Key : Type 0
Key = Str × Str

abbrev pub key_of : BoxView → Key
key_of b = (b.instance_id, b.box_id)

-- The boxes but those of one instance.
abbrev pub without : Str → List Key → List Key
without id = filter (λ k. not (k.0 == id))

-- A backend with its state, which holds the files of the host as well. `held` lists its boxes, and
-- `List` that succeeds gives as many and all of those, in any order. `answers_to` is which names
-- `Find` takes for a box: a box that it finds answers to the name, and where it finds none no box
-- has the name, unless that is empty, as its instance ID or box ID. `Provision` that succeeds adds the box that was asked for under a new instance ID, and one that fails adds
-- none. `Destroy` removes at most its box: when it succeeds the box is gone, and it finds none when
-- the box was already gone. Nothing else changes which boxes there are.
pub record Backend : Type 1 where
  pub State : Type 0
  pub held : State → List Key
  pub provision : CreateOptions → State → State × Result Str BoxView
  pub list : State → State × Result Str (List BoxView)
  pub find : Str → State → State × Result Failure BoxView
  pub answers_to : Str → BoxView → Bool
  pub destroy : Str → State → State × Option Failure
  pub pause : Str → State → State × Option Failure
  pub resume : Str → State → State × Option Failure
  pub open_file : Str → State → Error
  pub file_size : Str → State → Result Str ℤ
  pub put_file : Str → CopyFile → ℤ → State → State × Error
  pub init : Str → InitReq → State → State × Result Str InitResp
  pub exec : Str → List Str → State → State × Result Str ExecResult
  pub list_gives :
      (s : State) (found : List BoxView)
      → (list s).1 ≡ ok found
      → (length found ≡ length (held s)) × ((k : Key) → In k (held s) → In k (map key_of found))
  pub provision_adds :
      (o : CreateOptions) (s : State) (b : BoxView)
      → (provision o s).1 ≡ ok b
      → (held (provision o s).0 ≡ held s ++ key_of b ∷ [])
        × (b.box_id ≡ o.box_id)
        × (without b.instance_id (held s) ≡ held s)
  pub provision_failed :
      (o : CreateOptions) (s : State) (e : Str)
      → (provision o s).1 ≡ failed e
      → held (provision o s).0 ≡ held s
  pub destroy_at_most :
      (id : Str) (s : State)
      → (held (destroy id s).0 ≡ held s) ⊎ (held (destroy id s).0 ≡ without id (held s))
  pub destroy_removes :
      (id : Str) (s : State) → (destroy id s).1 ≡ none → held (destroy id s).0 ≡ without id (held s)
  pub destroy_gone :
      (id e : Str) (s : State)
      → (destroy id s).1 ≡ some (not_found e)
      → without id (held s) ≡ held s
  pub list_keeps : (s : State) → held (list s).0 ≡ held s
  pub find_keeps : (id : Str) (s : State) → held (find id s).0 ≡ held s
  pub find_gives :
      (id : Str) (s : State) (b : BoxView)
      → (find id s).1 ≡ ok b
      → In (key_of b) (held s) × (answers_to id b ≡ true)
  pub find_none :
      (id e : Str) (s : State)
      → (find id s).1 ≡ failed (not_found e)
      → All (λ k. ((k.0 ≢ id) × (k.1 ≢ id)) ⊎ (id ≡ [])) (held s)
  pub pause_keeps : (id : Str) (s : State) → held (pause id s).0 ≡ held s
  pub resume_keeps : (id : Str) (s : State) → held (resume id s).0 ≡ held s
  pub put_file_keeps :
      (id : Str) (f : CopyFile) (n : ℤ) (s : State) → held (put_file id f n s).0 ≡ held s
  pub init_keeps : (id : Str) (r : InitReq) (s : State) → held (init id r s).0 ≡ held s
  pub exec_keeps : (id : Str) (c : List Str) (s : State) → held (exec id c s).0 ≡ held s

-- `PolicyApplier`, with its state.
pub record Applier : Type 1 where
  pub State : Type 0
  pub Policy : Type 0
  pub set_network_policy : Str → Policy → State → State × Error
  pub release : Str → State → State × Error
