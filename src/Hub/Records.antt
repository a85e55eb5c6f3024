-- ===== src/Hub/Records.antt =====
-- internal/hub/server.go: the record of a box, in memory and in the database, and what the server
-- asks of the spokes, the hooks and the database, which is a parameter.
use llmbox.Prelude.{Bool, Option, List, ℤ, Str, codes, str_eq, ◌==◌, Table, Result}
use llmbox.Netfw.Firewall.{Error}
use llmbox.Guest.Agent.{InjectFile}
use llmbox.Box.Provisioner.{BoxView, CreateOptions, Failure}
use llmbox.Box.Manager.{CreateResult, PublishPort}

abbrev pub HookState : Type 0
HookState = Table Str Str

-- `session`.
pub record Session : Type 0 where
  pub token : Str
  pub generation : Str
  pub created_at : ℤ
  pub hook_state : HookState
  pub box_id : Str
  pub description : Str
  pub spoke_name : Str
  pub phase : Str
  pub init_error : Str
  pub box_state : Str
  pub last_seen : ℤ
  pub name : Str
  pub image : Str
  pub instance_state : Str

-- `boxRecord`, which the database holds.
pub record BoxRecord : Type 0 where
  pub token : Str
  pub instance_id : Str
  pub created_at : ℤ
  pub hook_state : HookState
  pub box_id : Str
  pub description : Str
  pub spoke : Str
  pub status : Str
  pub last_error : Str
  pub lifecycle : Str
  pub observed_at : ℤ
  pub observed_name : Str
  pub observed_image : Str
  pub observed_state : Str

-- `persist`.
unfoldable pub persist : Session → BoxRecord
persist s = record {
  token = s.token;
  instance_id = s.generation;
  created_at = s.created_at;
  hook_state = s.hook_state;
  box_id = s.box_id;
  description = s.description;
  spoke = s.spoke_name;
  status = s.phase;
  last_error = s.init_error;
  lifecycle = s.box_state;
  observed_at = s.last_seen;
  observed_name = s.name;
  observed_image = s.image;
  observed_state = s.instance_state;
}

-- `sessionFromPersisted`.
unfoldable pub session_from_persisted : BoxRecord → Session
session_from_persisted r = record {
  token = r.token;
  generation = r.instance_id;
  created_at = r.created_at;
  hook_state = r.hook_state;
  box_id = r.box_id;
  description = r.description;
  spoke_name = r.spoke;
  phase = r.status;
  init_error = r.last_error;
  box_state = r.lifecycle;
  last_seen = r.observed_at;
  name = r.observed_name;
  image = r.observed_image;
  instance_state = r.observed_state;
}

abbrev pub box_state_running : Str
box_state_running = codes "running"

abbrev pub box_state_terminated : Str
box_state_terminated = codes "terminated"

-- `terminated` and `paused`.
abbrev pub terminated : Session → Bool
terminated s = s.box_state == box_state_terminated

abbrev pub paused : Session → Bool
paused s = s.instance_state == codes "paused"

-- The spokes, the hooks, the database and the rest of the server, with their state. `create`,
-- `destroy`, `list`, `pause` and `resume` are those of the box manager of a connected spoke; a call
-- of the hooks gives their state also when it fails.
pub record World : Type 1 where
  pub State : Type 0
  pub now : State → ℤ
  pub default_spoke : State → Result Str Str
  pub connected : Str → State → Bool
  pub spokes : State → List Str
  pub create : Str → CreateOptions → State → State × Result Str CreateResult
  pub destroy : Str → Str → State → State × Option Failure
  pub list : Str → State → State × Result Str (List BoxView)
  pub pause : Str → Str → State → State × Option Failure
  pub resume : Str → Str → State → State × Option Failure
  pub on_create : Str → Str → State → State × HookState × Result Str (List InjectFile)
  pub on_destroy : Str → HookState → State → State
  pub put_box : BoxRecord → State → State × Error
  pub delete_box : Str → State → State × Error
  pub list_box_records : State → State × Result Str (List BoxRecord)
  pub known_spokes : State → State × Result Str (List Str)
  pub delete_proxies_for_box : Str → State → State
  pub prune_proxies : List Str → State → State
  pub publish : Session → List PublishPort → State → State
  pub new_token : State → State × Result Str Str
  pub hash_token : Str → Str
