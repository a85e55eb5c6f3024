-- ===== src/Box/Manager.antt =====
-- internal/spoke/box/manager.go: the operations of the manager, over a backend and the applier of
-- network policies. `Create` is in two parts: the one under the lock, and the rest.
pub mod Admitting
pub mod Steps
pub mod Creating
pub mod Destroying
use llmbox.Prelude.{
  ℕ, suc, Bool, true, false, not, ◌&&◌, ◌||◌, Option, none, some, List, [], ◌∷◌, ◌++◌, map, ℤ, ltb,
  leb, if◌then◌else◌, length, Str, codes, str_eq, str_beq, ◌==◌, decimal, Result, ok, failed,
}
use llmbox.Netfw.Firewall.{Error}
use llmbox.Guest.Words.{Bytes}
use llmbox.Guest.Agent.{InitReq, InitResp, ExecResult}
use llmbox.Box.Identifiers.{valid_box_id, equal_fold}
use llmbox.Box.Provisioner.{
  Backend, Applier, BoxView, CreateOptions, CopyFile, Failure, not_found, other,
}

-- `sandbox.PublishPort` and `sandbox.CreateResult`.
pub record PublishPort : Type 0 where
  pub port : ℤ
  pub description : Str

pub record CreateResult : Type 0 where
  pub instance_id : Str
  pub init_script_failed : Bool
  pub init_script_output : Str
  pub publish_ports : List PublishPort

-- `Config`, with whether there is an applier.
pub record Config : Type 0 where
  pub max_boxes : ℕ
  pub init_script : Bytes
  pub init_script_timeout : ℤ
  pub copy_files : List CopyFile
  pub publish_ports : List PublishPort
  pub isolates : Bool

abbrev quoted : Str → Str
quoted s = b'"' ∷ s ++ b'"' ∷ []

abbrev invalid : Str → Str
invalid id =
    codes "invalid box id "
    ++ quoted id
    ++ codes
        ": must be 1-63 chars of lowercase letters, digits, or hyphens (not starting or ending with a hyphen)"

-- `initScriptFailureDetail`.
unfoldable pub failure_detail : InitResp → Str
failure_detail r =
    if r.script_output == [] then r.script_error else r.script_error ++ 10 ∷ 10 ∷ r.script_output

module _ (B : Backend) (A : Applier) (cfg : Config) where
  abbrev pub Spoke : Type 0
  Spoke = B.State × A.State

  -- The loop over the boxes that looks for the box ID.
  unfoldable pub used_by : Str → List BoxView → Option Str
  used_by id [] = none
  used_by id (b ∷ bs) = if equal_fold b.box_id id then some b.instance_id else used_by id bs

  abbrev unused : Str → Option Str → Error
  unused id none = none
  unused id (some inst) = some (
      codes "box ID "
      ++ quoted id
      ++ codes " is already used by "
      ++ inst
      ++ codes "; choose a different box ID")

  -- The check of the cap and of the box ID against the boxes that there are.
  abbrev room : Str → Result Str (List BoxView) → Error
  room id (failed e) = some (codes "checking box uniqueness: " ++ e)
  room id (ok found) =
      if ltb 0 cfg.max_boxes && leb cfg.max_boxes (length found)
      then some (
          codes "box limit reached ("
          ++ decimal cfg.max_boxes
          ++ codes " boxes already running); destroy a box before creating another")
      else (if id == [] then none else unused id (used_by id found))

  abbrev provisioned : B.State × Result Str BoxView → B.State × Result Str BoxView
  provisioned (s, ok b) = (s, ok b)
  provisioned (s, failed e) = (s, failed (codes "provisioning box: " ++ e))

  abbrev checked : CreateOptions → B.State → Error → B.State × Result Str BoxView
  checked opts s (some e) = (s, failed e)
  checked opts s none = provisioned (B.provision opts s)

  -- The part of `Create` under the lock, after the check of the box ID's form.
  unfoldable pub admit : CreateOptions → B.State → B.State × Result Str BoxView
  unfolding used_by
  admit opts s =
      let listed = B.list s in
      if not (opts.box_id == []) && not (valid_box_id opts.box_id)
      then (s, failed (invalid opts.box_id))
      else (if not (opts.box_id == []) || ltb 0 cfg.max_boxes
          then checked opts listed.0 (room opts.box_id listed.1)
          else checked opts s none)

  abbrev streamed : CopyFile → B.State × Error → B.State × Error
  streamed f (s, none) = (s, none)
  streamed f (s, some e) =
      (s, some (codes "copying " ++ f.host_path ++ codes " to " ++ f.box_path ++ codes ": " ++ e))

  abbrev statted : CopyFile → Str → B.State → Result Str ℤ → B.State × Error
  statted f id s (failed e) =
      (s, some (codes "stat --copy source " ++ f.host_path ++ codes ": " ++ e))
  statted f id s (ok size) = streamed f (B.put_file id f size s)

  abbrev opened : CopyFile → Str → B.State → Error → B.State × Error
  opened f id s (some e) =
      (s, some (codes "opening --copy source " ++ f.host_path ++ codes ": " ++ e))
  opened f id s none = statted f id s (B.file_size f.host_path s)

  abbrev copy_file : CopyFile → Str → B.State → B.State × Error
  copy_file f id s = opened f id s (B.open_file f.host_path s)

  -- `copyFiles`.
  unfoldable pub copy_files : List CopyFile → Str → B.State → B.State × Error
  copy_files [] id s = (s, none)
  copy_files (f ∷ fs) id s =
      let called = copy_file f id s in
      let rest = copy_files fs id called.0 in elim called.1 [ none ↦ rest | some e ↦ called ]

  -- A failure after which the box is torn down, whatever the tear-down says.
  abbrev torn_down : Str → Str → B.State → B.State × Result Str CreateResult
  torn_down id e s = ((B.destroy id s).0, failed e)

  -- A box whose script failed is kept, with the output of the script.
  abbrev result_of : Str → InitResp → CreateResult
  result_of id r =
      if r.script_failed
      then record {
        instance_id = id;
        init_script_failed = true;
        init_script_output = failure_detail r;
        publish_ports = [];
      }
      else record {
        instance_id = id;
        init_script_failed = false;
        init_script_output = [];
        publish_ports = cfg.publish_ports;
      }

  abbrev initialised : Str → B.State × Result Str InitResp → B.State × Result Str CreateResult
  initialised id (s, failed e) = torn_down id (codes "initialising box: " ++ e) s
  initialised id (s, ok r) = (s, ok (result_of id r))

  -- `createSpec`'s request of the agent.
  abbrev init_request : CreateOptions → InitReq
  init_request opts = record {
    files = opts.files;
    env = [];
    init_script = cfg.init_script;
    init_script_timeout = cfg.init_script_timeout;
  }

  abbrev copied : CreateOptions → Str → B.State × Error → B.State × Result Str CreateResult
  copied opts id (s, some e) = torn_down id (codes "copying files into box: " ++ e) s
  copied opts id (s, none) = initialised id (B.init id (init_request opts) s)

  -- The rest of `Create`, for a box that was provisioned.
  unfoldable pub finish : CreateOptions → Str → B.State → B.State × Result Str CreateResult
  unfolding copy_files failure_detail
  finish opts id s = copied opts id (copy_files cfg.copy_files id s)

  abbrev admitted : CreateOptions → B.State × Result Str BoxView → B.State × Result Str CreateResult
  admitted opts (s, failed e) = (s, failed e)
  admitted opts (s, ok b) = finish opts b.instance_id s

  -- `Create`.
  unfoldable pub create : CreateOptions → B.State → B.State × Result Str CreateResult
  unfolding admit finish
  create opts s = admitted opts (admit opts s)

  -- `List`.
  pub list : B.State → B.State × Result Str (List BoxView)
  list s = B.list s

  -- The end of `Destroy`: the box's isolation is released, and an error of that is only logged.
  abbrev released : BoxView → B.State → A.State → Spoke
  released b s iso =
      if cfg.isolates && not (b.box_id == []) then (s, (A.release b.box_id iso).0) else (s, iso)

  abbrev removed : BoxView → A.State → B.State × Option Failure → Spoke × Option Failure
  removed b iso (s, none) = (released b s iso, none)
  removed b iso (s, some (not_found e)) = (released b s iso, none)
  removed b iso (s, some (other e)) = ((s, iso), some (other e))

  abbrev found_to_destroy : A.State → B.State × Result Failure BoxView → Spoke × Option Failure
  found_to_destroy iso (s, failed (not_found e)) = ((s, iso), none)
  found_to_destroy iso (s, failed (other e)) = ((s, iso), some (other e))
  found_to_destroy iso (s, ok b) = removed b iso (B.destroy b.instance_id s)

  -- `Destroy`.
  unfoldable pub destroy : Str → Spoke → Spoke × Option Failure
  destroy id (s, iso) = found_to_destroy iso (B.find id s)

  -- `SetNetworkPolicy`.
  pub set_network_policy : Str → A.Policy → Spoke → Spoke × Error
  set_network_policy id policy (s, iso) =
      let called = A.set_network_policy id policy iso in
      if cfg.isolates then ((s, called.0), called.1) else ((s, iso), none)

  abbrev on_found :
      (Str → B.State → B.State × Option Failure)
      → B.State × Result Failure BoxView
      → B.State × Option Failure
  on_found f (s, failed e) = (s, some e)
  on_found f (s, ok b) = f b.instance_id s

  -- `Pause` and `Resume`.
  unfoldable pub pause : Str → B.State → B.State × Option Failure
  pause id s = on_found B.pause (B.find id s)

  unfoldable pub resume : Str → B.State → B.State × Option Failure
  resume id s = on_found B.resume (B.find id s)

  abbrev run_in : List Str → B.State × Result Failure BoxView → B.State × Result Failure ExecResult
  run_in cmd (s, failed e) = (s, failed e)
  run_in cmd (s, ok b) =
      let called = B.exec b.instance_id cmd s in
      (called.0, elim called.1 [ ok r ↦ ok r | failed e ↦ failed (other e) ])

  -- `Exec`.
  unfoldable pub exec : Str → List Str → B.State → B.State × Result Failure ExecResult
  exec id cmd s = run_in cmd (B.find id s)
