-- ===== src/Hub/Sessions/Creating.antt =====
-- internal/hub/server.go, `createBox`: its part up to the claim of the box ID, the part that waits
-- for the hooks and the spoke, and the part that registers the box.
use llmbox.Prelude.{
  not, none, some, List, [], ◌∷◌, ◌++◌, if◌then◌else◌, Str, codes, str_eq, ◌==◌, put, Result, ok,
  failed,
}
use llmbox.Netfw.Firewall.{Error}
use llmbox.Guest.Agent.{InjectFile}
use llmbox.Box.Identifiers.{valid_box_id}
use llmbox.Box.Provisioner.{CreateOptions}
use llmbox.Box.Manager.{CreateResult}
use llmbox.Hub.Records.{Session, HookState, World, persist, box_state_running}
use llmbox.Hub.Sessions.{
  Server, spoke, reserve_box_id, release_box_id, drop_terminated_records, run_destroy_hooks,
}
use llmbox.Hub.Sessions.Syncing.{sync_spoke}

module _ (W : World) where
  abbrev invalid : Str → Str
  invalid id =
      codes "invalid box ID "
      ++ (b'"' ∷ id ++ b'"' ∷ [])
      ++ codes ": must be a valid hostname (lowercase letters, digits, and hyphens)"

  abbrev pub reserved : Str → Server W × Error → Server W × Result Str Str
  reserved name (srv, some e) = (srv, failed e)
  reserved name (srv, none) = (srv, ok name)

  abbrev pub reserve_on : Str → Server W → Result Str Str → Server W × Result Str Str
  reserve_on id srv (failed e) = (srv, failed e)
  reserve_on id srv (ok name) = reserved name (reserve_box_id W id srv)

  -- The checks and the claim, with the name of the spoke.
  unfoldable pub begin_create : CreateOptions → Server W → Server W × Result Str Str
  unfolding spoke
  begin_create opts srv =
      if opts.box_id == []
      then (srv, failed (codes "a box ID is required"))
      else (if not (valid_box_id opts.box_id)
          then (srv, failed (invalid opts.box_id))
          else reserve_on opts.box_id srv (spoke W opts.spoke_name srv.world))

  abbrev pub Made : Type 0
  Made = CreateResult × HookState × Str

  -- The end of the part that waits: a box needs a token, and is destroyed again without one.
  abbrev with_token :
      Str → Str → CreateResult → HookState → W.State × Result Str Str → W.State × Result Str Made
  with_token id name res state (w, ok tok) = (w, ok (res, state, tok))
  with_token id name res state (w, failed e) = (
    run_destroy_hooks W id state (W.destroy name res.instance_id w).0,
    failed (codes "generating session token: " ++ e),
  )

  abbrev created :
      Str → Str → HookState → W.State × Result Str CreateResult → W.State × Result Str Made
  created id name state (w, failed e) = (run_destroy_hooks W id state w, failed e)
  created id name state (w, ok res) = with_token id name res state (W.new_token w)

  abbrev hooked :
      CreateOptions
      → Str
      → W.State × HookState × Result Str (List InjectFile)
      → W.State × Result Str Made
  hooked opts name (w, state, failed e) = (run_destroy_hooks W opts.box_id state w, failed e)
  hooked opts name (w, state, ok files) =
      created opts.box_id name state (W.create name (record opts { files = opts.files ++ files }) w)

  -- The hooks, the creation on the spoke, and the token.
  unfoldable pub make_box : CreateOptions → Str → W.State → W.State × Result Str Made
  unfolding run_destroy_hooks
  make_box opts name w = hooked opts name (W.on_create opts.box_id opts.description w)

  -- The session of a box that was created.
  unfoldable pub session_of : CreateOptions → Str → Made → W.State → Session
  session_of opts name (res, state, tok) w = record {
    token = W.hash_token tok;
    generation = res.instance_id;
    created_at = W.now w;
    hook_state = state;
    box_id = opts.box_id;
    description = opts.description;
    spoke_name = name;
    phase = if res.init_script_failed then codes "broken" else codes "ready";
    init_error = res.init_script_output;
    box_state = box_state_running;
    last_seen = W.now w;
    name = [];
    image = [];
    instance_state = [];
  }

  -- The registration, under the lock.
  unfoldable pub register : Session → Server W → Server W
  register sess srv = record srv { by_token = put sess.token sess srv.by_token }

  -- What follows it: the row, the tombstones that the box replaces, the inventory of its spoke and
  -- the ports.
  unfoldable pub after_register : CreateOptions → Str → Made → Session → Server W → Server W
  unfolding drop_terminated_records sync_spoke
  after_register opts name made sess srv =
      let stored = record srv { world = (W.put_box (persist sess) srv.world).0 } in
      let replaced = drop_terminated_records W opts.box_id sess.token stored in
      let synced = sync_spoke W name replaced in
      record synced { world = W.publish sess made.0.publish_ports synced.world }

  abbrev pub finish_create :
      CreateOptions → Str → Server W → W.State × Result Str Made → Server W × Result Str Session
  finish_create opts name srv (w, failed e) = (record srv { world = w }, failed e)
  finish_create opts name srv (w, ok made) =
      let sess = session_of opts name made w in
      (after_register opts name made sess (register sess (record srv { world = w })), ok sess)

  abbrev pub released : Str → Server W × Result Str Session → Server W × Result Str Session
  released id (srv, r) = (release_box_id W id srv, r)

  abbrev pub rest_of_create :
      CreateOptions → Server W × Result Str Str → Server W × Result Str Session
  rest_of_create opts (srv, failed e) = (srv, failed e)
  rest_of_create opts (srv, ok name) =
      released opts.box_id (finish_create opts name srv (make_box opts name srv.world))

  -- `createBox`.
  unfoldable pub create_box : CreateOptions → Server W → Server W × Result Str Session
  unfolding begin_create make_box register after_register
  create_box opts srv = rest_of_create opts (begin_create opts srv)
