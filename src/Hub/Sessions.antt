-- ===== src/Hub/Sessions.antt =====
-- internal/hub/server.go: the records of the boxes, by the hash of a token, and the claims of their
-- IDs. What runs under the lock of the server is one function.
pub mod Creating
pub mod Syncing
pub mod Forgetting
pub mod Looking
pub mod Unique
pub mod Claiming
pub mod Sound
pub mod Registering
pub mod Steps
pub mod Destroying
mod Examples
use llmbox.Prelude.{
  Bool, true, false, not, ◌&&◌, Option, none, some, List, [], ◌∷◌, ◌++◌, if◌then◌else◌, Str, codes,
  str_eq, str_beq, ◌==◌, to_lower, contains, filter, Table, keep, keys, Result, ok, failed,
}
use llmbox.Netfw.Firewall.{Error}
use llmbox.Box.Identifiers.{equal_fold}
use llmbox.Hub.Records.{Session, HookState, World, terminated}

-- The row of a live box with an ID, up to case.
abbrev pub holds : Str → Session → Bool
holds id s = equal_fold s.box_id id && not (terminated s)

pub first_holder : Str → Table Str Session → Option Session
first_holder id [] = none
first_holder id ((k, s) ∷ m) = if holds id s then some s else first_holder id m

module _ (W : World) where
  -- `Server`, with what it works on.
  pub record Server : Type 0 where
    pub by_token : Table Str Session
    pub pending_box_ids : List Str
    pub world : W.State

  -- `resolveStoredSpoke`.
  pub resolve_stored_spoke : Str → W.State → Str
  resolve_stored_spoke name w =
      if not (name == []) then name else elim (W.default_spoke w) [ ok def ↦ def | failed e ↦ [] ]

  abbrev no_default : Str
  no_default =
      codes
        "no default spoke configured; set one in the admin UI or name a spoke when creating the box"

  abbrev named_or_default : Str → Result Str Str → Result Str Str
  named_or_default name r =
      if not (name == [])
      then ok name
      else elim r [ failed e ↦ failed e | ok def ↦ if def == [] then failed no_default else ok def ]

  abbrev when_connected : W.State → Result Str Str → Result Str Str
  when_connected w (failed e) = failed e
  when_connected w (ok name) =
      if W.connected name w
      then ok name
      else failed (codes "spoke " ++ (b'"' ∷ name ++ b'"' ∷ codes " is not connected"))

  -- `spoke`: the name of the spoke whose manager it gives.
  pub spoke : Str → W.State → Result Str Str
  spoke name w = when_connected w (named_or_default name (W.default_spoke w))

  abbrev quoted : Str → Str
  quoted id = b'"' ∷ id ++ b'"' ∷ []

  abbrev in_use : Str → Session → Str
  in_use id s =
      codes "box ID "
      ++ quoted id
      ++ codes " is already in use on spoke "
      ++ quoted s.spoke_name
      ++ codes "; choose a different box ID"

  abbrev claimed : Str → Str
  claimed id =
      codes "box ID " ++ quoted id ++ codes " is already being created; choose a different box ID"

  -- `reserveBoxID` and `releaseBoxID`.
  abbrev pub claim : Str → Server → Option Session → Server × Error
  claim id srv (some s) = (srv, some (in_use id s))
  claim id srv none =
      if contains srv.pending_box_ids (to_lower id)
      then (srv, some (claimed id))
      else (record srv { pending_box_ids = to_lower id ∷ srv.pending_box_ids }, none)

  pub reserve_box_id : Str → Server → Server × Error
  unfolding first_holder
  reserve_box_id id srv =
      if id == [] then (srv, none) else claim id srv (first_holder id srv.by_token)

  pub release_box_id : Str → Server → Server
  release_box_id id srv =
      if id == []
      then srv
      else record srv { pending_box_ids = filter (λ p. not (p == to_lower id)) srv.pending_box_ids }

  -- Deleting of the rows of sessions in the database; an error is only logged.
  pub delete_boxes : List Str → W.State → W.State
  delete_boxes [] w = w
  delete_boxes (tok ∷ toks) w = delete_boxes toks (W.delete_box tok w).0

  -- `dropTerminatedRecords`.
  abbrev pub replaced : Str → Str → Str → Session → Bool
  replaced id keep_token tok s = not (tok == keep_token) && equal_fold s.box_id id && terminated s

  pub drop_terminated_records : Str → Str → Server → Server
  unfolding delete_boxes
  drop_terminated_records id keep_token srv = if id == [] then srv else record srv {
    by_token = keep (λ tok s. not (replaced id keep_token tok s)) srv.by_token;
    world = delete_boxes (keys (keep (replaced id keep_token) srv.by_token)) srv.world;
  }

  -- `runDestroyHooks`, which does nothing without a state.
  pub run_destroy_hooks : Str → HookState → W.State → W.State
  run_destroy_hooks id [] w = w
  run_destroy_hooks id (x ∷ state) w = W.on_destroy id (x ∷ state) w
