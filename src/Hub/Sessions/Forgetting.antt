-- ===== src/Hub/Sessions/Forgetting.antt =====
-- internal/hub/server.go and gc.go: what removes records, `destroyBox`, `PruneDepartedSpokes` and
-- `pruneSessions`, and `Restore`, which reads them back.
use llmbox.Prelude.{
  Bool, false, not, ◌&&◌, ◌||◌, Option, none, some, List, [], ◌∷◌, ◌++◌, if◌then◌else◌, Str, codes,
  str_eq, ◌==◌, contains, Table, put, keep, keys, Result, ok, failed,
}
use llmbox.Netfw.Firewall.{Error}
use llmbox.Box.Provisioner.{BoxView, Failure, not_found, other}
use llmbox.Hub.Records.{Session, BoxRecord, World, session_from_persisted, terminated}
use llmbox.Hub.Sessions.{Server, resolve_stored_spoke, spoke, delete_boxes, run_destroy_hooks}

-- `idMatchesBox` and `boxMatchesSession`.
pub id_matches_box : Str → Str → Str → Bool
id_matches_box box_id generation id =
    if id == []
    then false
    else (not (box_id == []) && box_id == id) || (not (generation == []) && generation == id)

abbrev pub box_matches : Str → Session → Bool
box_matches id s = id_matches_box s.box_id s.generation id

unfoldable pub first_match : Str → Table Str Session → Option Session
unfolding id_matches_box
first_match id [] = none
first_match id ((k, s) ∷ m) = if box_matches id s then some s else first_match id m

-- A listing with a box that matches.
lists_box : Str → List BoxView → Bool
unfolding id_matches_box
lists_box id [] = false
lists_box id (b ∷ bs) = id_matches_box b.box_id b.instance_id id || lists_box id bs

module _ (W : World) where
  abbrev hosts : Str → Result Str (List BoxView) → Bool
  hosts id (failed e) = false
  hosts id (ok boxes) = lists_box id boxes

  -- `spokeHostingBox`, over the connected spokes.
  pub spoke_hosting_box : Str → List Str → W.State → W.State × Option Str
  unfolding lists_box
  spoke_hosting_box id [] w = (w, none)
  spoke_hosting_box id (name ∷ names) w =
      let listed = W.list name w in
      let rest = spoke_hosting_box id names listed.0 in
      if hosts id listed.1 then (listed.0, some name) else rest

  -- The removal of the records that match, with the hooks and the proxies of those that were not
  -- tombstones.
  tear_down : Table Str Session → W.State → W.State
  unfolding run_destroy_hooks
  tear_down [] w = w
  tear_down ((k, s) ∷ m) w = tear_down m (
      if terminated s
      then w
      else W.delete_proxies_for_box s.box_id (run_destroy_hooks W s.box_id s.hook_state w))

  unfoldable pub forget : Str → Server W → Server W
  unfolding delete_boxes tear_down id_matches_box
  forget id srv =
      let gone = keep (λ tok. box_matches id) srv.by_token in
      record srv {
        by_token = keep (λ tok s. not (box_matches id s)) srv.by_token;
        world = W.delete_proxies_for_box id (tear_down gone (delete_boxes W (keys gone) srv.world));
      }

  -- The destroy on a spoke, where a box that is already gone is as good.
  abbrev pub destroyed : Str → Server W → W.State × Option Failure → Server W × Option Failure
  destroyed id srv (w, none) = (forget id (record srv { world = w }), none)
  destroyed id srv (w, some (not_found e)) = (forget id (record srv { world = w }), none)
  destroyed id srv (w, some (other e)) = (record srv { world = w }, some (other e))

  abbrev kept : Str → Str → Str
  kept id e =
      codes "box "
      ++ (b'"' ∷ id ++ b'"' ∷ [])
      ++ codes " cannot be destroyed right now: "
      ++ e
      ++ codes
          "; the box record is kept — retry when its spoke reconnects, or drop the spoke to purge it"

  abbrev pub destroy_on : Str → Server W → Result Str Str → Server W × Option Failure
  destroy_on id srv (failed e) = (srv, some (other (kept id e)))
  destroy_on id srv (ok name) = destroyed id srv (W.destroy name id srv.world)

  abbrev pub destroy_hosted : Str → Server W → W.State × Option Str → Server W × Option Failure
  destroy_hosted id srv (w, none) = (forget id (record srv { world = w }), none)
  destroy_hosted id srv (w, some name) =
      destroyed id (record srv { world = w }) (W.destroy name id w)

  abbrev pub destroy_matched : Str → Server W → Option Session → Server W × Option Failure
  destroy_matched id srv none =
      destroy_hosted id srv (spoke_hosting_box id (W.spokes srv.world) srv.world)
  destroy_matched id srv (some s) =
      if terminated s
      then (forget id srv, none)
      else destroy_on id srv (spoke W s.spoke_name srv.world)

  -- `destroyBox`.
  unfoldable pub destroy_box : Str → Server W → Server W × Option Failure
  unfolding first_match spoke_hosting_box forget spoke
  destroy_box id srv = destroy_matched id srv (first_match id srv.by_token)

  -- The hooks of records that were removed whatever their state.
  pub run_all_hooks : Table Str Session → W.State → W.State
  unfolding run_destroy_hooks
  run_all_hooks [] w = w
  run_all_hooks ((k, s) ∷ m) w = run_all_hooks m (run_destroy_hooks W s.box_id s.hook_state w)

  abbrev pub departed : List Str → W.State → Session → Bool
  departed known w s = not (contains known (resolve_stored_spoke W s.spoke_name w))

  pub purged_ids : Table Str Session → List Str
  purged_ids [] = []
  purged_ids ((k, s) ∷ m) = if s.box_id == [] then purged_ids m else s.box_id ∷ purged_ids m

  abbrev pub pruned : Server W → W.State × Result Str (List Str) → Server W × Result Str (List Str)
  pruned srv (w, failed e) =
      (record srv { world = w }, failed (codes "listing enrolled spokes: " ++ e))
  pruned srv (w, ok known) =
      let gone = keep (λ tok. departed known w) srv.by_token in
      (
        record srv {
          by_token = keep (λ tok s. not (departed known w s)) srv.by_token;
          world = W.prune_proxies known (run_all_hooks gone (delete_boxes W (keys gone) w));
        },
        ok (purged_ids gone),
      )

  -- `PruneDepartedSpokes`, for a hub that has spokes.
  unfoldable pub prune_departed_spokes : Server W → Server W × Result Str (List Str)
  unfolding delete_boxes run_all_hooks resolve_stored_spoke purged_ids
  prune_departed_spokes srv = pruned srv (W.known_spokes srv.world)

  load_records : List BoxRecord → Table Str Session → Table Str Session
  unfolding session_from_persisted
  load_records [] m = m
  load_records (r ∷ rs) m = load_records rs (put r.token (session_from_persisted r) m)

  abbrev loaded : Server W → W.State × Result Str (List BoxRecord) → Server W × Error
  loaded srv (w, failed e) = (record srv { world = w }, some (codes "loading sessions: " ++ e))
  loaded srv (w, ok saved) = (
    (prune_departed_spokes
        (record srv { by_token = load_records saved srv.by_token; world = w })).0,
    none,
  )

  -- `Restore`, but for the number that it reports; an error of pruning is only logged.
  restore : Server W → Server W × Error
  unfolding load_records prune_departed_spokes
  restore srv = loaded srv (W.list_box_records srv.world)
