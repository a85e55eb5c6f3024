-- ===== src/Hub/Sessions/Syncing.antt =====
-- internal/hub/server.go, `syncSpokeInventory` and its callers: the records of a spoke are brought in
-- line with the boxes that it reports.
use llmbox.Prelude.{
  Bool, not, ◌&&◌, ◌||◌, Option, none, some, List, [], ◌∷◌, ℤ, pos, ◌+ℤ◌, after, if◌then◌else◌, Str,
  str_eq, ◌==◌, ◌*◌, Table, map_values, Result, ok, failed,
}
use llmbox.Box.Provisioner.{BoxView}
use llmbox.Hub.Records.{
  Session, World, persist, box_state_running, box_state_terminated, terminated,
}
use llmbox.Hub.Sessions.{Server, resolve_stored_spoke, run_destroy_hooks}

-- A minute.
abbrev sync_terminate_grace : ℤ
sync_terminate_grace = pos (60 * 1000000000)

-- The box of a record in a listing.
unfoldable pub live_box : List BoxView → Session → Option BoxView
live_box [] s = none
live_box (b ∷ bs) s =
    if not (b.instance_id == []) && s.generation == b.instance_id then some b else live_box bs s

-- What a listing says of a record.
pub data Seen : Type 0 where
  found : BoxView → Seen
  unsure : Seen
  vanished : Seen

unfoldable pub seen : ℤ → List BoxView → Session → Seen
unfolding live_box
seen now boxes s = elim (live_box boxes s) [
  | some b ↦ found b
  | none ↦
      if terminated s || after (s.created_at +ℤ sync_terminate_grace) now then unsure else vanished
]

abbrev pub observed : ℤ → Session → Seen → Session
observed now s (found b) = record s {
  box_state = box_state_running;
  last_seen = now;
  name = b.name;
  image = b.image;
  instance_state = b.state;
}
observed now s unsure = s
observed now s vanished = record s { box_state = box_state_terminated }

module _ (W : World) where
  abbrev pub pinned : Str → W.State → Session → Bool
  pinned name w s = resolve_stored_spoke W s.spoke_name w == name

  -- A record after the listing of a spoke.
  unfoldable pub synced : Str → List BoxView → W.State → Session → Session
  unfolding seen
  synced name boxes w s =
      if pinned name w s then observed (W.now w) s (seen (W.now w) boxes s) else s

  abbrev store_seen : ℤ → Session → Seen → W.State → W.State
  store_seen now s unsure u = u
  store_seen now s (found b) u = (W.put_box (persist (observed now s (found b))) u).0
  store_seen now s vanished u = (W.put_box (persist (observed now s vanished)) u).0

  -- The rows that are written, before anything is torn down.
  unfoldable pub store_synced : Str → List BoxView → W.State → Table Str Session → W.State → W.State
  unfolding seen
  store_synced name boxes w [] u = u
  store_synced name boxes w ((k, s) ∷ m) u =
      let stored = store_seen (W.now w) s (seen (W.now w) boxes s) u in
      store_synced name boxes w m (if pinned name w s then stored else u)

  abbrev torn : Session → Seen → W.State → W.State
  torn s (found b) u = u
  torn s unsure u = u
  torn s vanished u =
      W.delete_proxies_for_box s.box_id (run_destroy_hooks W s.box_id s.hook_state u)

  -- The hooks and the proxies of the boxes that have vanished.
  unfoldable pub tear_down_vanished :
      Str → List BoxView → W.State → Table Str Session → W.State → W.State
  unfolding seen run_destroy_hooks
  tear_down_vanished name boxes w [] u = u
  tear_down_vanished name boxes w ((k, s) ∷ m) u =
      let gone = torn s (seen (W.now w) boxes s) u in
      tear_down_vanished name boxes w m (if pinned name w s then gone else u)

  -- `syncSpokeInventory`. The spoke of a record is resolved before anything is written.
  unfoldable pub sync_spoke_inventory : Str → List BoxView → Server W → Server W
  unfolding synced store_synced tear_down_vanished resolve_stored_spoke
  sync_spoke_inventory name boxes srv =
      let w = srv.world in
      record srv {
        by_token = map_values (synced name boxes w) srv.by_token;
        world =
            tear_down_vanished name boxes w srv.by_token (store_synced name boxes w srv.by_token w);
      }

  abbrev pub folded : Str → Server W → W.State × Result Str (List BoxView) → Server W
  folded name srv (w, failed e) = record srv { world = w }
  folded name srv (w, ok boxes) = sync_spoke_inventory name boxes (record srv { world = w })

  -- `syncSpoke`.
  unfoldable pub sync_spoke : Str → Server W → Server W
  unfolding sync_spoke_inventory
  sync_spoke name srv = folded name srv (W.list name srv.world)
