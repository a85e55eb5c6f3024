-- ===== src/Hub/Sessions/Looking.antt =====
-- internal/hub/server.go, `lookupByBoxID` and the verbs of a box that use it.
pub mod Order
pub mod Best
use llmbox.Prelude.{
  Bool, true, false, not, ◌&&◌, ◌||◌, Option, none, some, List, [], ◌∷◌, ◌++◌, ℤ, after,
  if◌then◌else◌, Str, codes, str_eq, str_beq, str_le, ◌==◌, Table, Result, ok, failed,
}
use llmbox.Box.Identifiers.{equal_fold}
use llmbox.Box.Provisioner.{Failure, not_found, other}
use llmbox.Hub.Records.{Session, World, terminated}
use llmbox.Hub.Sessions.{Server, spoke}
use llmbox.Hub.Sessions.Syncing.{sync_spoke}

abbrev pub matches_id : Str → Session → Bool
matches_id id s = not (s.box_id == []) && equal_fold s.box_id id

-- The rows with a box ID, as a Go map yields them.
pub sessions_with : Str → Table Str Session → List Session
sessions_with id [] = []
sessions_with id ((k, s) ∷ m) =
    if matches_id id s then s ∷ sessions_with id m else sessions_with id m

abbrev is_ok : {A : Type 0} → Result Str A → Bool
is_ok (ok a) = true
is_ok (failed e) = false

-- `betterBoxIDMatch`, with whether each box is alive and its spoke is reachable.
abbrev pub Rank : Type 0
Rank = Bool × Bool

abbrev differ : Bool → Bool → Bool
differ true b = not b
differ false b = b

pub better : Session → Rank → Session → Rank → Bool
better c (c_alive, c_reachable) best (alive, reachable) =
    if differ c_alive alive
    then c_alive
    else (if differ c_reachable reachable
        then c_reachable
        else (if after c.created_at best.created_at
            then true
            else (if after best.created_at c.created_at
                then false
                else not (str_le best.token c.token))))

module _ (W : World) where
  -- `spokeReachable`.
  pub spoke_reachable : Str → W.State → Bool
  unfolding spoke
  spoke_reachable name w = is_ok (spoke W name w)

  abbrev pub rank : W.State → Session → Rank
  rank w s = (not (terminated s), spoke_reachable s.spoke_name w)

  abbrev pub preferred : W.State → Session → Session → Bool
  preferred w c best = better c (rank w c) best (rank w best)

  -- The loop of `lookupByBoxID`.
  pub best_of : W.State → Session → List Session → Session
  unfolding better spoke_reachable
  best_of w best [] = best
  best_of w best (c ∷ cs) = best_of w (if preferred w c best then c else best) cs

  abbrev pub first_best : W.State → List Session → Option Session
  first_best w [] = none
  first_best w (best ∷ cs) = some (best_of w best cs)

  -- `lookupByBoxID`.
  pub lookup_by_box_id : Str → Server W → Option Session
  unfolding sessions_with best_of
  lookup_by_box_id id srv = first_best srv.world (sessions_with id srv.by_token)

  abbrev quoted : Str → Str
  quoted id = b'"' ∷ id ++ b'"' ∷ []

  abbrev unknown : Str → Str
  unknown id =
      codes "no box found with box ID "
      ++ quoted id
      ++ codes " (it may have expired, or was created without a box ID)"

  abbrev gone : Str → Str
  gone id = codes "box " ++ quoted id ++ codes " is terminated (it no longer exists on its spoke)"

  -- The inventory of the spoke is read again after a call that succeeds.
  abbrev and_sync : Str → Server W → W.State × Option Failure → Server W × Option Failure
  and_sync name srv (w, some e) = (record srv { world = w }, some e)
  and_sync name srv (w, none) = (sync_spoke W name (record srv { world = w }), none)

  abbrev call_on :
      (Str → Str → W.State → W.State × Option Failure)
      → Session
      → Server W
      → Result Str Str
      → Server W × Option Failure
  call_on call s srv (failed e) = (srv, some (other e))
  call_on call s srv (ok name) = and_sync s.spoke_name srv (call name s.box_id srv.world)

  abbrev call_box :
      (Str → Str → W.State → W.State × Option Failure)
      → Str
      → Server W
      → Option Session
      → Server W × Option Failure
  call_box call id srv none = (srv, some (other (unknown id)))
  call_box call id srv (some s) =
      if terminated s
      then (srv, some (other (gone id)))
      else call_on call s srv (spoke W s.spoke_name srv.world)

  -- `pauseBox` and `resumeBox`.
  pause_box : Str → Server W → Server W × Option Failure
  unfolding lookup_by_box_id spoke sync_spoke
  pause_box id srv = call_box W.pause id srv (lookup_by_box_id id srv)

  resume_box : Str → Server W → Server W × Option Failure
  unfolding lookup_by_box_id spoke sync_spoke
  resume_box id srv = call_box W.resume id srv (lookup_by_box_id id srv)
