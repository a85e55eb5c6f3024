-- ===== src/Hub/Sessions/Examples.antt =====
-- The registry of boxes at concrete inputs.
use llmbox.Prelude.{
  refl, false, none, List, [], ◌∷◌, pos, inl, Str, codes, str_eq, str_beq, ◌==◌, put, keep,
  to_lower, contains, ok, lower_byte,
}
use llmbox.Prelude.Regex.{matches}
use llmbox.Box.Identifiers
use llmbox.Box.Provisioner.{CreateOptions}
use llmbox.Hub.Records
use llmbox.Hub.Records.{Session, World}
use llmbox.Hub.Sessions
use llmbox.Hub.Sessions.{Server, release_box_id}
use llmbox.Hub.Sessions.Creating
use llmbox.Hub.Sessions.Creating.{begin_create, make_box, session_of, register, create_box}
use llmbox.Hub.Sessions.Syncing
use llmbox.Hub.Sessions.Forgetting.{destroy_box}
use llmbox.Hub.Sessions.Looking.{lookup_by_box_id}
use llmbox.Hub.Sessions.Looking.Best.{Looked, lookup_by_box_id_lem}
use llmbox.Hub.Sessions.Unique.{IsUnique}
use llmbox.Hub.Sessions.Steps.{begins, is_refused, registers, Reach, here, next, Reach-IsUnique}
use llmbox.Hub.Sessions.Registering.{Leaves, create_box-Leaves}
use llmbox.Hub.Sessions.Destroying.{Destroys, destroy_box-Destroys}

-- One spoke, on which each call succeeds. The state is the tokens of the rows that were written.
abbrev small_world : World
small_world = record {
  State = List Str;
  now = λ w. pos 7;
  default_spoke = λ w. ok (codes "alpha");
  connected = λ name w. name == codes "alpha";
  spokes = λ w. codes "alpha" ∷ [];
  create = λ name opts w. (
    w,
    ok (record {
      instance_id = codes "i1";
      init_script_failed = false;
      init_script_output = [];
      publish_ports = [];
    }),
  );
  destroy = λ name id w. (w, none);
  list = λ name w. (w, ok []);
  pause = λ name id w. (w, none);
  resume = λ name id w. (w, none);
  on_create = λ id description w. (w, [], ok []);
  on_destroy = λ id state w. w;
  put_box = λ r w. (r.token ∷ w, none);
  delete_box = λ token w. (w, none);
  list_box_records = λ w. (w, ok []);
  known_spokes = λ w. (w, ok (codes "alpha" ∷ []));
  delete_proxies_for_box = λ id w. w;
  prune_proxies = λ known w. w;
  publish = λ s ports w. w;
  new_token = λ w. (w, ok (codes "t1"));
  hash_token = λ token. token;
}

abbrev new_server : Server small_world
new_server = record { by_token = []; pending_box_ids = []; world = [] }

abbrev asked : CreateOptions
asked = record {
  box_id = codes "web";
  description = [];
  spoke_name = [];
  files = [];
  disk_bytes = pos 0;
}

-- What the examples compute with.
computing : Unit {0}
unfolding matches Identifiers.valid_box_id Identifiers.equal_fold Records.persist
    Sessions.resolve_stored_spoke Sessions.spoke Sessions.first_holder Sessions.reserve_box_id
    Sessions.release_box_id Sessions.delete_boxes Sessions.drop_terminated_records
    Sessions.run_destroy_hooks Creating.begin_create Creating.make_box Creating.session_of
    Creating.register Creating.after_register Creating.create_box Syncing.live_box Syncing.seen
    Syncing.synced Syncing.store_synced Syncing.tear_down_vanished Syncing.sync_spoke_inventory
    Syncing.sync_spoke str_beq put keep to_lower lower_byte contains
computing = tt

create_box-Leaves_example :
    Leaves small_world asked new_server (create_box small_world asked new_server)
create_box-Leaves_example = create_box-Leaves small_world asked new_server

abbrev with_web : Server small_world
with_web = (create_box small_world asked new_server).0

lookup_by_box_id_lem_example :
    Looked small_world (codes "Web") with_web (lookup_by_box_id small_world (codes "Web") with_web)
lookup_by_box_id_lem_example = lookup_by_box_id_lem small_world (codes "Web") with_web

destroy_box-Destroys_example :
    Destroys small_world (codes "web") with_web (destroy_box small_world (codes "web") with_web)
destroy_box-Destroys_example = destroy_box-Destroys small_world (codes "web") with_web

-- A creation begins, another one of its ID is refused, and the first registers its box.
abbrev claimed : Server small_world
claimed = (begin_create small_world asked new_server).0

abbrev web : Session
web =
    session_of small_world asked (codes "alpha")
      (
        record {
          instance_id = codes "i1";
          init_script_failed = false;
          init_script_output = [];
          publish_ports = [];
        },
        [],
        codes "t1",
      )
      []

abbrev registered : Server small_world
registered = register small_world web claimed

steps : Reach small_world new_server [] registered []
unfolding computing
steps =
    next
      (next (next here (begins asked (codes "alpha") new_server [] refl))
        (is_refused asked _ claimed (codes "web" ∷ []) refl))
      (registers web claimed (codes "web" ∷ []) (inl refl))

Reach-IsUnique_example : IsUnique registered.by_token
Reach-IsUnique_example = Reach-IsUnique small_world (tt, tt) steps
