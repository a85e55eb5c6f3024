-- ===== src/Box/Examples.antt =====
-- The manager over the backend in memory, with the agent of internal/guest in its boxes.
use llmbox.Prelude.{
  if◌then◌else◌, ◌≡◌, refl, true, none, some, List, [], ◌∷◌, arith, pos, Str, codes, str_eq,
  str_beq, ◌==◌, cut_prefix, digits, decimal,
}
use llmbox.Prelude.Regex.{matches}
use llmbox.Guest.Agent
use llmbox.Guest.Verbs
use llmbox.Guest.PutFile
use llmbox.Guest.Machine.{small_os, new_agent}
use llmbox.Box.Identifiers
use llmbox.Box.Provisioner.{Backend, Applier, CreateOptions}
use llmbox.Box.Manager
use llmbox.Box.Manager.{Config, Spoke, create, admit, destroy}
use llmbox.Box.Manager.Steps.{IsWithin, admits, destroys, here, next, Reach, Reach-IsWithin}
use llmbox.Box.Manager.Creating.{Leaves, create-Leaves}
use llmbox.Box.Manager.Destroying.{Gone, destroy_lem}
use llmbox.Box.Fake
use llmbox.Box.Fake.{Fake}
use llmbox.Box.Fake.Calls
use llmbox.Box.Fake.Contract.{held, fake_backend, fake_safe}

abbrev backend : Backend
backend = fake_backend small_os

-- An applier that notes which boxes it released.
abbrev applier : Applier
applier = record {
  State = List Str;
  Policy = Str;
  set_network_policy = λ id policy s. (s, none);
  release = λ id s. (id ∷ s, none);
}

abbrev config : Config
config = record {
  max_boxes = 2;
  init_script = codes "setup";
  init_script_timeout = pos 0;
  copy_files =
      record { host_path = codes "/etc/hosts"; box_path = codes "/etc/hosts"; mode = pos 0 } ∷ [];
  publish_ports = [];
  isolates = true;
}

-- A host that has one file.
abbrev no_boxes : Fake small_os
no_boxes = record {
  n = 0;
  insts = [];
  numbered = tt;
  now = pos 7;
  fresh = λ n. (new_agent, []);
  faults = [];
  files = λ path. if path == codes "/etc/hosts" then some (codes "localhost") else none;
}

abbrev asked : CreateOptions
asked = record {
  box_id = codes "web";
  description = [];
  spoke_name = [];
  files = [];
  disk_bytes = pos 0;
}

-- What the examples compute with.
computing : Unit {0}
unfolding matches Identifiers.valid_box_id Identifiers.equal_fold Manager.used_by Manager.admit
    Manager.copy_files Manager.failure_detail Manager.finish Manager.create Manager.destroy
    Fake.fake_id Fake.meta Fake.provision Fake.list Fake.first_with Fake.find Fake.destroy
    Fake.pause Fake.resume Calls.init Calls.exec Calls.put_file Agent.cap_output Agent.has_env_key
    Agent.home_from_env Agent.write_inject_file Agent.write_files Agent.entry_env
    Agent.run_init_script Verbs.handle_init Verbs.handle_exec PutFile.write_put_file
    PutFile.handle_put_file digits decimal str_beq cut_prefix
computing = tt

abbrev with_web : Fake small_os
with_web = (create backend applier config asked no_boxes).0

create-Leaves_example :
    Leaves backend applier config asked no_boxes (create backend applier config asked no_boxes)
create-Leaves_example = create-Leaves backend applier config (fake_safe small_os) asked no_boxes

held_web : held small_os with_web ≡ (codes "fakebox000001", codes "web") ∷ []
unfolding computing
held_web = refl

-- The box is admitted, another one with its ID is refused, and the first is destroyed.
abbrev once : Fake small_os
once = (admit backend applier config asked no_boxes).0

abbrev refused : Fake small_os
refused = (admit backend applier config asked once).0

abbrev emptied : Fake small_os
emptied = (destroy backend applier config (codes "web") (refused, [])).0.0

steps : Reach backend applier config no_boxes emptied
steps =
    next (next (next here (admits asked no_boxes)) (admits asked once))
      (destroys (codes "web") [] refused)

Reach-IsWithin_example : IsWithin backend applier config (held small_os emptied)
Reach-IsWithin_example = Reach-IsWithin backend applier config ((λ capped. omega arith), tt) steps

destroy_lem_example :
    Gone backend applier config
      (codes "web")
      (with_web, [])
      (destroy backend applier config (codes "web") (with_web, [])).0
unfolding computing
destroy_lem_example = destroy_lem backend applier config (codes "web") with_web [] refl
