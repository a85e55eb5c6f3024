-- ===== src/Box/Naming.antt =====
-- Which names `Find` takes for a box in the Docker, Firecracker and Cloud Hypervisor backends
-- (internal/spoke/docker, internal/spoke/firecracker and internal/spoke/cloudhypervisor).
use llmbox.Prelude.{
  ◌≡◌, ◌≢◌, ◌⊎◌, inl, inr, Bool, true, false, not, ◌&&◌, ◌||◌, none, some, [], ◌++◌, arith, Str,
  codes, str_eq, str_beq_iff, ◌==◌, cut_prefix, cut_prefix_iff,
}
use llmbox.Box.Provisioner.{BoxView}

-- The prefixes of names by the phase of a box, the same in all backends.
abbrev pending_prefix : Str
pending_prefix = codes "llmbox-pending-"

abbrev ready_prefix : Str
ready_prefix = codes "llmbox-"

has_prefix : Str → Str → Bool
has_prefix s p = elim (cut_prefix p s) [ none ↦ false | some rest ↦ true ]

pub docker_answers_to : Str → BoxView → Bool
docker_answers_to id b =
    (not (b.box_id == []) && b.box_id == id)
    || (not (b.instance_id == []) && b.instance_id == id)
    || (b.name == id || b.name == pending_prefix ++ id || b.name == ready_prefix ++ id)

pub firecracker_answers_to : Str → BoxView → Bool
unfolding has_prefix
firecracker_answers_to id b =
    b.instance_id == id
    || (not (b.box_id == []) && b.box_id == id)
    || (b.name == id
        || has_prefix b.instance_id id
        || b.name == pending_prefix ++ id
        || b.name == ready_prefix ++ id)

pub cloud_hypervisor_answers_to : Str → BoxView → Bool
cloud_hypervisor_answers_to id b = b.instance_id == id || (not (b.box_id == []) && b.box_id == id)

-- A box that answers to no name but the empty one has another instance ID and another box ID.
abbrev Unnamed : Str → BoxView → Type 0
Unnamed id b = ((b.instance_id ≢ id) × (b.box_id ≢ id)) ⊎ (id ≡ [])

either : (a b c : Bool) → (a || b || c) ≡ false → (a ≡ false) × (b ≡ false)
either a b c h = ground arith

apart : (s id : Str) → (s == id) ≡ false → s ≢ id
apart s id h e = ground (arith, str_beq_iff s id)

apart_named : (s id : Str) → (not (s == []) && s == id) ≡ false → (s ≢ id) ⊎ (id ≡ [])
apart_named s id h = ground (arith, str_beq_iff s [], str_beq_iff s id)

both :
    (s t id : Str) → (s ≢ id) ⊎ (id ≡ []) → (t ≢ id) ⊎ (id ≡ []) → ((s ≢ id) × (t ≢ id)) ⊎ (id ≡ [])
both s t id (inr e) g = inr e
both s t id (inl h) (inr e) = inr e
both s t id (inl h) (inl g) = inl (h, g)

docker_lem : (id : Str) (b : BoxView) → docker_answers_to id b ≡ false → Unnamed id b
unfolding docker_answers_to
docker_lem id b h =
    let (box, instance) = either _ _ _ h in
    both b.instance_id b.box_id id (apart_named b.instance_id id instance)
      (apart_named b.box_id id box)

firecracker_lem : (id : Str) (b : BoxView) → firecracker_answers_to id b ≡ false → Unnamed id b
unfolding firecracker_answers_to
firecracker_lem id b h =
    let (instance, box) = either _ _ _ h in
    both b.instance_id b.box_id id (inl (apart b.instance_id id instance))
      (apart_named b.box_id id box)

-- A name answers for every box whose instance ID begins with it, also where it is the box ID of
-- another box.
firecracker_prefix :
    (id rest : Str) (b : BoxView) → b.instance_id ≡ id ++ rest → firecracker_answers_to id b ≡ true
unfolding firecracker_answers_to has_prefix
firecracker_prefix id rest b e =
    let cut = (cut_prefix_iff id b.instance_id rest).1 e in rw (cut, has_prefix) (ground arith)
