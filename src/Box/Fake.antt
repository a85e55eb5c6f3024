-- ===== src/Box/Fake.antt =====
-- internal/spoke/box/conformance/fake.go: a backend in memory, with a guest agent in each box. It
-- fills the interface of Box.Provisioner.
pub mod Calls
pub mod Boxes
pub mod Contract
use llmbox.Prelude.{
  ℕ, zero, suc, ◌+◌, ◌-◌, ◌≤◌, ◌<◌, ◌≡◌, refl, sym, subst, Bool, true, false, not, ◌&&◌, ◌||◌,
  Option, none, some, List, [], ◌∷◌, ◌++◌, map, arith, inl, inr, Bool-cases, pos, ℤ, if◌then◌else◌,
  leb, filter, All, length, Str, codes, str_eq, str_beq, ◌==◌, decimal, Result, ok, failed,
}
use llmbox.Netfw.Firewall.{Error}
use llmbox.Guest.Words.{Bytes}
use llmbox.Guest.Agent.{InitReq, InitResp, ExecResult, Response, Os}
use llmbox.Guest.PutFile.{handle_put_file}
use llmbox.Guest.Verbs.{Host, handle_init, handle_exec}
use llmbox.Box.Provisioner.{
  BoxView, CreateOptions, CopyFile, Failure, not_found, other, Key, key_of,
}

-- `fmt.Sprintf("fakebox%06d", n)`.
abbrev pub zeros : ℕ → Str
zeros zero = []
zeros (suc n) = b'0' ∷ zeros n

unfoldable pub fake_id : ℕ → Str
unfolding decimal
fake_id n = codes "fakebox" ++ (zeros (6 - length (decimal n)) ++ decimal n)

module _ (O : Os) where
  -- `fakeInstance`, by the number that its ID has, with the agent that it serves.
  pub record FakeInstance : Type 0 where
    pub number : ℕ
    pub box_id : Str
    pub phase : Str
    pub paused : Bool
    pub created : ℤ
    pub host : Host O

  -- `Fake`: the boxes by number, with the clock, how the next starts of an agent end, the
  -- agent and the system that each number starts with, and the files of the host.
  pub record Fake : Type 0 where
    pub n : ℕ
    pub insts : List FakeInstance
    pub numbered : All (λ i. i.number ≤ n) insts
    pub now : ℤ
    pub fresh : ℕ → Host O
    pub faults : List Error
    pub files : Str → Option Bytes

  -- `Meta`.
  unfoldable pub meta : FakeInstance → BoxView
  unfolding fake_id
  meta i = record {
    instance_id = fake_id i.number;
    name = fake_id i.number;
    box_id = i.box_id;
    image = codes "fake";
    state = if i.paused then codes "paused" else codes "running";
    phase = i.phase;
    created = i.created;
  }

  abbrev pub fake_key : FakeInstance → Key
  fake_key i = (fake_id i.number, i.box_id)

  abbrev pub next_end : List Error → Error
  next_end [] = none
  next_end (e ∷ _) = e

  abbrev later_ends : List Error → List Error
  later_ends [] = []
  later_ends (_ ∷ es) = es

  pub numbered_later :
      (m : ℕ) (xs : List FakeInstance) → All (λ i. i.number ≤ m) xs → All (λ i. i.number ≤ suc m) xs
  numbered_later m [] h = tt
  numbered_later m (x ∷ xs) (h, hs) = (omega arith, numbered_later m xs hs)

  pub numbered_new :
      (m : ℕ) (xs : List FakeInstance) (i : FakeInstance)
      → All (λ i. i.number ≤ m) xs
      → i.number ≡ suc m
      → All (λ i. i.number ≤ suc m) (xs ++ i ∷ [])
  numbered_new m [] i h e = (omega arith, tt)
  numbered_new m (x ∷ xs) i (h, hs) e = (omega arith, numbered_new m xs i hs e)

  pub numbered_filter :
      (m : ℕ) (p : FakeInstance → Bool) (xs : List FakeInstance)
      → All (λ i. i.number ≤ m) xs
      → All (λ i. i.number ≤ m) (filter p xs)
  numbered_filter m p [] h = tt
  numbered_filter m p (x ∷ xs) (h, hs) = elim (Bool-cases (p x)) [
    | inl keep ↦ rw keep (h, numbered_filter m p xs hs)
    | inr drop ↦ rw drop (numbered_filter m p xs hs)
  ]

  pub numbered_map :
      (m : ℕ) (f : FakeInstance → FakeInstance) (xs : List FakeInstance)
      → ((i : FakeInstance) → (f i).number ≡ i.number)
      → All (λ i. i.number ≤ m) xs
      → All (λ i. i.number ≤ m) (map f xs)
  numbered_map m f [] same h = tt
  numbered_map m f (x ∷ xs) same (h, hs) =
      (subst (λ k. k ≤ m) (sym (same x)) h, numbered_map m f xs same hs)

  abbrev pub started : CreateOptions → Fake → FakeInstance
  started opts f = record {
    number = suc f.n;
    box_id = opts.box_id;
    phase = codes "pending";
    paused = false;
    created = f.now;
    host = f.fresh (suc f.n);
  }

  -- `Provision`: the number is taken, and then the directory and the agent may fail.
  abbrev pub taken : Fake → Fake
  taken f = record f {
    n = suc f.n;
    numbered = numbered_later f.n f.insts f.numbered;
    faults = later_ends f.faults;
  }

  abbrev pub provisioned : CreateOptions → Fake → Error → Fake × Result Str BoxView
  provisioned opts f (some e) = (taken f, failed e)
  provisioned opts f none = (
    record f {
      n = suc f.n;
      faults = later_ends f.faults;
      insts = f.insts ++ started opts f ∷ [];
      numbered = numbered_new f.n f.insts (started opts f) f.numbered refl;
    },
    ok (meta (started opts f)),
  )

  unfoldable pub provision : CreateOptions → Fake → Fake × Result Str BoxView
  unfolding meta
  provision opts f = provisioned opts f (next_end f.faults)

  -- `List`, whose order is that of the numbers.
  unfoldable pub list : Fake → Fake × Result Str (List BoxView)
  unfolding meta
  list f = (f, ok (map meta f.insts))

  abbrev pub has_id : Str → FakeInstance → Bool
  has_id id i = fake_id i.number == id

  -- The first box with a property.
  unfoldable pub first_with : (FakeInstance → Bool) → List FakeInstance → Option FakeInstance
  first_with p [] = none
  first_with p (i ∷ is) = if p i then some i else first_with p is

  abbrev pub missing : Str → Str
  missing id = codes "no managed box matches " ++ (b'"' ∷ id ++ b'"' ∷ [])

  abbrev pub named : Str → FakeInstance → Bool
  named id i = not (i.box_id == []) && i.box_id == id

  -- Which names `Find` takes for a box.
  abbrev pub answers_to : Str → BoxView → Bool
  answers_to id b = b.instance_id == id || not (b.box_id == []) && b.box_id == id

  abbrev pub found : Str → Option FakeInstance → Option FakeInstance → Result Failure BoxView
  found id (some i) _ = ok (meta i)
  found id none (some i) = ok (meta i)
  found id none none = failed (not_found (missing id))

  -- `Find`, which takes the first of boxes that share a box ID.
  unfoldable pub find : Str → Fake → Fake × Result Failure BoxView
  unfolding meta first_with
  find id f = (f, found id (first_with (has_id id) f.insts) (first_with (named id) f.insts))

  abbrev pub gone : Str → Option Failure
  gone id = some (not_found (missing id))

  abbrev pub ended : Str → Option FakeInstance → Option Failure
  ended id none = gone id
  ended id (some i) = none

  -- `Destroy`.
  unfoldable pub destroy : Str → Fake → Fake × Option Failure
  unfolding first_with
  destroy id f = (
    record f {
      insts = filter (λ i. not (has_id id i)) f.insts;
      numbered = numbered_filter f.n (λ i. not (has_id id i)) f.insts f.numbered;
    },
    ended id (first_with (has_id id) f.insts),
  )

  abbrev pub on_id : Str → (FakeInstance → FakeInstance) → FakeInstance → FakeInstance
  on_id id g i = if has_id id i then g i else i

  pub on_id_number :
      (id : Str) (g : FakeInstance → FakeInstance)
      → ((i : FakeInstance) → (g i).number ≡ i.number)
      → (i : FakeInstance) → (on_id id g i).number ≡ i.number
  on_id_number id g same i = elim (Bool-cases (has_id id i)) [
    | inl it ↦ rw it (same i)
    | inr apart ↦ rw apart refl
  ]

  -- The boxes after a change of one of them.
  abbrev pub changed :
      (id : Str) (g : FakeInstance → FakeInstance)
      → ((i : FakeInstance) → (g i).number ≡ i.number)
      → Fake
      → Fake
  changed id g same f = record f {
    insts = map (on_id id g) f.insts;
    numbered = numbered_map f.n (on_id id g) f.insts (on_id_number id g same) f.numbered;
  }

  abbrev readied : FakeInstance → FakeInstance
  readied i = record i { phase = codes "ready" }

  abbrev pub stopped : FakeInstance → FakeInstance
  stopped i = record i { paused = true }

  -- A box whose agent is served again is as new to the agent, with what its directory held.
  abbrev pub served : Fake → FakeInstance → FakeInstance
  served f i = record i { paused = false; host = ((f.fresh i.number).0, i.host.1) }

  abbrev pub hosted : Host O → FakeInstance → FakeInstance
  hosted h i = record i { host = h }

  -- `MarkReady`.
  mark_ready : Str → Fake → Fake
  mark_ready id f = changed id readied (λ i. refl) f

  -- `Pause`.
  abbrev pub paused : Str → Fake → Option FakeInstance → Fake × Option Failure
  paused id f none = (f, gone id)
  paused id f (some i) = (changed id stopped (λ i. refl) f, none)

  unfoldable pub pause : Str → Fake → Fake × Option Failure
  unfolding first_with
  pause id f = paused id f (first_with (has_id id) f.insts)

  -- `Resume`, whose agent may fail to be served again.
  abbrev pub resumed : Str → Fake → Option FakeInstance → Error → Fake × Option Failure
  resumed id f none e = (f, gone id)
  resumed id f (some i) (some e) = (record f { faults = later_ends f.faults }, some (other e))
  resumed id f (some i) none =
      (changed id (served f) (λ i. refl) (record f { faults = later_ends f.faults }), none)

  unfoldable pub resume : Str → Fake → Fake × Option Failure
  unfolding first_with
  resume id f = resumed id f (first_with (has_id id) f.insts) (next_end f.faults)
