-- ===== src/Netfw/Recording.antt =====
-- internal/spoke/netfw/recording.go: the in-memory `Programmer`, and that it keeps the contract.
use llmbox.Prelude.{
  ◌≡◌, ◌≢◌, Bool, true, false, Option, none, some, inl, inr, arith, if◌then◌else◌, Option-cases,
  Str, Table, get, put, del, get-put, get-del, get-nil, str_beq_iff, str_eq, [], ◌&&◌,
}
use llmbox.Netip.{Addr, invalid, addr_eq, addr_beq_iff}
use llmbox.Netfw.Firewall.{Programmer, BoxSpec, no_spec, Error}

pub record BoxState : Type 0 where
  pub spec : BoxSpec
  pub allow : Table Addr Bool

abbrev pub Boxes : Type 0
Boxes = Table Str BoxState

unfoldable pub baseline : Str → BoxSpec → Boxes → Boxes × Error
baseline b spec s = (put b (record { spec = spec; allow = [] }) s, none)

abbrev spec_in : Option BoxState → Option BoxSpec
spec_in none = none
spec_in (some box) = some box.spec

-- `Spec`.
abbrev spec : Boxes → Str → Option BoxSpec
spec s b = spec_in (get b s)

-- The box's entry, or the one that `Allow` starts.
entry : Option BoxState → BoxState
entry none = record { spec = no_spec; allow = [] }
entry (some box) = box

unfoldable pub allow : Str → Addr → Boxes → Boxes × Error
unfolding entry
allow b i s =
    let box = entry (get b s) in (put b (record box { allow = put i true box.allow }) s, none)

revoke_in : Str → Addr → Option BoxState → Boxes → Boxes
revoke_in b i none s = s
revoke_in b i (some box) s = put b (record box { allow = del i box.allow }) s

unfoldable pub revoke : Str → Addr → Boxes → Boxes × Error
unfolding revoke_in
revoke b i s = (revoke_in b i (get b s) s, none)

unfoldable pub teardown : Str → Boxes → Boxes × Error
teardown b s = (del b s, none)

holds : Option Bool → Bool
holds none = false
holds (some v) = v

allowed_in : Addr → Option BoxState → Bool
unfolding holds
allowed_in i none = false
allowed_in i (some box) = holds (get i box.allow)

-- `Allowed`.
unfoldable pub allowed : Boxes → Str × Addr → Bool
unfolding allowed_in
allowed s (b, i) = allowed_in i (get b s)

-- What each call does to every address of every box.
allowed-allow :
    (b c : Str) (i j : Addr) (s : Boxes)
    → allowed (allow b i s).0 (c, j)
      ≡ (if str_eq.beq b c && addr_eq.beq i j then true else allowed s (c, j))
unfolding allowed allow
allowed-allow b c i j s = elim (Option-cases (get b s)) [
  | inl missing ↦ ground (
    arith,
    str_beq_iff b c,
    get-put b c (record { spec = no_spec; allow = put i true [] }) s,
    get-put i j true [],
    get-nil {V = Bool} j,
  )
  | inr (box, found) ↦ ground (
    arith,
    str_beq_iff b c,
    get-put b c (record box { allow = put i true box.allow }) s,
    get-put i j true box.allow,
  )
]

allowed-revoke :
    (b c : Str) (i j : Addr) (s : Boxes)
    → allowed (revoke b i s).0 (c, j)
      ≡ (if str_eq.beq b c && addr_eq.beq i j then false else allowed s (c, j))
unfolding allowed revoke
allowed-revoke b c i j s = elim (Option-cases (get b s)) [
  | inl missing ↦ ground (arith, str_beq_iff b c)
  | inr (box, found) ↦ ground (
    arith,
    str_beq_iff b c,
    get-put b c (record box { allow = del i box.allow }) s,
    get-del i j box.allow,
  )
]

allowed-teardown :
    (b c : Str) (j : Addr) (s : Boxes)
    → allowed (teardown b s).0 (c, j) ≡ (if str_eq.beq b c then false else allowed s (c, j))
unfolding allowed teardown
allowed-teardown b c j s = ground (arith, get-del b c s)

module _ (b c : Str) (i j : Addr) where
  other_key : ◌≢◌ {A = Str × Addr} (c, j) (b, i) → (str_eq.beq b c && addr_eq.beq i j) ≡ false
  other_key h = ground (arith, str_beq_iff b c, addr_beq_iff i j)

  pub allow_opens : (s : Boxes) → allowed (allow b i s).0 (b, i) ≡ true
  allow_opens s = ground (arith, allowed-allow b b i i s, str_beq_iff b b, addr_beq_iff i i)

  pub allow_frame :
      (s : Boxes)
      → ◌≢◌ {A = Str × Addr} (c, j) (b, i)
      → allowed (allow b i s).0 (c, j) ≡ allowed s (c, j)
  allow_frame s h = ground (arith, allowed-allow b c i j s, other_key h)

  pub revoke_closes : (s : Boxes) → allowed (revoke b i s).0 (b, i) ≡ false
  revoke_closes s = ground (arith, allowed-revoke b b i i s, str_beq_iff b b, addr_beq_iff i i)

  pub revoke_frame :
      (s : Boxes)
      → ◌≢◌ {A = Str × Addr} (c, j) (b, i)
      → allowed (revoke b i s).0 (c, j) ≡ allowed s (c, j)
  revoke_frame s h = ground (arith, allowed-revoke b c i j s, other_key h)

  pub teardown_closes : (s : Boxes) → allowed (teardown b s).0 (b, i) ≡ false
  teardown_closes s = ground (arith, allowed-teardown b b i s, str_beq_iff b b)

  pub teardown_frame : (s : Boxes) → c ≢ b → allowed (teardown b s).0 (c, j) ≡ allowed s (c, j)
  teardown_frame s h = ground (arith, allowed-teardown b c j s, str_beq_iff b c)

  pub baseline_frame :
      (spec : BoxSpec) (s : Boxes) → c ≢ b → allowed (baseline b spec s).0 (c, j) ≡ allowed s (c, j)
  unfolding allowed baseline
  baseline_frame spec s h =
      ground (arith, get-put b c (record { spec = spec; allow = [] }) s, str_beq_iff b c)

-- The fake meets the contract that the Pinner relies on.
abbrev pub recording : Programmer
recording = record {
  State = Boxes;
  baseline = baseline;
  allow = allow;
  revoke = revoke;
  teardown = teardown;
  is_open = allowed;
  allow_opens = λ b i s _. allow_opens b b i i s;
  allow_frame = λ b i s k h. allow_frame b k.0 i k.1 s h;
  revoke_closes = λ b i s _. revoke_closes b b i i s;
  revoke_frame = λ b i s k h. revoke_frame b k.0 i k.1 s h;
  teardown_closes = λ b i s _. teardown_closes b b i i s;
  teardown_frame = λ b s k h. teardown_frame b k.0 invalid k.1 s h;
  baseline_frame = λ b spec s k h. baseline_frame b k.0 invalid k.1 spec s h;
}
