-- ===== src/Netfw/Firewall.antt =====
-- netfw.go, `Programmer` and `BoxSpec`: what the Pinner asks of a firewall backend.
use llmbox.Prelude.{ℕ, ◌≡◌, ◌≢◌, Bool, true, false, Option, none, Str}
use llmbox.Netip.{Addr, invalid}

-- A Go `error`: `none` is nil.
abbrev pub Error : Type 0
Error = Option Str

pub record BoxSpec : Type 0 where
  pub source : Addr × ℕ
  pub dns : Addr

-- A backend with the state that its calls change. `is_open` says whether packets of a box reach
-- an address. A call that returns nil has done what its comment says, and no call touches the
-- addresses of another box or, for `allow` and `revoke`, another address of the box; of a call
-- that fails nothing more is known.
pub record Programmer : Type 1 where
  pub State : Type 0
  pub baseline : Str → BoxSpec → State → State × Error
  pub allow : Str → Addr → State → State × Error
  pub revoke : Str → Addr → State → State × Error
  pub teardown : Str → State → State × Error
  pub is_open : State → Str × Addr → Bool
  pub allow_opens :
      (b : Str) (i : Addr) (s : State)
      → (allow b i s).1 ≡ none
      → is_open (allow b i s).0 (b, i) ≡ true
  pub allow_frame :
      (b : Str) (i : Addr) (s : State) (k : Str × Addr)
      → k ≢ (b, i)
      → is_open (allow b i s).0 k ≡ is_open s k
  pub revoke_closes :
      (b : Str) (i : Addr) (s : State)
      → (revoke b i s).1 ≡ none
      → is_open (revoke b i s).0 (b, i) ≡ false
  pub revoke_frame :
      (b : Str) (i : Addr) (s : State) (k : Str × Addr)
      → k ≢ (b, i)
      → is_open (revoke b i s).0 k ≡ is_open s k
  pub teardown_closes :
      (b : Str) (i : Addr) (s : State)
      → (teardown b s).1 ≡ none
      → is_open (teardown b s).0 (b, i) ≡ false
  pub teardown_frame :
      (b : Str) (s : State) (k : Str × Addr) → k.0 ≢ b → is_open (teardown b s).0 k ≡ is_open s k
  pub baseline_frame :
      (b : Str) (spec : BoxSpec) (s : State) (k : Str × Addr)
      → k.0 ≢ b
      → is_open (baseline b spec s).0 k ≡ is_open s k

-- The zero `BoxSpec`.
abbrev pub no_spec : BoxSpec
no_spec = record { source = (invalid, 0); dns = invalid }
