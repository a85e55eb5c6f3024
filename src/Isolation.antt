-- ===== src/Isolation.antt =====
-- internal/spoke/isolation/isolation.go: the Enforcer, which puts the resolver, the policy, the
-- Pinner and the firewall of a spoke together. The listeners of `Start` are left out; a query, a
-- sweep and each API call are operations on one state.
pub mod Wiring
pub mod Denying
pub mod Releasing
mod Examples
use llmbox.Prelude.{
  ℕ, suc, ◌+◌, Bool, true, false, Option, none, some, List, [], ◌∷◌, ◌++◌, map, ℤ, scale, to_int64,
  if◌then◌else◌, Str, codes, str_eq, Table, get, put, del,
}
use llmbox.Netip.{Addr, addr_eq}
use llmbox.Netfw.Firewall.{Programmer, BoxSpec, Error}
use llmbox.Netfw.Pinner.{PinState, sweep, forget}
use llmbox.Dnsd.Policy.{Rule, StaticPolicy, set, remove, allowed}
use llmbox.Dnsd.Server.{DnsLibrary, Server, Handled, handle}
use Wiring.{Clocked, netfw_pinner}

-- `sandbox.DomainRule` and `sandbox.NetworkPolicy`.
pub record DomainRule : Type 0 where
  pub pattern : Str
  pub ttl_seconds : ℤ

pub record NetworkPolicy : Type 0 where
  pub enabled : Bool
  pub rules : List DomainRule

-- `time.Second`, in nanoseconds.
abbrev pub second : ℕ
second = 1000000000

abbrev pub to_rule : DomainRule → Rule
to_rule r = record { pattern = r.pattern; ttl = to_int64 (scale r.ttl_seconds second) }

unfoldable pub rules_from_policy : NetworkPolicy → List Rule
rules_from_policy policy = if policy.enabled then map to_rule policy.rules else []

-- The two maps of `dnsd.MapBoxes` and of the Enforcer, its policy, and the Pinner with its clock.
pub record Enforcer (P : Programmer) : Type 0 where
  pub policy : StaticPolicy
  pub boxes : Table Addr Str
  pub guest_ips : Table Str Addr
  pub net : Clocked P

-- `fmt.Errorf("isolation: … %s: %w", …)`.
wrapped : Str → Str → Error → Error
wrapped what box none = none
wrapped what box (some e) = some (codes "isolation: " ++ what ++ box ++ codes ": " ++ e)

module _ (P : Programmer) where
  with_fw : Enforcer P → P.State → Enforcer P
  with_fw e fw = record e { net = record e.net { inner = record (e.net.inner) { fw = fw } } }

  -- `Configure`.
  pub configure : Str → BoxSpec → Addr → List Rule → Enforcer P → Enforcer P × Error
  unfolding with_fw wrapped
  configure box spec guest_ip rules e =
      let called = P.baseline box spec e.net.inner.fw in
      let based = with_fw e called.0 in
      elim called.1 [
        | some err ↦ (based, wrapped (codes "baseline for ") box (some err))
        | none ↦ (
          record based {
            boxes = put guest_ip box e.boxes;
            policy = set box rules e.policy;
            guest_ips = put box guest_ip e.guest_ips;
          },
          none,
        )
      ]

  -- `SetNetworkPolicy`, which returns nil.
  unfoldable pub set_network_policy : Str → NetworkPolicy → Enforcer P → Enforcer P
  set_network_policy box policy e = record e {
    policy = set box (rules_from_policy policy) e.policy;
  }

  del_guest : Option Addr → Table Addr Str → Table Addr Str
  del_guest none boxes = boxes
  del_guest (some ip) boxes = del ip boxes

  -- `Release`.
  pub release : Str → Enforcer P → Enforcer P × Error
  unfolding del_guest wrapped
  release box e =
      let forgotten = forget P box e.net.inner in
      let called = P.teardown box forgotten.fw in
      (
        record {
          policy = remove box e.policy;
          boxes = del_guest (get box e.guest_ips) e.boxes;
          guest_ips = del box e.guest_ips;
          net = record e.net { inner = record forgotten { fw = called.0 } };
        },
        wrapped (codes "teardown for ") box called.1,
      )

  -- One tick of the sweeper, which reads the clock once.
  pub tick : (ℕ → ℤ) → Enforcer P → Enforcer P × Error
  tick clock e =
      let called = sweep P (clock e.net.readings) e.net.inner in
      (record e { net = record { readings = e.net.readings + 1; inner = called.0 } }, called.1)

  -- The server as `New` wires it: this Enforcer's maps and policy, and the upstream resolver.
  abbrev pub server : (D : DnsLibrary) → (D.Msg → Option D.Msg × Error) → ℤ → Enforcer P → Server D
  server D resolve now e = record {
    boxes = λ ip. get ip e.boxes;
    policy = allowed e.policy;
    resolve = resolve;
    now = now;
  }

  -- A DNS query from a client address.
  pub query :
      (clock : ℕ → ℤ) (D : DnsLibrary)
      → (D.Msg → Option D.Msg × Error)
      → ℤ
      → Addr
      → D.Msg
      → Enforcer P
      → Enforcer P
  query clock D resolve now client r e = record e {
    net = (handle D (netfw_pinner P clock) (server D resolve now e) r client e.net).state;
  }
