-- ===== src/Cluster/Registry.antt =====
-- internal/shared/cluster/hub.go, the registry of connected spokes. A connection is a number that
-- no other connection has; a closed one serves no more requests.
pub mod Superseding
use llmbox.Prelude.{
  ℕ, Bool, true, false, not, Option, none, some, List, [], ◌∷◌, if◌then◌else◌, Str, str_eq, nat_eq,
  ◌==◌, pair_eq, Table, get, put, del, filter,
}

-- The map of `Hub`, the connections that were closed, and those whose handler is between its calls
-- of `register` and `unregister`.
pub record Registry : Type 0 where
  pub spokes : Table Str ℕ
  pub closed : List ℕ
  pub serving : List (Str × ℕ)

abbrev close : Option ℕ → List ℕ → List ℕ
close none closed = closed
close (some c) closed = c ∷ closed

-- `Spoke`.
abbrev pub spoke : Str → Registry → Option ℕ
spoke name r = get name r.spokes

-- `register`.
pub register : Str → ℕ → Registry → Registry
register name c r = record {
  spokes = put name c r.spokes;
  closed = close (get name r.spokes) r.closed;
  serving = (name, c) ∷ r.serving;
}

-- `Disconnect`.
pub disconnect : Str → Registry → Registry
disconnect name r = record r { closed = close (get name r.spokes) r.closed }

abbrev holds : Option ℕ → ℕ → Bool
holds none c = false
holds (some d) c = d == c

-- `unregister`.
pub unregister : Str → ℕ → Registry → Registry
unregister name c r = record {
  spokes = if holds (get name r.spokes) c then del name r.spokes else r.spokes;
  closed = r.closed;
  serving = filter (λ k. not (k == (name, c))) r.serving;
}

-- The other end hangs up, or the hub shuts down.
pub drop_link : ℕ → Registry → Registry
drop_link c r = record r { closed = c ∷ r.closed }
