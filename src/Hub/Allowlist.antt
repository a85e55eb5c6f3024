-- ===== src/Hub/Allowlist.antt =====
-- internal/hub/allowlist.go: the groups of domains that boxes may reach, and the policy that the hub
-- computes from them for the spoke of a box.
pub mod Policies
pub mod Enforced
pub mod Domains
use llmbox.Prelude.{
  Bool, true, not, Option, none, some, List, [], ◌∷◌, ◌++◌, ◌||◌, ℤ, pos, after, if◌then◌else◌, Str,
  str_eq, str_le, contains, sort,
}
use llmbox.HubStore.Database.{AllowlistGroup}
use llmbox.Isolation.{DomainRule, NetworkPolicy}

abbrev default_allowlist_ttl_seconds : ℤ
default_allowlist_ttl_seconds = pos 30

-- `ttl <= 0` falls back to the default.
abbrev pub ttl_or_default : ℤ → ℤ
ttl_or_default ttl = if after ttl (pos 0) then ttl else default_allowlist_ttl_seconds

-- Whether the loops skip a group: it is neither global nor assigned to the box.
abbrev pub applies : List Str → AllowlistGroup → Bool
applies assigned g = g.is_global || contains assigned g.id

-- What the loops of `boxNetworkPolicy` carry: `seen` lists what the map holds.
pub record Flattened : Type 0 where
  pub seen : List Str
  pub rules : List DomainRule

pub add_domain : ℤ → Str → Flattened → Flattened
add_domain ttl d st = if contains st.seen d then st else record {
  seen = d ∷ st.seen;
  rules = st.rules ++ record { pattern = d; ttl_seconds = ttl } ∷ [];
}

pub add_domains : ℤ → List Str → Flattened → Flattened
unfolding add_domain
add_domains ttl [] st = st
add_domains ttl (d ∷ ds) st = add_domains ttl ds (add_domain ttl d st)

pub add_groups : List Str → List AllowlistGroup → Flattened → Flattened
unfolding add_domains
add_groups assigned [] st = st
add_groups assigned (g ∷ gs) st =
    add_groups assigned gs
      (if applies assigned g then add_domains (ttl_or_default g.ttl_seconds) g.domains st else st)

-- `boxNetworkPolicy`, of what the store returns.
pub box_network_policy : List AllowlistGroup → List Str → NetworkPolicy
unfolding add_groups
box_network_policy groups assigned = record {
  enabled = true;
  rules = (add_groups assigned groups (record { seen = []; rules = [] })).rules;
}

-- A Go map that is used as a set, with its keys in the order of their arrival.
unfoldable pub add_new : Str → List Str → List Str
add_new s out = if contains out s then out else out ++ s ∷ []

pub add_all_new : List Str → List Str → List Str
unfolding add_new
add_all_new [] out = out
add_all_new (s ∷ ss) out = add_all_new ss (add_new s out)

pub collect_domains : List Str → List AllowlistGroup → List Str → List Str
unfolding add_all_new
collect_domains assigned [] out = out
collect_domains assigned (g ∷ gs) out =
    collect_domains assigned gs (if applies assigned g then add_all_new g.domains out else out)

names_of : List Str → List AllowlistGroup → List Str
names_of assigned [] = []
names_of assigned (g ∷ gs) =
    if applies assigned g then g.name ∷ names_of assigned gs else names_of assigned gs

-- `effectiveAllowlist`: the domains, and the names of the groups.
pub effective_allowlist : List AllowlistGroup → List Str → List Str × List Str
unfolding collect_domains names_of
effective_allowlist groups assigned =
    (sort str_le (collect_domains assigned groups []), sort str_le (names_of assigned groups))

-- `unionSorted`.
pub union_sorted : List Str → List Str → List Str
unfolding add_all_new
union_sorted a b = sort str_le (add_all_new (a ++ b) [])
