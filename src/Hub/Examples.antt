-- ===== src/Hub/Examples.antt =====
-- The hub's logic at concrete inputs, with a digest that returns its input.
use llmbox.Prelude.{
  ℕ, ◌≡◌, ◌≢◌, ◌↔◌, refl, false, none, some, List, [], ◌∷◌, pos, after, ◌+ℤ◌, Str, codes, str_eq,
  get, put, del, str_beq, ok, keep, In, Any, IsSorted, str_le, Bool, true, All, to_lower,
  lower_byte, contains, sort, trim_space,
}
use llmbox.HubStore.Rows.{empty, select}
use llmbox.HubStore.Rows
use llmbox.HubStore.Database
use llmbox.HubStore.Database.{Database, ApiKeyRecord, delete_api_key}
use llmbox.Cluster.Secrets.{hex, hash_secret}
use llmbox.HubStore.Database.{AllowlistGroup}
use llmbox.Netfw.Recording.{recording}
use llmbox.Dnsd.Policy.{allowed, normalize_name}
use llmbox.Isolation.{Enforcer}
use llmbox.Hub.Allowlist
use llmbox.Hub.Allowlist.{box_network_policy, effective_allowlist, union_sorted}
use llmbox.Hub.Allowlist.Policies.{Permits, HasPattern, box_network_policy_iff}
use llmbox.Prelude.Regex.{matches}
use llmbox.Hub.Allowlist.Domains.{domain_pattern, normalize_domains}
use llmbox.Hub.Allowlist.Domains.Normalizing.{Stores, normalize_domains_lem}
use llmbox.Hub.Allowlist.Domains.Accepting.{accepted_domain_is_normal}
use llmbox.Hub.Allowlist.Enforced.{IsPermitted, pushed, pushed_policy_iff}
use llmbox.Hub.ApiKeys.{create, authenticate, authenticate_iff}

abbrev digest : Str → List ℕ
digest s = s

abbrev blank : Database
blank = record {
  faults = [];
  join_tokens = empty;
  spokes = empty;
  api_keys = empty;
  groups = empty;
  group_domains = [];
  box_groups = [];
}

abbrev key : Str
key = codes "lbx_01"

abbrev issued : Database
issued = (create digest (codes "ci") (pos 60) (pos 0) (ok (1 ∷ [])) blank).0

abbrev ci : ApiKeyRecord
ci = record { name = codes "ci"; created_at = pos 0; expires_at = pos 60 }

computing : Unit {0}
unfolding normalize_domains matches trim_space Allowlist.add_new to_lower lower_byte contains str_le
    sort create authenticate hex hash_secret after ◌+ℤ◌ str_beq get put del keep Rows.select
    Rows.upsert Rows.remove Database.put_api_key Database.get_api_key Database.delete_api_key
    Database.statement Database.exec
computing = tt

authenticate_iff_example : ((authenticate digest key (pos 60) issued).1 ≡ ok (some ci)) ↔ (
    (key ≢ [])
    × (select (hash_secret digest key) issued.api_keys ≡ some ci)
    × (after (pos 60) (pos 60) ≡ false))
unfolding computing
authenticate_iff_example = authenticate_iff digest key (pos 60) issued ci refl

abbrev web : Str
web = codes "web"

abbrev github : Str
github = codes "*.github.com"

abbrev golang : Str
golang = codes "proxy.golang.org"

abbrev group : Str → Bool → List Str → AllowlistGroup
group name global domains = record {
  id = name;
  name = name;
  description = [];
  ttl_seconds = pos 60;
  is_global = global;
  domains = domains;
  created_at = pos 0;
  updated_at = pos 0;
}

-- One group for every box, and one that is assigned.
abbrev groups : List AllowlistGroup
groups =
    group (codes "base") true (github ∷ []) ∷ group (codes "go") false (github ∷ golang ∷ []) ∷ []

abbrev granted : List Str
granted = codes "go" ∷ []

box_network_policy_iff_example :
    HasPattern golang (box_network_policy groups granted).rules
    ↔ Any (Permits granted golang) groups
box_network_policy_iff_example = box_network_policy_iff granted groups golang

abbrev idle : Enforcer recording
idle = record {
  policy = [];
  boxes = [];
  guest_ips = [];
  net = record { readings = 0; inner = record { pins = []; fw = [] } };
}

pushed_policy_iff_example :
    (allowed (pushed recording web groups granted idle) web (codes "API.github.com.") ≢ none)
    ↔ IsPermitted groups granted (normalize_name (codes "API.github.com."))
pushed_policy_iff_example =
    pushed_policy_iff recording web groups granted idle (codes "API.github.com.")

-- A blank entry, and one that is listed twice up to case and spaces.
abbrev entries : List Str
entries = codes " *.GitHub.com" ∷ [] ∷ codes "proxy.golang.org" ∷ codes "*.github.com" ∷ []

normalize_domains_lem_example :
    IsSorted str_le (github ∷ golang ∷ [])
    × All (λ d. matches domain_pattern d ≡ true) (github ∷ golang ∷ [])
    × ((d : Str) → In d (github ∷ golang ∷ []) ↔ Any (Stores d) entries)
unfolding computing
normalize_domains_lem_example = normalize_domains_lem entries (github ∷ golang ∷ []) refl

accepted_domain_is_normal_example : normalize_name github ≡ github
unfolding matches
accepted_domain_is_normal_example = accepted_domain_is_normal github refl
