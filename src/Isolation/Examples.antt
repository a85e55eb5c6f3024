-- ===== src/Isolation/Examples.antt =====
-- The Enforcer over the recording firewall: box `web` is configured, queries and is released, while
-- box `db` has no rules.
use llmbox.Prelude.{
  ℕ, ◌≢◌, refl, Option, none, some, List, [], ◌∷◌, arith, ℤ, pos, Str, codes, str_eq, nat_eq, get,
  pair_eq,
}
use llmbox.Netip.{Addr, ip4, addr_eq}
use llmbox.Netfw.Firewall.{no_spec, Error}
use llmbox.Netfw.Pinner.{IsBacked}
use llmbox.Netfw.Recording
use llmbox.Netfw.Recording.{recording}
use llmbox.Dnsd.Messages.{messages, ask, answer}
use llmbox.Dnsd.Policy.{Rule, rules_of}
use llmbox.Isolation.{Enforcer, configure, release, query}
use llmbox.Isolation.Releasing.{IsDenied, release-IsDenied}
use llmbox.Isolation.Denying.{
  queried, configured, released_other, Reach, here, next, Reach-IsBacked, Reach-IsDenied,
}

abbrev web : Str
web = codes "web"

abbrev db : Str
db = codes "db"

abbrev guest : Addr
guest = ip4 0xac100002

abbrev github : List Rule
github = record { pattern = codes "*.github.com"; ttl = pos 30 } ∷ []

abbrev clock : ℕ → ℤ
clock n = pos n

abbrev Spoke : Type 0
Spoke = Enforcer recording

abbrev empty : Spoke
empty = record {
  policy = [];
  boxes = [];
  guest_ips = [];
  net = record { readings = 0; inner = record { pins = []; fw = [] } };
}

abbrev upstream : messages.Msg → Option messages.Msg × Error
upstream _ = (some answer, none)

abbrev set_up : Spoke
set_up = (configure recording web no_spec guest github empty).0

abbrev asked : Spoke
asked = query recording clock messages upstream (pos 0) guest (ask (codes "api.github.com")) set_up

empty-IsBacked : IsBacked recording empty.net.inner
unfolding get
empty-IsBacked = record { distinct = tt; backed = λ k d h. ground arith }

web_not_db : web ≢ db
web_not_db same = ground arith

empty-IsDenied : IsDenied recording db empty
unfolding get rules_of Recording.allowed
empty-IsDenied = record { no_rules = refl; no_pins = λ ip. refl; closed = λ ip. refl }

to_asked : Reach recording clock messages db empty asked
unfolding get
to_asked =
    next (next here (configured web no_spec guest github web_not_db (λ i. refl)))
      (queried upstream (pos 0) guest (ask (codes "api.github.com")))

Reach-IsDenied_example : IsDenied recording db (release recording web asked).0
Reach-IsDenied_example =
    Reach-IsDenied recording clock messages (next to_asked (released_other web web_not_db))
      empty-IsBacked empty-IsDenied

asked-IsBacked : IsBacked recording asked.net.inner
asked-IsBacked = Reach-IsBacked recording clock messages to_asked empty-IsBacked

release-IsDenied_example : IsDenied recording web (release recording web asked).0
unfolding release Recording.teardown
release-IsDenied_example = release-IsDenied recording web asked asked-IsBacked refl
