-- ===== src/Dnsd/Examples.antt =====
-- The resolver at concrete inputs, over a Pinner that is a table.
use llmbox.Prelude.{
  sym, ◌≡◌, ◌≢◌, refl, ◌↔◌, Bool, true, false, Option, none, some, List, [], ◌∷◌, arith, ℤ, pos,
  if◌then◌else◌, Str, codes, str_eq, ◌==◌, Table, get, put, get-put, All, pair_eq, pair_beq_iff,
  str_beq, beq_refl, to_lower, lower_byte, trim_dot, cut_prefix, has_suffix, contains,
}
use llmbox.Netip.{Addr, ip4, addr_eq, unmap, addr_from_slice}
use llmbox.Netfw.Firewall.{Error}
use llmbox.Dnsd.Policy.{
  Rule, StaticPolicy, set, first_match, allowed, normalize_name, match_domain, rules_of,
}
use llmbox.Dnsd.Policy.Deciding.{FirstRule, box_rules, allowed_iff}
use llmbox.Dnsd.Server.{Pinner, Server, handle, answer_ips, is_open, pin_all}
use llmbox.Dnsd.Messages.{messages, ask, answer}
use llmbox.Dnsd.Server.Routes.{Lookup}
use llmbox.Dnsd.Server.Enforcing.{IsLookedUp, handle_opens_only_looked_up, handle_answers_are_open}
use llmbox.Dnsd.Server.Auditing.{IsRecorded, handle-IsRecorded}

abbrev Opened : Type 0
Opened = Table (Str × Addr) ℤ

abbrev opens : Str → Addr → ℤ → Opened → Opened × Error
opens box ip ttl s = (put (box, ip) ttl s, none)

abbrev found : Option ℤ → Bool
found none = false
found (some _) = true

opens_now :
    (box : Str) (ip : Addr) (ttl : ℤ) (s : Opened)
    → found (get (box, ip) (opens box ip ttl s).0) ≡ true
opens_now box ip ttl s =
    ground (arith, get-put (box, ip) (box, ip) ttl s, beq_refl {A = Str × Addr} (box, ip))

opens_frame :
    (box : Str) (ip : Addr) (ttl : ℤ) (s : Opened) (k : Str × Addr)
    → k ≢ (box, ip)
    → get k (opens box ip ttl s).0 ≡ get k s
opens_frame box ip ttl s k differs =
    ground (arith, get-put (box, ip) k ttl s, pair_beq_iff (box, ip) k)

abbrev table_pinner : Pinner
table_pinner = record {
  State = Opened;
  pin = opens;
  Row = Option ℤ;
  row = λ s k. get k s;
  reachable = found;
  IsSound = λ s. Unit;
  pin_opens = λ box ip ttl s _ _. opens_now box ip ttl s;
  pin_frame = opens_frame;
  pin-IsSound = λ box ip ttl s v. v;
}

abbrev web : Str
web = codes "web"

abbrev guest : Addr
guest = ip4 0xac100002

abbrev github : List Rule
github = record { pattern = codes "*.GitHub.com"; ttl = pos 30 } ∷ []

abbrev policy : StaticPolicy
policy = set web github []

abbrev resolver : Server messages
resolver = record {
  boxes = λ ip. if ip == guest then some web else none;
  policy = allowed policy;
  resolve = λ _. (some answer, none);
  now = pos 1000;
}

computing : Unit {0}
unfolding handle pin_all answer_ips allowed set first_match normalize_name match_domain rules_of
    to_lower lower_byte trim_dot cut_prefix has_suffix get put str_beq unmap addr_from_slice
    contains
computing = tt

abbrev api : messages.Msg
api = ask (codes "API.github.com.")

handled_api : (handle messages table_pinner resolver api guest []).reply ≡ record answer { id = 7 }
unfolding computing
handled_api = refl

handle_answers_are_open_example :
    (l : Lookup messages table_pinner resolver api guest []) × ((handle messages table_pinner
        resolver api guest []).reply.answers
      ≡ l.resp.answers)
    × All
        (λ i.
          is_open table_pinner (handle messages table_pinner resolver api guest []).state (l.box, i)
          ≡ true)
        (answer_ips l.resp.answers)
unfolding computing
handle_answers_are_open_example =
    handle_answers_are_open messages table_pinner resolver api guest [] tt (λ e. cc)

handle-IsRecorded_example :
    IsRecorded messages table_pinner resolver api guest []
      (handle messages table_pinner resolver api guest [])
handle-IsRecorded_example = handle-IsRecorded messages table_pinner resolver api guest [] (λ e. cc)

some-web : {box : Str} → some box ≡ some web → box ≡ codes "db" → ⊥
some-web same there = ground arith

elsewhere : ¬ IsLookedUp messages table_pinner resolver api guest [] (codes "db", guest)
elsewhere (l, box, _) = ground (arith, some-web (sym l.owner) box)

-- Another box's address.
handle_opens_only_looked_up_example :
    get {K = Str × Addr}
      (codes "db", guest)
      (handle messages table_pinner resolver api guest []).state
    ≡ none
unfolding computing
handle_opens_only_looked_up_example =
    handle_opens_only_looked_up messages table_pinner resolver api guest [] (codes "db", guest)
      elsewhere

allowed_iff_example : (allowed policy web (codes "api.github.com") ≡ some (pos 30)) ↔ (
    (r : Rule) × FirstRule (normalize_name (codes "api.github.com")) (box_rules policy web) r
    × (r.ttl ≡ pos 30))
allowed_iff_example = allowed_iff policy web (codes "api.github.com") (pos 30)
