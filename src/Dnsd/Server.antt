-- ===== src/Dnsd/Server.antt =====
-- internal/spoke/dnsd/dnsd.go: the enforcing server. The message type and its methods belong to
-- github.com/miekg/dns and are a parameter, as are the injected collaborators. Each call of
-- `Handle` is a step on the Pinner's state that returns the reply and the recorded events.
pub mod Answers
pub mod Routes
pub mod Enforcing
pub mod Auditing
use llmbox.Prelude.{
  ℕ, ◌≡◌, ◌≢◌, Bool, true, false, Option, none, some, List, [], ◌∷◌, ◌++◌, ℤ, if◌then◌else◌, Str,
  str_eq, ◌==◌, contains,
}
use llmbox.Netip.{Addr, addr_eq, unmap, addr_from_slice}
use llmbox.Netfw.Firewall.{Error}

pub record Question : Type 0 where
  pub name : Str
  pub qtype : ℕ

-- A resource record: the bytes of an A or AAAA address, or any other record.
pub data Rr : Type 0 where
  a : List ℕ → Rr
  aaaa : List ℕ → Rr
  other : Rr

-- What the server uses of `dns.Msg`. `set_rcode r code` is `new(dns.Msg).SetRcode(r, code)`.
pub record DnsLibrary : Type 1 where
  pub Msg : Type 0
  pub questions : Msg → List Question
  pub answers : Msg → List Rr
  pub rcode : Msg → ℕ
  pub id : Msg → ℕ
  pub set_id : ℕ → Msg → Msg
  pub set_rcode : Msg → ℕ → Msg
  pub answers-set_id : (n : ℕ) (m : Msg) → answers (set_id n m) ≡ answers m
  pub id-set_id : (n : ℕ) (m : Msg) → id (set_id n m) ≡ n
  pub answers-set_rcode : (m : Msg) (code : ℕ) → answers (set_rcode m code) ≡ []
  pub rcode-set_rcode : (m : Msg) (code : ℕ) → rcode (set_rcode m code) ≡ code
  pub id-set_rcode : (m : Msg) (code : ℕ) → id (set_rcode m code) ≡ id m

-- The interface `Pinner`, with what the server needs of it: in a sound state a Pin that returns
-- nil leaves the address open, and it touches no other address. A row is all that is kept of one
-- address of one box, and says whether the box reaches it.
pub record Pinner : Type 1 where
  pub State : Type 0
  pub pin : Str → Addr → ℤ → State → State × Error
  pub Row : Type 0
  pub row : State → Str × Addr → Row
  pub reachable : Row → Bool
  pub IsSound : State → Type 0
  pub pin_opens :
      (box : Str) (ip : Addr) (ttl : ℤ) (s : State)
      → IsSound s
      → (pin box ip ttl s).1 ≡ none
      → reachable (row (pin box ip ttl s).0 (box, ip)) ≡ true
  pub pin_frame :
      (box : Str) (ip : Addr) (ttl : ℤ) (s : State) (k : Str × Addr)
      → k ≢ (box, ip)
      → row (pin box ip ttl s).0 k ≡ row s k
  pub pin-IsSound :
      (box : Str) (ip : Addr) (ttl : ℤ) (s : State) → IsSound s → IsSound (pin box ip ttl s).0

abbrev pub is_open : (P : Pinner) → P.State → Str × Addr → Bool
is_open P s k = P.reachable (P.row s k)

-- `dns.RcodeFormatError` and its like.
abbrev pub rcode_format_error : ℕ
rcode_format_error = 1

abbrev pub rcode_server_failure : ℕ
rcode_server_failure = 2

abbrev pub rcode_name_error : ℕ
rcode_name_error = 3

abbrev pub rcode_refused : ℕ
rcode_refused = 5

pub data Verdict : Type 0 where
  allowed blocked error refused : Verdict

-- An event with its time; an event that leaves a field out has Go's zero value there.
pub record Event : Type 0 where
  pub box_id : Str
  pub qname : Str
  pub qtype : ℕ
  pub verdict : Verdict
  pub ips : List Addr
  pub time : ℤ

-- The closure `add` of `answerIPs`: `out` lists what `seen` holds.
pub add_ip : List ℕ → List Addr → List Addr
add_ip bytes out = elim (addr_from_slice bytes) [
  | none ↦ out
  | some ip ↦ if contains out (unmap ip) then out else out ++ unmap ip ∷ []
]

pub collect_ips : List Rr → List Addr → List Addr
collect_ips [] out = out
collect_ips (a bytes ∷ rrs) out = collect_ips rrs (add_ip bytes out)
collect_ips (aaaa bytes ∷ rrs) out = collect_ips rrs (add_ip bytes out)
collect_ips (other ∷ rrs) out = collect_ips rrs out

unfoldable pub answer_ips : List Rr → List Addr
unfolding collect_ips add_ip
answer_ips rrs = collect_ips rrs []

module _ (P : Pinner) where
  -- The loop over the resolved addresses, which stops at the first pin that fails.
  unfoldable pub pin_all : Str → ℤ → List Addr → P.State → P.State × Error
  pin_all box ttl [] s = (s, none)
  pin_all box ttl (ip ∷ ips) s =
      let called = P.pin box ip ttl s in
      let rest = pin_all box ttl ips called.0 in
      elim called.1 [ none ↦ rest | some e ↦ (called.0, some e) ]

-- `Server`, with the addresses of the boxes, the policy and the resolver as they answer during one
-- call. The resolver's result is a reply, or nil, and an error.
pub record Server (D : DnsLibrary) : Type 0 where
  pub boxes : Addr → Option Str
  pub policy : Str → Str → Option ℤ
  pub resolve : D.Msg → Option D.Msg × Error
  pub now : ℤ

pub record Handled (D : DnsLibrary) (P : Pinner) : Type 0 where
  pub reply : D.Msg
  pub events : List Event
  pub state : P.State

-- `err != nil || resp == nil` fails, and anything else is a reply.
abbrev pub usable {ℓ} : {A : Type ℓ} → Option A × Error → Option A
usable (resp, some e) = none
usable (resp, none) = resp

-- The event that `record` stamps and forwards.
abbrev pub event : {D : DnsLibrary} → Server D → Str → Question → Verdict → List Addr → Event
event sv box q verdict ips = record {
  box_id = box;
  qname = q.name;
  qtype = q.qtype;
  verdict = verdict;
  ips = ips;
  time = sv.now;
}

module _ (D : DnsLibrary) (P : Pinner) (sv : Server D) (r : D.Msg) where
  -- `Handle`, from the resolver's reply on.
  pub handle_resolved : Str → Question → ℤ → D.Msg → P.State → Handled D P
  handle_resolved box q ttl resp s =
      let ips = answer_ips (D.answers resp) in
      let pinned = pin_all P box ttl ips s in
      elim pinned.1 [
        | some e ↦ record {
          reply = D.set_rcode r rcode_server_failure;
          events = event sv box q error [] ∷ [];
          state = pinned.0;
        }
        | none ↦ record {
          reply = D.set_id (D.id r) resp;
          events = event sv box q allowed ips ∷ [];
          state = pinned.0;
        }
      ]

  -- `Handle`, for a query of a known box.
  pub handle_box : Str → Question → P.State → Handled D P
  unfolding handle_resolved
  handle_box box q s = elim (sv.policy box q.name) [
    | none ↦ record {
      reply = D.set_rcode r rcode_name_error;
      events = event sv box q blocked [] ∷ [];
      state = s;
    }
    | some ttl ↦ elim (usable (sv.resolve r)) [
      | none ↦ record {
        reply = D.set_rcode r rcode_server_failure;
        events = event sv box q error [] ∷ [];
        state = s;
      }
      | some resp ↦ handle_resolved box q ttl resp s
    ]
  ]

  handle_question : Addr → List Question → P.State → Handled D P
  unfolding handle_box
  handle_question client [] s = record {
    reply = D.set_rcode r rcode_format_error;
    events = [];
    state = s;
  }
  handle_question client (q ∷ _) s = elim (sv.boxes client) [
    | none ↦ record {
      reply = D.set_rcode r rcode_refused;
      events = event sv [] q refused [] ∷ [];
      state = s;
    }
    | some box ↦ handle_box box q s
  ]

  -- `Handle`.
  unfoldable pub handle : Addr → P.State → Handled D P
  unfolding handle_question
  handle client s = handle_question client (D.questions r) s
