-- ===== src/Dnsd/Server/Auditing.antt =====
-- The audit trail: one event for each query, and what its verdict says of the reply and the pins.
use llmbox.Prelude.{◌≡◌, ◌≢◌, refl, subst, none, some, List, [], ◌∷◌, ℤ, Str}
use llmbox.Netip.{Addr}
use llmbox.Dnsd.Server.{
  DnsLibrary, Pinner, Server, Handled, Question, Event, allowed, blocked, error, refused, event,
  answer_ips, pin_all, usable, handle, rcode_server_failure, rcode_name_error, rcode_refused,
}
use llmbox.Dnsd.Server.Routes.{
  Route, no_question, unknown_source, not_allowed, upstream_failed, pin_failed, answered,
  handle-Route,
}

module _ (D : DnsLibrary) (P : Pinner) (sv : Server D) (r : D.Msg) (client : Addr)
    (s : P.State) where
  -- The event tells what became of the question: who asked, and for which reply.
  pub data Tells (q : Question) (reply : D.Msg) : Event → Type 0 where
    told_refused :
        sv.boxes client ≡ none
        → D.rcode reply ≡ rcode_refused
        → Tells q reply (event sv [] q refused [])
    told_blocked :
        (box : Str)
        → sv.boxes client ≡ some box
        → sv.policy box q.name ≡ none
        → D.rcode reply ≡ rcode_name_error
        → Tells q reply (event sv box q blocked [])
    told_unresolved :
        (box : Str) (ttl : ℤ)
        → sv.boxes client ≡ some box
        → sv.policy box q.name ≡ some ttl
        → usable (sv.resolve r) ≡ none
        → D.rcode reply ≡ rcode_server_failure
        → Tells q reply (event sv box q error [])
    told_unpinned :
        (box e : Str) (ttl : ℤ) (resp : D.Msg)
        → sv.boxes client ≡ some box
        → sv.policy box q.name ≡ some ttl
        → usable (sv.resolve r) ≡ some resp
        → (pin_all P box ttl (answer_ips (D.answers resp)) s).1 ≡ some e
        → D.rcode reply ≡ rcode_server_failure
        → Tells q reply (event sv box q error [])
    told_allowed :
        (box : Str) (ttl : ℤ) (resp : D.Msg)
        → sv.boxes client ≡ some box
        → sv.policy box q.name ≡ some ttl
        → usable (sv.resolve r) ≡ some resp
        → (pin_all P box ttl (answer_ips (D.answers resp)) s).1 ≡ none
        → reply ≡ D.set_id (D.id r) resp
        → Tells q reply (event sv box q allowed (answer_ips (D.answers reply)))

  -- Exactly one event is recorded, about the first question, and it tells the reply.
  abbrev pub IsRecorded : Handled D P → Type 0
  IsRecorded h =
      (q : Question) × (rest : List Question) × (D.questions r ≡ q ∷ rest)
      × (e : Event) × (h.events ≡ e ∷ [])
      × Tells q h.reply e

  -- A query with a question is recorded by exactly one event, about its first question. Its verdict
  -- is refused, with the reply code of a refusal, for an unknown source; blocked, with that of a name
  -- error, when the box's policy permits no such name; error, with that of a server failure, when
  -- the upstream resolver gives no reply or one of its addresses cannot be pinned; and allowed when
  -- all are pinned, where the reply is the resolver's under the query's ID and the event lists its
  -- addresses.
  pub handle-IsRecorded : D.questions r ≢ [] → IsRecorded (handle D P sv r client s)
  handle-IsRecorded asked = by_route (handle-Route D P sv r client s)
    where
      by_route :
          Route D P sv r client s (handle D P sv r client s) → IsRecorded (handle D P sv r client s)
      by_route (no_question none_asked _) = absurd (asked none_asked)
      by_route (unknown_source q rest qs unknown e) = rw e (
        q,
        rest,
        qs,
        event sv [] q refused [],
        refl,
        told_refused unknown (D.rcode-set_rcode r rcode_refused),
      )
      by_route (not_allowed q rest box qs owner denied e) = rw e (
        q,
        rest,
        qs,
        event sv box q blocked [],
        refl,
        told_blocked box owner denied (D.rcode-set_rcode r rcode_name_error),
      )
      by_route (upstream_failed q rest box ttl qs owner permitted failed e) = rw e (
        q,
        rest,
        qs,
        event sv box q error [],
        refl,
        told_unresolved box ttl owner permitted failed (D.rcode-set_rcode r rcode_server_failure),
      )
      by_route (pin_failed l why broken e) = rw e (
        l.question,
        l.rest,
        l.asked,
        event sv l.box l.question error [],
        refl,
        told_unpinned l.box why l.ttl l.resp l.owner l.permitted l.resolved broken
            (D.rcode-set_rcode r rcode_server_failure),
      )
      by_route (answered l pinned e) =
          let reply = D.set_id (D.id r) l.resp in
          let same = D.answers-set_id (D.id r) l.resp in
          rw e (
            l.question,
            l.rest,
            l.asked,
            event sv l.box l.question allowed (answer_ips (D.answers l.resp)),
            refl,
            subst
                (λ rrs. Tells l.question reply (event sv l.box l.question allowed (answer_ips rrs)))
                same (told_allowed l.box l.ttl l.resp l.owner l.permitted l.resolved pinned refl),
          )
