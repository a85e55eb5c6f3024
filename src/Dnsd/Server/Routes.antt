-- ===== src/Dnsd/Server/Routes.antt =====
-- The six ways through `Handle`.
use llmbox.Prelude.{◌≡◌, refl, ◌∙◌, inl, inr, none, some, List, [], ◌∷◌, ℤ, Str, Option-cases}
use llmbox.Netip.{Addr}
use llmbox.Dnsd.Server.{
  DnsLibrary, Pinner, Server, Handled, Question, allowed, blocked, error, refused, event,
  rcode_format_error, rcode_server_failure, rcode_name_error, rcode_refused, answer_ips, pin_all,
  usable, handle_resolved, handle_box, handle_question, handle,
}

module _ (D : DnsLibrary) (P : Pinner) (sv : Server D) (r : D.Msg) (client : Addr)
    (s : P.State) where
  -- A query of a box whose policy gives a TTL, and the resolver's reply to it.
  pub record Lookup : Type 0 where
    pub question : Question
    pub rest : List Question
    pub box : Str
    pub ttl : ℤ
    pub resp : D.Msg
    pub asked : D.questions r ≡ question ∷ rest
    pub owner : sv.boxes client ≡ some box
    pub permitted : sv.policy box question.name ≡ some ttl
    pub resolved : usable (sv.resolve r) ≡ some resp

  abbrev to_pin : Lookup → List Addr
  to_pin l = answer_ips (D.answers l.resp)

  pub data Route (h : Handled D P) : Type 0 where
    no_question :
        D.questions r ≡ []
        → h ≡ record { reply = D.set_rcode r rcode_format_error; events = []; state = s }
        → Route h
    unknown_source :
        (q : Question) (rest : List Question)
        → D.questions r ≡ q ∷ rest
        → sv.boxes client ≡ none
        → h ≡ record {
          reply = D.set_rcode r rcode_refused;
          events = event sv [] q refused [] ∷ [];
          state = s;
        }
        → Route h
    not_allowed :
        (q : Question) (rest : List Question) (box : Str)
        → D.questions r ≡ q ∷ rest
        → sv.boxes client ≡ some box
        → sv.policy box q.name ≡ none
        → h ≡ record {
          reply = D.set_rcode r rcode_name_error;
          events = event sv box q blocked [] ∷ [];
          state = s;
        }
        → Route h
    upstream_failed :
        (q : Question) (rest : List Question) (box : Str) (ttl : ℤ)
        → D.questions r ≡ q ∷ rest
        → sv.boxes client ≡ some box
        → sv.policy box q.name ≡ some ttl
        → usable (sv.resolve r) ≡ none
        → h ≡ record {
          reply = D.set_rcode r rcode_server_failure;
          events = event sv box q error [] ∷ [];
          state = s;
        }
        → Route h
    pin_failed :
        (l : Lookup) (e : Str)
        → (pin_all P l.box l.ttl (to_pin l) s).1 ≡ some e
        → h ≡ record {
          reply = D.set_rcode r rcode_server_failure;
          events = event sv l.box l.question error [] ∷ [];
          state = (pin_all P l.box l.ttl (to_pin l) s).0;
        }
        → Route h
    answered :
        (l : Lookup)
        → (pin_all P l.box l.ttl (to_pin l) s).1 ≡ none
        → h ≡ record {
          reply = D.set_id (D.id r) l.resp;
          events = event sv l.box l.question allowed (to_pin l) ∷ [];
          state = (pin_all P l.box l.ttl (to_pin l) s).0;
        }
        → Route h

  lookup-Route :
      (l : Lookup)
      → handle D P sv r client s ≡ handle_resolved D P sv r l.box l.question l.ttl l.resp s
      → Route (handle D P sv r client s)
  unfolding handle_resolved
  lookup-Route l e = elim (Option-cases (pin_all P l.box l.ttl (to_pin l) s).1) [
    | inl ok ↦ answered l ok (e ∙ rw (ok, handle_resolved))
    | inr (err, failed) ↦ pin_failed l err failed (e ∙ rw (failed, handle_resolved))
  ]

  list_cases : (qs : List Question) → D.questions r ≡ qs → Route (handle D P sv r client s)
  unfolding handle
  list_cases [] asked = no_question asked (rw (asked, handle))
  list_cases (q ∷ rest) asked = elim (Option-cases (sv.boxes client)) [
    | inl unknown ↦
        unknown_source q rest asked unknown (rw (asked, handle, unknown, handle_question))
    | inr (box, owner) ↦ elim (Option-cases (sv.policy box q.name)) [
      | inl denied ↦
          not_allowed q rest box asked owner denied
            (rw (asked, handle, owner, handle_question, denied, handle_box))
      | inr (ttl, permitted) ↦ elim (Option-cases (usable (sv.resolve r))) [
        | inl failed ↦
            upstream_failed q rest box ttl asked owner permitted failed (
              rw (asked, handle, owner, handle_question, permitted, handle_box, failed, handle_box))
        | inr (resp, resolved) ↦
            lookup-Route
              (record {
                question = q;
                rest = rest;
                box = box;
                ttl = ttl;
                resp = resp;
                asked = asked;
                owner = owner;
                permitted = permitted;
                resolved = resolved;
              })
              (rw (
                asked, handle, owner, handle_question, permitted, handle_box, resolved, handle_box,
              ))
      ]
    ]
  ]

  pub handle-Route : Route (handle D P sv r client s)
  handle-Route = list_cases (D.questions r) refl
