-- ===== src/Isolation/Denying.antt =====
-- Deny by default: a box without rules reaches nothing, whatever the other boxes do.
use llmbox.Prelude.{
  ℕ, ◌≡◌, ◌≢◌, sym, ap, ◌∙◌, inl, inr, Bool, Option, none, some, List, ℤ, Str, str_eq, get, pair_eq,
  Option-cases, subst,
}
use llmbox.Netip.{Addr, addr_eq, invalid}
use llmbox.Netfw.Firewall.{Programmer, BoxSpec, Error}
use llmbox.Netfw.Pinner.{PinKey, IsBacked}
use llmbox.Netfw.Pinner.Sweeping.{sweep-IsBacked, sweep_ignores_unpinned}
use llmbox.Dnsd.Policy.{Rule, first_match, allowed}
use llmbox.Dnsd.Server.{DnsLibrary}
use llmbox.Dnsd.Server.Enforcing.{IsLookedUp, handle_opens_only_looked_up, handle-IsSound}
use llmbox.Isolation.{
  Enforcer, NetworkPolicy, configure, set_network_policy, release, tick, query, server,
  rules_from_policy,
}
use llmbox.Isolation.Wiring.{netfw_pinner, pin_row}
use llmbox.Isolation.Releasing.{
  IsDenied, box_rules-set, release-IsBacked, release-IsDenied, release_frame,
}

module _ (P : Programmer) (clock : ℕ → ℤ) (D : DnsLibrary) where
  -- An operation that gives the box no rules: any query, a sweep, and every API call for another
  -- box, which is configured only while it has no pins; the box itself may be released.
  pub data Step (box : Str) (e : Enforcer P) : Enforcer P → Type 0 where
    queried :
        (resolve : D.Msg → Option D.Msg × Error) (now : ℤ) (client : Addr) (r : D.Msg)
        → Step box e (query P clock D resolve now client r e)
    ticked : Step box e (tick P clock e).0
    pushed :
        (b : Str) (policy : NetworkPolicy) → b ≢ box → Step box e (set_network_policy P b policy e)
    configured :
        (b : Str) (spec : BoxSpec) (ip : Addr) (rules : List Rule)
        → b ≢ box
        → ((i : Addr) → get {K = PinKey} (b, i) e.net.inner.pins ≡ none)
        → Step box e (configure P b spec ip rules e).0
    released_other : (b : Str) → b ≢ box → Step box e (release P b e).0
    released : (release P box e).1 ≡ none → Step box e (release P box e).0

  pub data Reach (box : Str) (e : Enforcer P) : Enforcer P → Type 0 where
    here : Reach box e e
    next : {u v : Enforcer P} → Reach box e u → Step box u v → Reach box e v

  denied-allowed :
      (box : Str) (e : Enforcer P) (qname : Str)
      → IsDenied P box e
      → allowed e.policy box qname ≡ none
  unfolding allowed first_match
  denied-allowed box e qname v = rw v.no_rules

  module _ (box : Str) (e : Enforcer P) (sound : IsBacked P e.net.inner) where
    query-IsDenied :
        (resolve : D.Msg → Option D.Msg × Error) (now : ℤ) (client : Addr) (r : D.Msg)
        → IsDenied P box e
        → IsDenied P box (query P clock D resolve now client r e)
    unfolding query
    query-IsDenied resolve now client r v = record {
      no_rules = v.no_rules;
      no_pins = λ ip. ap (λ (row : Option ℤ × Bool). row.0) (same_row ip) ∙ v.no_pins ip;
      closed = λ ip. ap (λ (row : Option ℤ × Bool). row.1) (same_row ip) ∙ v.closed ip;
    }
      where
        not_looked_up :
            (ip : Addr)
            → ¬ IsLookedUp D
                (netfw_pinner P clock)
                (server P D resolve now e)
                r
                client
                e.net
                (box, ip)
        not_looked_up ip (l, same, _) =
            cc (denied-allowed box e l.question.name v, l.permitted, same)

        same_row :
            (ip : Addr)
            → pin_row P clock (query P clock D resolve now client r e).net (box, ip)
              ≡ pin_row P clock e.net (box, ip)
        same_row ip =
            handle_opens_only_looked_up D (netfw_pinner P clock) (server P D resolve now e) r client
              e.net (box, ip) (not_looked_up ip)

    tick-IsDenied : IsDenied P box e → IsDenied P box (tick P clock e).0
    unfolding tick
    tick-IsDenied v = record {
      no_rules = v.no_rules;
      no_pins = λ ip.
          (sweep_ignores_unpinned P (clock e.net.readings) e.net.inner (box, ip) sound
            (v.no_pins ip)).0;
      closed = λ ip.
          (sweep_ignores_unpinned P (clock e.net.readings) e.net.inner (box, ip) sound
            (v.no_pins ip)).1
          ∙ v.closed ip;
    }

    pushed-IsDenied :
        (b : Str) (policy : NetworkPolicy)
        → b ≢ box
        → IsDenied P box e
        → IsDenied P box (set_network_policy P b policy e)
    unfolding set_network_policy
    pushed-IsDenied b policy other v = record {
      no_rules = box_rules-set e.policy box b (rules_from_policy policy) other ∙ v.no_rules;
      no_pins = v.no_pins;
      closed = v.closed;
    }

    configured-IsDenied :
        (b : Str) (spec : BoxSpec) (ip : Addr) (rules : List Rule)
        → b ≢ box
        → IsDenied P box e
        → IsDenied P box (configure P b spec ip rules e).0
    unfolding configure
    configured-IsDenied b spec ip rules other v =
        elim (Option-cases (P.baseline b spec e.net.inner.fw).1) [
          | inl ok ↦
              rw (ok, configure)
                (record {
                  no_rules = box_rules-set e.policy box b rules other ∙ v.no_rules;
                  no_pins = v.no_pins;
                  closed = λ i.
                      P.baseline_frame b spec e.net.inner.fw (box, i) (λ same. other (sym same))
                      ∙ v.closed i;
                })
          | inr (err, failed) ↦
              rw (failed, configure)
                (record {
                  no_rules = v.no_rules;
                  no_pins = v.no_pins;
                  closed = λ i.
                      P.baseline_frame b spec e.net.inner.fw (box, i) (λ same. other (sym same))
                      ∙ v.closed i;
                })
        ]

    released-IsDenied : (b : Str) → b ≢ box → IsDenied P box e → IsDenied P box (release P b e).0
    released-IsDenied b other v = record {
      no_rules = (release_frame P b e box invalid sound other).0 ∙ v.no_rules;
      no_pins = λ ip. (release_frame P b e box ip sound other).1 ∙ v.no_pins ip;
      closed = λ ip. (release_frame P b e box ip sound other).2 ∙ v.closed ip;
    }

    configure-IsBacked :
        (b : Str) (spec : BoxSpec) (ip : Addr) (rules : List Rule)
        → ((i : Addr) → get {K = PinKey} (b, i) e.net.inner.pins ≡ none)
        → IsBacked P (configure P b spec ip rules e).0.net.inner
    unfolding configure
    configure-IsBacked b spec ip rules unpinned =
        elim (Option-cases (P.baseline b spec e.net.inner.fw).1) [
          | inl ok ↦ rw (ok, configure) based
          | inr (err, failed) ↦ rw (failed, configure) based
        ]
      where
        unpinned_elsewhere : (k : PinKey) (d : ℤ) → get k e.net.inner.pins ≡ some d → k.0 ≡ b → ⊥
        unpinned_elsewhere (c, i) d h same =
            let gone : get {K = PinKey} (c, i) e.net.inner.pins ≡ none =
              subst (λ x. get {K = PinKey} (x, i) e.net.inner.pins ≡ none) (sym same)
                (unpinned i) in
            cc

        based : IsBacked P (record e.net.inner { fw = (P.baseline b spec e.net.inner.fw).0 })
        based = record {
          distinct = sound.distinct;
          backed = λ k d h.
              P.baseline_frame b spec e.net.inner.fw k (λ same. unpinned_elsewhere k d h same)
              ∙ sound.backed k d h;
        }

  Step-IsBacked :
      {box : Str} {e u : Enforcer P}
      → Step box e u
      → IsBacked P e.net.inner
      → IsBacked P u.net.inner
  unfolding query tick set_network_policy
  Step-IsBacked {e} (queried resolve now client r) v =
      handle-IsSound D (netfw_pinner P clock) (server P D resolve now e) r client e.net v
  Step-IsBacked {e} ticked v = sweep-IsBacked P (clock e.net.readings) e.net.inner v
  Step-IsBacked (pushed b policy other) v = v
  Step-IsBacked {e} (configured b spec ip rules other unpinned) v =
      configure-IsBacked b e v b spec ip rules unpinned
  Step-IsBacked {e} (released_other b other) v = release-IsBacked P b e v
  Step-IsBacked {box} {e} (released done) v = release-IsBacked P box e v

  Step-IsDenied :
      {box : Str} {e u : Enforcer P}
      → Step box e u
      → IsBacked P e.net.inner
      → IsDenied P box e
      → IsDenied P box u
  Step-IsDenied {box} {e} (queried resolve now client r) s v =
      query-IsDenied box e s resolve now client r v
  Step-IsDenied {box} {e} ticked s v = tick-IsDenied box e s v
  Step-IsDenied {box} {e} (pushed b policy other) s v = pushed-IsDenied box e s b policy other v
  Step-IsDenied {box} {e} (configured b spec ip rules other _) s v =
      configured-IsDenied box e s b spec ip rules other v
  Step-IsDenied {box} {e} (released_other b other) s v = released-IsDenied box e s b other v
  Step-IsDenied {box} {e} (released done) s v = release-IsDenied P box e s done

  pub Reach-IsBacked :
      {box : Str} {e u : Enforcer P}
      → Reach box e u
      → IsBacked P e.net.inner
      → IsBacked P u.net.inner
  Reach-IsBacked here v = v
  Reach-IsBacked (next r st) v = Step-IsBacked st (Reach-IsBacked r v)

  -- A box with no rule, no pin and no open address keeps none of them through every sequence of
  -- queries by any client, sweeps, its own error-free releases, and configurations, policy pushes
  -- and releases of other boxes, where a box is configured only while it has no pins and the pins
  -- of the start state are backed.
  pub Reach-IsDenied :
      {box : Str} {e u : Enforcer P}
      → Reach box e u
      → IsBacked P e.net.inner
      → IsDenied P box e
      → IsDenied P box u
  Reach-IsDenied here s v = v
  Reach-IsDenied (next r st) s v = Step-IsDenied st (Reach-IsBacked r s) (Reach-IsDenied r s v)
