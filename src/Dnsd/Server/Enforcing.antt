-- ===== src/Dnsd/Server/Enforcing.antt =====
-- What a query can do to the firewall, and what an answer promises.
use llmbox.Prelude.{
  ℕ, ◌≡◌, ◌≢◌, refl, sym, ap, ◌∙◌, inl, inr, true, none, some, List, [], ◌∷◌, ℤ, Str, All,
  All-of_In, In, contains, contains_iff, Option-cases, Bool-cases,
}
use llmbox.Netip.{Addr, addr_eq}
use llmbox.Dnsd.Server.{
  DnsLibrary, Pinner, Server, answer_ips, pin_all, handle, is_open, rcode_format_error,
  rcode_server_failure, rcode_name_error, rcode_refused,
}
use llmbox.Dnsd.Server.Routes.{
  Lookup, Route, no_question, unknown_source, not_allowed, upstream_failed, pin_failed, answered,
  handle-Route,
}

module _ (P : Pinner) (box : Str) (ttl : ℤ) where
  -- The two ways through a round of the loop.
  pin_all_ok :
      (ip : Addr) (ips : List Addr) (s : P.State)
      → (P.pin box ip ttl s).1 ≡ none
      → pin_all P box ttl (ip ∷ ips) s ≡ pin_all P box ttl ips (P.pin box ip ttl s).0
  unfolding pin_all
  pin_all_ok ip ips s e = rw (e, pin_all)

  pin_all_stop :
      (ip : Addr) (ips : List Addr) (s : P.State) (err : Str)
      → (P.pin box ip ttl s).1 ≡ some err
      → pin_all P box ttl (ip ∷ ips) s ≡ ((P.pin box ip ttl s).0, some err)
  unfolding pin_all
  pin_all_stop ip ips s err e = rw (e, pin_all)

  pin_all-IsSound :
      (ips : List Addr) (s : P.State) → P.IsSound s → P.IsSound (pin_all P box ttl ips s).0
  pin_all-IsSound [] s v = unfold pin_all in v
  pin_all-IsSound (ip ∷ ips) s v = elim (Option-cases (P.pin box ip ttl s).1) [
    | inl ok ↦
        rw (pin_all_ok ip ips s ok)
          (pin_all-IsSound ips (P.pin box ip ttl s).0 (P.pin-IsSound box ip ttl s v))
    | inr (err, e) ↦ rw (pin_all_stop ip ips s err e) (P.pin-IsSound box ip ttl s v)
  ]

  pin_all_frame :
      (ips : List Addr) (s : P.State) (k : Str × Addr)
      → ¬ ((k.0 ≡ box) × In k.1 ips)
      → P.row (pin_all P box ttl ips s).0 k ≡ P.row s k
  pin_all_frame [] s k out = unfold pin_all in refl
  pin_all_frame (ip ∷ ips) s k out =
      let later : ¬ ((k.0 ≡ box) × In k.1 ips) = λ (b, i). out (b, inr i) in
      let one =
        P.pin_frame box ip ttl s k
          (λ e. out (ap (λ (x : Str × Addr). x.0) e, inl (sym (ap (λ (x : Str × Addr). x.1) e)))) in
      elim (Option-cases (P.pin box ip ttl s).1) [
        | inl ok ↦
            rw (pin_all_ok ip ips s ok) (pin_all_frame ips (P.pin box ip ttl s).0 k later ∙ one)
        | inr (err, e) ↦ rw (pin_all_stop ip ips s err e) one
      ]

  pin_all_opens :
      (ips : List Addr) (s : P.State) (i : Addr)
      → P.IsSound s
      → (pin_all P box ttl ips s).1 ≡ none
      → In i ips
      → is_open P (pin_all P box ttl ips s).0 (box, i) ≡ true
  pin_all_opens [] s i v h at = absurd at
  pin_all_opens (ip ∷ ips) s i v h at = elim (Option-cases (P.pin box ip ttl s).1) [
    | inr (err, e) ↦ cc (rw (pin_all_stop ip ips s err e) at h)
    | inl ok ↦
        let s' = (P.pin box ip ttl s).0 in
        rw (pin_all_ok ip ips s ok) (elim (Bool-cases (contains ips i)) [
          | inl later ↦
              pin_all_opens ips s' i (P.pin-IsSound box ip ttl s v)
                (rw (pin_all_ok ip ips s ok) at h) ((contains_iff ips i).0 later)
          | inr last ↦
              let out : ¬ In i ips = λ there. cc ((contains_iff ips i).1 there) in
              let here : ip ≡ i = elim at [ inl e ↦ e | inr there ↦ absurd (out there) ] in
              ap P.reachable (pin_all_frame ips s' (box, i) (λ (_, there). out there))
              ∙ rw (← here) (P.pin_opens box ip ttl s v ok)
        ])
  ]

module _ (D : DnsLibrary) (P : Pinner) (sv : Server D) (r : D.Msg) (client : Addr)
    (s : P.State) where
  -- The query is a lookup that the policy of the client's box permits, the resolver's reply to it
  -- carries the address, and the box is the address's.
  abbrev pub IsLookedUp : Str × Addr → Type 0
  IsLookedUp (box, ip) =
      (l : Lookup D P sv r client s) × (l.box ≡ box) × In ip (answer_ips (D.answers l.resp))

  -- A query leaves the pin and the firewall entry of each address of each box as they were,
  -- unless the box is the client's, its policy permits the lookup, and the resolver's reply
  -- carries the address.
  pub handle_opens_only_looked_up :
      (k : Str × Addr) → ¬ IsLookedUp k → P.row (handle D P sv r client s).state k ≡ P.row s k
  handle_opens_only_looked_up k out = same (handle-Route D P sv r client s)
    where
      pinned_frame :
          (l : Lookup D P sv r client s)
          → P.row (pin_all P l.box l.ttl (answer_ips (D.answers l.resp)) s).0 k ≡ P.row s k
      pinned_frame l =
          pin_all_frame P l.box l.ttl (answer_ips (D.answers l.resp)) s k
            (λ (b, i). out (l, sym b, i))

      same :
          Route D P sv r client s (handle D P sv r client s)
          → P.row (handle D P sv r client s).state k ≡ P.row s k
      same (no_question _ e) = rw e
      same (unknown_source _ _ _ _ e) = rw e
      same (not_allowed _ _ _ _ _ _ e) = rw e
      same (upstream_failed _ _ _ _ _ _ _ _ e) = rw e
      same (pin_failed l _ _ e) = rw e (pinned_frame l)
      same (answered l _ e) = rw e (pinned_frame l)

  -- In a sound state of the Pinner, a reply that carries an answer is the resolver's answer to a
  -- lookup that the policy of the client's box permits, and every address in it is open for that
  -- box in the state the query leaves.
  pub handle_answers_are_open :
      P.IsSound s
      → D.answers (handle D P sv r client s).reply ≢ []
      → (l : Lookup D P sv r client s) × (D.answers (handle D P sv r client s).reply
          ≡ D.answers l.resp)
        × All
            (λ i. is_open P (handle D P sv r client s).state (l.box, i) ≡ true)
            (answer_ips (D.answers l.resp))
  handle_answers_are_open v some_answer = by_route (handle-Route D P sv r client s)
    where
      Goal : Type 0
      Goal =
          (l : Lookup D P sv r client s) × (D.answers (handle D P sv r client s).reply
            ≡ D.answers l.resp)
          × All (λ i. is_open P (handle D P sv r client s).state (l.box, i) ≡ true)
              (answer_ips (D.answers l.resp))

      empty :
          (code : ℕ)
          → D.answers (handle D P sv r client s).reply ≡ D.answers (D.set_rcode r code)
          → Goal
      empty code e = absurd (some_answer (e ∙ D.answers-set_rcode r code))

      by_route : Route D P sv r client s (handle D P sv r client s) → Goal
      by_route (no_question _ e) = empty rcode_format_error (rw e)
      by_route (unknown_source _ _ _ _ e) = empty rcode_refused (rw e)
      by_route (not_allowed _ _ _ _ _ _ e) = empty rcode_name_error (rw e)
      by_route (upstream_failed _ _ _ _ _ _ _ _ e) = empty rcode_server_failure (rw e)
      by_route (pin_failed l _ _ e) = empty rcode_server_failure (rw e)
      by_route (answered l ok e) =
          let ips = answer_ips (D.answers l.resp) in
          (
            l,
            rw e (D.answers-set_id (D.id r) l.resp),
            rw e (All-of_In _ ips (λ i at. pin_all_opens P l.box l.ttl ips s i v ok at)),
          )

  -- The Pinner's state stays sound.
  pub handle-IsSound : P.IsSound s → P.IsSound (handle D P sv r client s).state
  handle-IsSound v = by_route (handle-Route D P sv r client s)
    where
      by_route :
          Route D P sv r client s (handle D P sv r client s)
          → P.IsSound (handle D P sv r client s).state
      by_route (no_question _ e) = rw e v
      by_route (unknown_source _ _ _ _ e) = rw e v
      by_route (not_allowed _ _ _ _ _ _ e) = rw e v
      by_route (upstream_failed _ _ _ _ _ _ _ _ e) = rw e v
      by_route (pin_failed l _ _ e) = rw e (pin_all-IsSound P l.box l.ttl _ s v)
      by_route (answered l _ e) = rw e (pin_all-IsSound P l.box l.ttl _ s v)
