-- ===== src/Hub/Proxies/Repeating.antt =====
-- What a creation leaves of the records, and that it can be repeated.
use llmbox.Prelude.{
  ◌≡◌, refl, sym, ap, subst, ◌∙◌, inl, inr, Bool, true, false, not, ◌&&◌, ◌||◌, Option, none, some,
  [], arith, ltb, nat_beq, Bool-cases, beq_refl, str_beq_iff, ℤ, Str, str_eq, ◌==◌, to_lower, del,
  Result, ok, failed,
}
use llmbox.Netfw.Firewall.{Error}
use llmbox.Box.Identifiers.{equal_fold}
use llmbox.Hub.Records.{Session, terminated}
use llmbox.Hub.Proxies.{
  ProxyRecord, Proxies, later, fault, undrawn, draw, find_ended, save_ended, remove_ended, Wanted,
  fits, first_fit, find_proxy, save, remove, record_of, saved, with_slug, mint, replaced,
  on_existing, create_proxy,
}
use llmbox.Hub.Proxies.Pairs.{
  IsUnfit, IsPaired, first_fit-none, first_fit-del, del-IsPaired, put-IsPaired, first_fit-put,
}

-- What a creation for a session leaves: records of which no two are of the same port of a box, and
-- the record that it gives is what the port is resolved to and is of the session's generation.
abbrev pub Leaves : Wanted → Session → Bool → Proxies × Result Str ProxyRecord → Type 0
Leaves w s on (t, failed e) = IsPaired t.rows × (t.enabled ≡ on)
Leaves w s on (t, ok r) =
    IsPaired t.rows
    × (t.enabled ≡ on)
    × (first_fit w.box_id w.port t.rows ≡ some r)
    × (r.instance_id ≡ s.generation)

fits_own : (r : ProxyRecord) → fits r.box_id r.port r ≡ true
unfolding equal_fold
fits_own r = both (beq_refl (to_lower r.box_id))
  where
    both :
        (to_lower r.box_id == to_lower r.box_id) ≡ true
        → ((to_lower r.box_id == to_lower r.box_id) && nat_beq r.port r.port) ≡ true
    both e = rw e (ground arith)

module _ (w : Wanted) (s : Session) where
  saved-Leaves :
      (slug : Str) (p : Proxies) (now : ℤ) (x : Error)
      → IsUnfit w.box_id w.port p.rows
      → IsPaired p.rows
      → Leaves w s p.enabled
          (saved (record_of w s slug now) (save_ended (record_of w s slug now) p x))
  saved-Leaves slug p now (some e) unfit paired = (paired, refl)
  saved-Leaves slug p now none unfit paired =
      let r = record_of w s slug now in
      (put-IsPaired r p.rows unfit paired, refl, first_fit-put r p.rows unfit (fits_own r), refl)

  with_slug-Leaves :
      (p : Proxies) (r : Result Str Str)
      → IsUnfit w.box_id w.port p.rows
      → IsPaired p.rows
      → Leaves w s p.enabled (with_slug w s p r)
  unfolding save
  with_slug-Leaves p (failed e) unfit paired = (paired, refl)
  with_slug-Leaves p (ok slug) unfit paired = saved-Leaves slug p p.now (fault p) unfit paired

  mint-Leaves :
      (p : Proxies)
      → IsUnfit w.box_id w.port p.rows
      → IsPaired p.rows
      → Leaves w s p.enabled (mint w s p)
  mint-Leaves p unfit paired = with_slug-Leaves (undrawn p) (draw p) unfit paired

  replaced-Leaves :
      (p : Proxies) (r : ProxyRecord) (x : Error)
      → IsPaired p.rows
      → first_fit w.box_id w.port p.rows ≡ some r
      → Leaves w s p.enabled (replaced w s (remove_ended r.slug p x))
  replaced-Leaves p r (some e) paired it = (paired, refl)
  replaced-Leaves p r none paired it =
      mint-Leaves (record (later p) { rows = del r.slug p.rows })
        (first_fit-del w.box_id w.port r p.rows paired it) (del-IsPaired r.slug p.rows paired)

  existing-Leaves :
      (p : Proxies) (o : Option ProxyRecord)
      → IsPaired p.rows
      → first_fit w.box_id w.port p.rows ≡ o
      → Leaves w s p.enabled (on_existing w s (p, ok o))
  unfolding remove
  existing-Leaves p none paired it = mint-Leaves p (first_fit-none w.box_id w.port p.rows it) paired
  existing-Leaves p (some r) paired it = elim (Bool-cases (r.instance_id == s.generation)) [
    | inl same ↦ rw same (paired, refl, it, (str_beq_iff r.instance_id s.generation).0 same)
    | inr stale ↦ rw stale (replaced-Leaves p r (fault p) paired it)
  ]

  found-Leaves :
      (p : Proxies) (x : Error)
      → IsPaired p.rows
      → Leaves w s p.enabled (on_existing w s (find_ended w.box_id w.port p x))
  found-Leaves p (some e) paired = (paired, refl)
  found-Leaves p none paired =
      existing-Leaves (later p) (first_fit w.box_id w.port p.rows) paired refl

  create_proxy-Leaves :
      (p : Proxies) → IsPaired p.rows → Leaves w s p.enabled (create_proxy w (some s) p)
  unfolding create_proxy find_proxy
  create_proxy-Leaves p paired = elim (Bool-cases (not p.enabled)) [
    | inl off ↦ rw off (paired, refl)
    | inr on ↦ elim (Bool-cases (ltb w.port 1 || ltb 65535 w.port)) [
      | inl bad ↦ rw (on, bad) (paired, refl)
      | inr good ↦ elim (Bool-cases (terminated s)) [
        | inl gone ↦ rw (on, good, gone) (paired, refl)
        | inr live ↦ rw (on, good, live) (found-Leaves p (fault p) paired)
      ]
    ]
  ]

  Leaves-ok :
      (on : Bool) (x : Proxies × Result Str ProxyRecord) (r : ProxyRecord)
      → Leaves w s on x
      → x.1 ≡ ok r
      → (x.0.enabled ≡ on)
        × (first_fit w.box_id w.port x.0.rows ≡ some r)
        × (r.instance_id ≡ s.generation)
  Leaves-ok on (t, failed e) r left h = cc h
  Leaves-ok on (t, ok q) r (paired, same, it, own) h =
      let e : q ≡ r = cc h in
      (same, it ∙ ap some e, ap (λ (x : ProxyRecord). x.instance_id) (sym e) ∙ own)

  -- What a creation that gives a record has checked.
  checked :
      (p : Proxies) (r : ProxyRecord)
      → (create_proxy w (some s) p).1 ≡ ok r
      → (not p.enabled ≡ false)
        × ((ltb w.port 1 || ltb 65535 w.port) ≡ false)
        × (terminated s ≡ false)
  unfolding create_proxy
  checked p r h = elim (Bool-cases (not p.enabled)) [
    | inl off ↦ cc (rw off at h)
    | inr on ↦ elim (Bool-cases (ltb w.port 1 || ltb 65535 w.port)) [
      | inl bad ↦ cc (rw (on, bad) at h)
      | inr good ↦ elim (Bool-cases (terminated s)) [
        | inl gone ↦ cc (rw (on, good, gone) at h)
        | inr live ↦ (on, good, live)
      ]
    ]
  ]

  Gives : Proxies → ProxyRecord → Proxies × Result Str ProxyRecord → Type 0
  Gives p r x = (x.1 ≡ ok r) × (x.0.rows ≡ p.rows)

  found_again :
      (p : Proxies) (r : ProxyRecord) (o : Option ProxyRecord)
      → o ≡ some r
      → r.instance_id ≡ s.generation
      → Gives p r (on_existing w s (later p, ok o))
  unfolding Gives
  found_again p r none it own = cc it
  found_again p r (some q) it own =
      let e : q ≡ r = cc it in
      let same : (q.instance_id == s.generation) ≡ true =
        (str_beq_iff q.instance_id s.generation).1
          (ap (λ (x : ProxyRecord). x.instance_id) e ∙ own) in
      rw same (ap ok e, refl)

  Gives-again :
      (p : Proxies) (r : ProxyRecord)
      → not p.enabled ≡ false
      → (ltb w.port 1 || ltb 65535 w.port) ≡ false
      → terminated s ≡ false
      → p.faults ≡ []
      → first_fit w.box_id w.port p.rows ≡ some r
      → r.instance_id ≡ s.generation
      → Gives p r (create_proxy w (some s) p)
  unfolding create_proxy find_proxy Gives
  Gives-again p r on good live fine it own =
      let unfailed : fault p ≡ none = rw fine refl in
      rw (on, good, live)
        (subst (λ x. Gives p r (on_existing w s (find_ended w.box_id w.port p x))) (sym unfailed)
          (found_again p r (first_fit w.box_id w.port p.rows) it own))

  -- From rows that stand under their slugs and of which no two are of the same port of a box,
  -- when a creation gives a record, the same creation again, while the database does not fail,
  -- gives the same record and changes no row.
  pub create_proxy_again :
      (p : Proxies) (r : ProxyRecord)
      → IsPaired p.rows
      → (create_proxy w (some s) p).1 ≡ ok r
      → (create_proxy w (some s) p).0.faults ≡ []
      → ((create_proxy w (some s) (create_proxy w (some s) p).0).1 ≡ ok r)
        × ((create_proxy w (some s) (create_proxy w (some s) p).0).0.rows
            ≡ (create_proxy w (some s) p).0.rows)
  unfolding Gives
  create_proxy_again p r paired h fine =
      let t = (create_proxy w (some s) p).0 in
      let (on, good, live) = checked p r h in
      let (same, it, own) =
        Leaves-ok p.enabled (create_proxy w (some s) p) r (create_proxy-Leaves p paired) h in
      Gives-again t r (ap not same ∙ on) good live fine it own
