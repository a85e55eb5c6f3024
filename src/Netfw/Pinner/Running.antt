-- ===== src/Netfw/Pinner/Running.antt =====
-- The background loop `Run`, and `Forget` behind a teardown.
use llmbox.Prelude.{
  ◌≡◌, refl, sym, ◌∙◌, ◌⊎◌, inl, inr, Bool, true, false, not, Option, none, some, List, [], ◌∷◌,
  arith, ℤ, after, Str, Option-cases, str_eq, str_beq_iff, ◌==◌, if◌then◌else◌, kept-some, get,
  kept, get-keep, pair_eq, keep-HasDistinctKeys,
}
use llmbox.Netip.{addr_eq}
use llmbox.Netfw.Firewall.{Programmer}
use llmbox.Netfw.Pinner.{PinKey, PinState, IsBacked, sweep, run, forget}
use llmbox.Netfw.Pinner.Sweeping.{
  sweep-IsBacked, sweep_ignores_unpinned, sweep_closes_expired, sweep_drops_expired,
}

module _ (P : Programmer) where
  run-IsBacked : (ticks : List ℤ) (s : PinState P) → IsBacked P s → IsBacked P (run P ticks s).0
  unfolding run
  run-IsBacked [] s v = v
  run-IsBacked (now ∷ ticks) s v = run-IsBacked ticks (sweep P now s).0 (sweep-IsBacked P now s v)

  run_ignores_unpinned :
      (ticks : List ℤ) (s : PinState P) (k : PinKey)
      → IsBacked P s
      → get k s.pins ≡ none
      → P.is_open (run P ticks s).0.fw k ≡ P.is_open s.fw k
  unfolding run
  run_ignores_unpinned [] s k v absent = refl
  run_ignores_unpinned (now ∷ ticks) s k v absent =
      let (gone, same) = sweep_ignores_unpinned P now s k v absent in
      run_ignores_unpinned ticks (sweep P now s).0 k (sweep-IsBacked P now s v) gone ∙ same

  module _ (box : Str) (s : PinState P) where
    abbrev of_others : PinKey → ℤ → Bool
    of_others k _ = not (k.0 == box)

    get-forget :
        (k : PinKey) → IsBacked P s → get k (forget P box s).pins ≡ kept of_others k (get k s.pins)
    unfolding forget
    get-forget k v = get-keep of_others k s.pins v.distinct

    -- The box's pins are gone, and all others stay.
    pub get-forget_if :
        (k : PinKey)
        → IsBacked P s
        → get k (forget P box s).pins ≡ (if k.0 == box then none else get k s.pins)
    get-forget_if k v = by_value (get k s.pins) (get-forget k v)
      where
        by_value :
            (o : Option ℤ)
            → get k (forget P box s).pins ≡ kept of_others k o
            → get k (forget P box s).pins ≡ (if k.0 == box then none else o)
        by_value none h = ground arith
        by_value (some d) h = ground arith

    -- Forgetting a box whose rules are torn down leaves every remaining pin backed.
    pub forget-teardown-IsBacked :
        IsBacked P s → IsBacked P (record (forget P box s) { fw = (P.teardown box s.fw).0 })
    forget-teardown-IsBacked v = record {
      distinct = unfold forget in keep-HasDistinctKeys of_others s.pins v.distinct;
      backed = λ k d h.
          let (pinned, other) = kept-some of_others k (get k s.pins) d (sym (get-forget k v) ∙ h) in
          P.teardown_frame box s.fw k (λ e. ground (arith, str_beq_iff k.0 box))
          ∙ v.backed k d pinned;
    }

  -- From a state whose pins are backed, the address of an expired pin that is still open after a
  -- sweep stays open through any number of later sweeps.
  pub failed_revoke_stays_open :
      (now : ℤ) (ticks : List ℤ) (s : PinState P) (k : PinKey) (d : ℤ)
      → IsBacked P s
      → get k s.pins ≡ some d
      → after d now ≡ false
      → P.is_open (sweep P now s).0.fw k ≡ true
      → P.is_open (run P ticks (sweep P now s).0).0.fw k ≡ true
  failed_revoke_stays_open now ticks s k d v found past leaks =
      run_ignores_unpinned ticks (sweep P now s).0 k (sweep-IsBacked P now s v)
        (sweep_drops_expired P now s k d v found past)
      ∙ leaks

  -- After the loop has ticked once past a deadline, the address is closed or the error reported.
  run_closes_or_reports :
      (now : ℤ) (s : PinState P) (k : PinKey) (d : ℤ)
      → IsBacked P s
      → get k s.pins ≡ some d
      → after d now ≡ false
      → (P.is_open (run P (now ∷ []) s).0.fw k ≡ false)
        ⊎ ((e : Str) × ((run P (now ∷ []) s).1 ≡ e ∷ []))
  unfolding run
  run_closes_or_reports now s k d v found past = elim (Option-cases (sweep P now s).1) [
    | inl done ↦ inl ((sweep_closes_expired P now s k d v found past done).1)
    | inr (e, failed) ↦ inr (e, rw (failed, run))
  ]
