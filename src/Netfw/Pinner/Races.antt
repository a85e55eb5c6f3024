-- ===== src/Netfw/Pinner/Races.antt =====
-- Pin and Sweep at once: Sweep revokes outside its lock, so a whole Pin can run between its
-- locked section and its calls of Revoke.
use llmbox.Prelude.{◌≡◌, false, none, some, ℤ, ◌+ℤ◌, after, Str, str_eq, get, pair_eq}
use llmbox.Netip.{Addr, addr_eq}
use llmbox.Netfw.Firewall.{Programmer, Error}
use llmbox.Netfw.Pinner.{PinState, IsBacked, pin, sweep_collect, sweep_revoke, expired}
use llmbox.Netfw.Pinner.Pinning.{get-pin}
use llmbox.Netfw.Pinner.Sweeping.{In-expired, revoke_all_closes}

module _ (P : Programmer) (now later ttl : ℤ) (box : Str) (ip : Addr) (s : PinState P) where
  abbrev collected : PinState P
  collected = (sweep_collect P now s).0

  -- A lookup's Pin, run when Sweep has left its locked section.
  abbrev interleaved_pin : PinState P × Error
  interleaved_pin = pin P later box ip ttl (sweep_collect P now s).0

  -- Then the rest of that Sweep.
  abbrev pub interleaved_sweep : PinState P × Error
  interleaved_sweep = sweep_revoke P (sweep_collect P now s).1 interleaved_pin.0

  -- Where the pins are backed and an address has a pin that expired by the time of a Sweep, a Pin of
  -- that address between the two halves of the Sweep leaves the address closed, with the new pin
  -- standing, if the Pin and the Sweep both return nil.
  pub late_revoke_closes_pin :
      (d : ℤ)
      → IsBacked P s
      → get (box, ip) s.pins ≡ some d
      → after d now ≡ false
      → interleaved_pin.1 ≡ none
      → interleaved_sweep.1 ≡ none
      → (get (box, ip) interleaved_sweep.0.pins ≡ some (later +ℤ ttl))
        × (P.is_open interleaved_sweep.0.fw (box, ip) ≡ false)
  unfolding sweep_collect sweep_revoke
  late_revoke_closes_pin d v found past pinned swept = (
    get-pin P later ttl box ip collected pinned,
    revoke_all_closes P (expired P now s) none interleaved_pin.0.fw (box, ip) swept
        (In-expired P now s (box, ip) d v.distinct found past),
  )
