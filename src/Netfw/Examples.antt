-- ===== src/Netfw/Examples.antt =====
-- The Pinner at concrete inputs, over the recording firewall and over one that cannot revoke.
use llmbox.Prelude.{
  ◌≡◌, refl, true, false, none, some, [], ◌∷◌, arith, pos, ◌+ℤ◌, after, Str, codes, str_eq, get,
  put, pair_eq, keep, sort, str_beq, del,
}
use llmbox.Netip.{Addr, ip4, addr_eq}
use llmbox.Netfw.Firewall.{Programmer, Error}
use llmbox.Netfw.Recording
use llmbox.Netfw.Recording.{recording}
use llmbox.Netfw.Pinner.{
  PinKey, PinState, IsBacked, pin, sweep, run, key_le, del_all, sweep_collect, sweep_revoke,
  expired,
}
use llmbox.Netfw.Pinner.Pinning.{Pinned, pin-Pinned, pin-IsBacked}
use llmbox.Netfw.Pinner.Sweeping.{sweep_closes_expired}
use llmbox.Netfw.Pinner.Running.{failed_revoke_stays_open}
use llmbox.Netfw.Pinner.Races.{late_revoke_closes_pin, interleaved_sweep}

abbrev web : Str
web = codes "web"

abbrev ten : Addr
ten = ip4 0x0a000001

abbrev eleven : Addr
eleven = ip4 0x0b000001

abbrev fresh : (P : Programmer) → P.State → PinState P
fresh P fw = record { pins = []; fw = fw }

fresh-IsBacked : (P : Programmer) (fw : P.State) → IsBacked P (fresh P fw)
unfolding get
fresh-IsBacked P fw = record { distinct = tt; backed = λ k d h. ground arith }

-- Address 10.0.0.1 is pinned until 30, and then 11.0.0.1 until 90.
abbrev first_pin : PinState recording
first_pin = (pin recording (pos 0) web ten (pos 30) (fresh recording [])).0

abbrev both_pins : PinState recording
both_pins = (pin recording (pos 10) web eleven (pos 80) first_pin).0

first_pin-IsBacked : IsBacked recording first_pin
first_pin-IsBacked =
    pin-IsBacked recording (pos 0) (pos 30) web ten (fresh recording [])
      (fresh-IsBacked recording [])

both_pins-IsBacked : IsBacked recording both_pins
both_pins-IsBacked =
    pin-IsBacked recording (pos 10) (pos 80) web eleven first_pin first_pin-IsBacked

-- What the examples compute with.
computing : Unit {0}
unfolding pin sweep run get put after ◌+ℤ◌ sort key_le del_all Recording.allow Recording.revoke
    Recording.allowed keep sweep_collect sweep_revoke expired str_beq del
computing = tt

pin-Pinned_example :
    Pinned recording
      (pos 10)
      (pos 80)
      web
      eleven
      first_pin
      (pin recording (pos 10) web eleven (pos 80) first_pin)
pin-Pinned_example = pin-Pinned recording (pos 10) (pos 80) web eleven first_pin first_pin-IsBacked

sweep_closes_expired_example :
    (get {K = PinKey} (web, ten) (sweep recording (pos 40) both_pins).0.pins ≡ none)
    × (Recording.allowed (sweep recording (pos 40) both_pins).0.fw (web, ten) ≡ false)
unfolding computing
sweep_closes_expired_example =
    sweep_closes_expired recording (pos 40) both_pins (web, ten) (pos 30) both_pins-IsBacked refl
      refl refl

late_revoke_closes_pin_example :
    (get {K = PinKey}
        (web, ten)
        (interleaved_sweep recording (pos 40) (pos 41) (pos 30) web ten both_pins).0.pins
      ≡ some (pos 71))
    × (Recording.allowed
          (interleaved_sweep recording (pos 40) (pos 41) (pos 30) web ten both_pins).0.fw
          (web, ten)
        ≡ false)
unfolding computing
late_revoke_closes_pin_example =
    late_revoke_closes_pin recording (pos 40) (pos 41) (pos 30) web ten both_pins (pos 30)
      both_pins-IsBacked refl refl refl refl

never_nil :
    (b : Str) (i : Addr) (s : Recording.Boxes)
    → ◌≡◌ {A = Error} (some (codes "nft: busy")) none
    → Recording.allowed s (b, i) ≡ false
never_nil b i s h = cc

-- A firewall whose Revoke always fails and changes nothing.
abbrev stubborn : Programmer
stubborn = record {
  State = Recording.Boxes;
  baseline = Recording.baseline;
  allow = Recording.allow;
  revoke = λ b i s. (s, some (codes "nft: busy"));
  teardown = Recording.teardown;
  is_open = Recording.allowed;
  allow_opens = recording.allow_opens;
  allow_frame = recording.allow_frame;
  revoke_closes = λ b i s h. never_nil b i s h;
  revoke_frame = λ b i s k h. refl;
  teardown_closes = recording.teardown_closes;
  teardown_frame = recording.teardown_frame;
  baseline_frame = recording.baseline_frame;
}

abbrev stuck_pin : PinState stubborn
stuck_pin = (pin stubborn (pos 0) web ten (pos 30) (fresh stubborn [])).0

failed_revoke_stays_open_example :
    stubborn.is_open
      (run stubborn (pos 50 ∷ pos 60 ∷ []) (sweep stubborn (pos 40) stuck_pin).0).0.fw
      (web, ten)
    ≡ true
unfolding computing
failed_revoke_stays_open_example =
    failed_revoke_stays_open stubborn (pos 40) (pos 50 ∷ pos 60 ∷ []) stuck_pin (web, ten) (pos 30)
      (pin-IsBacked stubborn (pos 0) (pos 30) web ten (fresh stubborn [])
        (fresh-IsBacked stubborn []))
      refl refl refl
