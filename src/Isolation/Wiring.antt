-- ===== src/Isolation/Wiring.antt =====
-- netfw's Pinner as the Pinner that dnsd asks for: each Pin reads the clock once.
use llmbox.Prelude.{
  ℕ, ◌+◌, ◌≡◌, ◌≢◌, inl, inr, Bool, true, Option, none, ℤ, Str, str_eq, get, pair_eq,
}
use llmbox.Netip.{Addr, addr_eq}
use llmbox.Netfw.Firewall.{Programmer, Error}
use llmbox.Netfw.Pinner.{PinKey, PinState, IsBacked, pin}
use llmbox.Netfw.Pinner.Pinning.{Pinned, pin-Pinned, pin-IsBacked, pin_frame}
use llmbox.Dnsd.Server.{Pinner}

-- The Pinner's state, and how often its clock has been read.
pub record Clocked (P : Programmer) : Type 0 where
  pub readings : ℕ
  pub inner : PinState P

module _ (P : Programmer) (clock : ℕ → ℤ) where
  abbrev pin_now : Str → Addr → ℤ → Clocked P → Clocked P × Error
  pin_now box ip ttl c =
      let called = pin P (clock c.readings) box ip ttl c.inner in
      (record { readings = c.readings + 1; inner = called.0 }, called.1)

  -- The deadline and the firewall's entry.
  abbrev pub pin_row : Clocked P → PinKey → Option ℤ × Bool
  pin_row c k = (get k c.inner.pins, P.is_open c.inner.fw k)

  pub pin_now_opens :
      (box : Str) (ip : Addr) (ttl : ℤ) (c : Clocked P)
      → IsBacked P c.inner
      → (pin_now box ip ttl c).1 ≡ none
      → P.is_open (pin_now box ip ttl c).0.inner.fw (box, ip) ≡ true
  pin_now_opens box ip ttl c v done = opened (pin-Pinned P (clock c.readings) ttl box ip c.inner v)
    where
      opened :
          Pinned P
            (clock c.readings)
            ttl
            box
            ip
            c.inner
            (pin P (clock c.readings) box ip ttl c.inner)
          → P.is_open (pin_now box ip ttl c).0.inner.fw (box, ip) ≡ true
      opened (inl (_, _, open_now)) = open_now
      opened (inr (_, failed, _, _, _)) = cc

  pub pin_now_frame :
      (box : Str) (ip : Addr) (ttl : ℤ) (c : Clocked P) (k : PinKey)
      → k ≢ (box, ip)
      → pin_row (pin_now box ip ttl c).0 k ≡ pin_row c k
  pin_now_frame box ip ttl c k other =
      let (pins, fw) = pin_frame P (clock c.readings) ttl box ip c.inner k other in rw (pins, fw)

  abbrev pub netfw_pinner : Pinner
  netfw_pinner = record {
    State = Clocked P;
    pin = pin_now;
    Row = Option ℤ × Bool;
    row = pin_row;
    reachable = λ r. r.1;
    IsSound = λ c. IsBacked P c.inner;
    pin_opens = pin_now_opens;
    pin_frame = pin_now_frame;
    pin-IsSound = λ box ip ttl c v. pin-IsBacked P (clock c.readings) ttl box ip c.inner v;
  }
