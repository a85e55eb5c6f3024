-- ===== src/Netfw/Pinner/Pinning.antt =====
-- `Pin`: what it records, what it opens, and when it fails.
use llmbox.Prelude.{
  ◌≡◌, ◌≢◌, refl, ◌⊎◌, inl, inr, true, none, some, arith, ℤ, ◌+ℤ◌, ◌<ℤ◌, Str, beq_refl, Bool-cases,
  Option-cases, str_eq, ◌==◌, Table, get, put, del, get-put, get-del, pair_eq, pair_beq_iff,
  HasDistinctKeys, put-HasDistinctKeys, del-HasDistinctKeys,
}
use llmbox.Netip.{Addr, addr_eq}
use llmbox.Netfw.Firewall.{Programmer, Error}
use llmbox.Netfw.Pinner.{PinKey, PinState, IsBacked, pin}

module _ (P : Programmer) (now ttl : ℤ) (box : Str) (ip : Addr) (s : PinState P) where
  abbrev marked_pins : Table PinKey ℤ
  marked_pins = put (box, ip) (now +ℤ ttl) s.pins

  abbrev opening : P.State × Error
  opening = P.allow box ip s.fw

  -- The three ways through `Pin`, each with the state that it leaves.
  pin_cases :
      ((d : ℤ) × (get (box, ip) s.pins ≡ some d)
        × (pin P now box ip ttl s ≡ (record { pins = marked_pins; fw = s.fw }, none)))
      ⊎ ((get (box, ip) s.pins ≡ none)
          × (opening.1 ≡ none)
          × (pin P now box ip ttl s ≡ (record { pins = marked_pins; fw = opening.0 }, none)))
      ⊎ ((e : Str) × (get (box, ip) s.pins ≡ none)
          × (opening.1 ≡ some e)
          × (pin P now box ip ttl s
              ≡ (record { pins = del (box, ip) marked_pins; fw = opening.0 }, some e)))
  unfolding pin
  pin_cases = elim (Option-cases (get (box, ip) s.pins)) [
    | inr (d, found) ↦ inl (d, found, ground arith)
    | inl absent ↦ elim (Option-cases opening.1) [
      | inl opened ↦ inr (inl (absent, opened, ground arith))
      | inr (e, failed) ↦ inr (inr (e, absent, failed, ground arith))
    ]
  ]

  -- The pin is recorded and open, or nothing is recorded and the error was the firewall's.
  abbrev pub Pinned : PinState P × Error → Type 0
  Pinned r =
      ((r.1 ≡ none)
        × (get (box, ip) r.0.pins ≡ some (now +ℤ ttl))
        × (P.is_open r.0.fw (box, ip) ≡ true))
      ⊎ ((e : Str) × (r.1 ≡ some e)
          × (opening.1 ≡ some e)
          × (get (box, ip) s.pins ≡ none)
          × (get (box, ip) r.0.pins ≡ none))

  get-marked : get (box, ip) marked_pins ≡ some (now +ℤ ttl)
  get-marked = rw (get-put, beq_refl {A = PinKey} (box, ip))

  get-undone : get (box, ip) (del (box, ip) marked_pins) ≡ none
  get-undone = rw (get-del, beq_refl {A = PinKey} (box, ip))

  -- From a state whose pins are backed, Pin either returns nil, with the deadline recorded and
  -- the address open, or returns the firewall's error for an address that was not pinned before
  -- and is not pinned after.
  pub pin-Pinned : IsBacked P s → Pinned (pin P now box ip ttl s)
  pin-Pinned v = elim pin_cases [
    | inl (d, found, e) ↦ rw e (inl (refl, get-marked, v.backed (box, ip) d found))
    | inr (inl (absent, opened, e)) ↦
        rw e (inl (refl, get-marked, P.allow_opens box ip s.fw opened))
    | inr (inr (err, absent, failed, e)) ↦ rw e (inr (err, refl, failed, absent, get-undone))
  ]

  -- A call that returns nil has recorded its deadline.
  pub get-pin :
      (pin P now box ip ttl s).1 ≡ none
      → get (box, ip) (pin P now box ip ttl s).0.pins ≡ some (now +ℤ ttl)
  get-pin done = elim pin_cases [
    | inl (_, _, e) ↦ rw e get-marked
    | inr (inl (_, _, e)) ↦ rw e get-marked
    | inr (inr (err, _, _, e)) ↦ cc (rw e at done)
  ]

  module _ (k : PinKey) (other : k ≢ (box, ip)) where
    get-marked_other : get k marked_pins ≡ get k s.pins
    get-marked_other =
        ground (arith, get-put (box, ip) k (now +ℤ ttl) s.pins, pair_beq_iff (box, ip) k)

    -- No other pin and no other address changes.
    pub pin_frame :
        (get k (pin P now box ip ttl s).0.pins ≡ get k s.pins)
        × (P.is_open (pin P now box ip ttl s).0.fw k ≡ P.is_open s.fw k)
    pin_frame = elim pin_cases [
      | inl (d, found, e) ↦ rw e (get-marked_other, refl)
      | inr (inl (absent, opened, e)) ↦ rw e (get-marked_other, P.allow_frame box ip s.fw k other)
      | inr (inr (err, absent, failed, e)) ↦ rw e (
        ground (arith, get-del (box, ip) k marked_pins, pair_beq_iff (box, ip) k, get-marked_other),
        P.allow_frame box ip s.fw k other,
      )
    ]

  -- A refresh moves the deadline, also to an earlier time.
  pin_may_shorten :
      (d : ℤ)
      → get (box, ip) s.pins ≡ some d
      → now +ℤ ttl <ℤ d
      → (d' : ℤ) × (get (box, ip) (pin P now box ip ttl s).0.pins ≡ some d') × (d' <ℤ d)
  pin_may_shorten d found earlier = elim pin_cases [
    | inl (_, _, e) ↦ (now +ℤ ttl, rw e get-marked, earlier)
    | inr (inl (absent, _, _)) ↦ cc
    | inr (inr (_, absent, _, _)) ↦ cc
  ]

  pin-distinct : HasDistinctKeys s.pins → HasDistinctKeys (pin P now box ip ttl s).0.pins
  pin-distinct h = elim pin_cases [
    | inl (d, found, e) ↦ rw e (put-HasDistinctKeys (box, ip) (now +ℤ ttl) s.pins h)
    | inr (inl (absent, opened, e)) ↦ rw e (put-HasDistinctKeys (box, ip) (now +ℤ ttl) s.pins h)
    | inr (inr (err, absent, failed, e)) ↦ rw e (
        del-HasDistinctKeys (box, ip) marked_pins
          (put-HasDistinctKeys (box, ip) (now +ℤ ttl) s.pins h))
  ]

  Pinned-open :
      (d : ℤ)
      → Pinned (pin P now box ip ttl s)
      → get (box, ip) (pin P now box ip ttl s).0.pins ≡ some d
      → P.is_open (pin P now box ip ttl s).0.fw (box, ip) ≡ true
  Pinned-open d (inl (_, _, opened)) h = opened
  Pinned-open d (inr (_, _, _, _, gone)) h = cc

  -- Pin keeps every pin backed by an open address, whether it fails or not.
  pub pin-IsBacked : IsBacked P s → IsBacked P (pin P now box ip ttl s).0
  pin-IsBacked v = record {
    distinct = pin-distinct v.distinct;
    backed = λ k d h. elim (Bool-cases (k == (box, ip))) [
      | inl same ↦
          let e : k ≡ (box, ip) = (pair_beq_iff k (box, ip)).0 same in
          rw e (Pinned-open d (pin-Pinned v) (rw e at h))
      | inr differs ↦
          let other : k ≢ (box, ip) = λ e. cc ((pair_beq_iff k (box, ip)).1 e) in
          let (pins, open_same) = pin_frame k other in rw open_same (v.backed k d (rw pins at h))
    ];
  }
