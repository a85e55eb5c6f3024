-- ===== src/Netfw/Pinner.antt =====
-- internal/spoke/netfw/netfw.go, `Pinner`: the open addresses and their deadlines.
pub mod Pinning
pub mod Sweeping
pub mod Running
pub mod Races
use llmbox.Prelude.{
  ◌≡◌, Bool, true, false, not, Option, none, some, List, [], ◌∷◌, ℤ, ◌+ℤ◌, after, if◌then◌else◌,
  Str, str_eq, str_le, ◌==◌, Table, get, put, del, keep, keys, sort, pair_eq, HasDistinctKeys,
}
use llmbox.Netip.{Addr, addr_eq, addr_less}
use llmbox.Netfw.Firewall.{Programmer, Error}

-- `pinKey`.
abbrev pub PinKey : Type 0
PinKey = Str × Addr

-- The order in which Sweep revokes: `sort.Slice`'s less function, and the order that it gives.
key_less : PinKey → PinKey → Bool
key_less (b, i) (c, j) = if b == c then addr_less i j else not (str_le c b)

unfoldable pub key_le : PinKey → PinKey → Bool
unfolding key_less
key_le k l = not (key_less l k)

-- The Pinner's map and the firewall that it drives. The clock is an argument of each call.
pub record PinState (P : Programmer) : Type 0 where
  pub pins : Table PinKey ℤ
  pub fw : P.State

abbrev is_some {ℓ} : {A : Type ℓ} → Option A → Bool
is_some none = false
is_some (some _) = true

-- `err != nil && firstErr == nil`.
abbrev first_error : Error → Error → Error
first_error none e = e
first_error (some e) _ = some e

-- The loop of `delete(p.pins, k)`.
unfoldable pub del_all : List PinKey → Table PinKey ℤ → Table PinKey ℤ
del_all [] m = m
del_all (k ∷ ks) m = del_all ks (del k m)

module _ (P : Programmer) where
  -- Pin, first locked section: whether the pin was there, and its new deadline.
  pin_mark : ℤ → Str → Addr → ℤ → PinState P → PinState P × Bool
  pin_mark now box ip ttl s =
      let deadline = now +ℤ ttl in
      let exists = is_some (get (box, ip) s.pins) in
      (record s { pins = put (box, ip) deadline s.pins }, exists)

  -- Pin, second locked section, after a failed Allow.
  pin_rollback : Str → Addr → PinState P → PinState P
  pin_rollback box ip s = record s { pins = del (box, ip) s.pins }

  -- Pin, from the call of Allow on: the bookkeeping is undone if it fails.
  pin_open : Str → Addr → PinState P → PinState P × Error
  unfolding pin_rollback
  pin_open box ip s =
      let called = P.allow box ip s.fw in
      let opened = record s { fw = called.0 } in
      elim called.1 [ none ↦ (opened, none) | some e ↦ (pin_rollback box ip opened, some e) ]

  unfoldable pub pin : ℤ → Str → Addr → ℤ → PinState P → PinState P × Error
  unfolding pin_mark pin_open
  pin now box ip ttl s =
      let (marked, exists) = pin_mark now box ip ttl s in
      if exists then (marked, none) else pin_open box ip marked

  -- The keys that Sweep finds expired, sorted.
  unfoldable pub expired : ℤ → PinState P → List PinKey
  expired now s = sort key_le (keys (keep (λ _ deadline. not (after deadline now)) s.pins))

  -- Sweep, its locked section: the expired pins are forgotten, and listed.
  unfoldable pub sweep_collect : ℤ → PinState P → PinState P × List PinKey
  unfolding expired del_all
  sweep_collect now s = let ks = expired now s in (record s { pins = del_all ks s.pins }, ks)

  -- Sweep, the rest: every listed pin is revoked, and the first error is kept.
  pub revoke_all : List PinKey → Error → P.State → P.State × Error
  revoke_all [] e fw = (fw, e)
  revoke_all ((box, ip) ∷ ks) e fw =
      let called = P.revoke box ip fw in revoke_all ks (first_error e called.1) called.0

  unfoldable pub sweep_revoke : List PinKey → PinState P → PinState P × Error
  unfolding revoke_all
  sweep_revoke ks s = let called = revoke_all ks none s.fw in (record s { fw = called.0 }, called.1)

  unfoldable pub sweep : ℤ → PinState P → PinState P × Error
  unfolding sweep_collect sweep_revoke
  sweep now s = let (left, ks) = sweep_collect now s in sweep_revoke ks left

  unfoldable pub forget : Str → PinState P → PinState P
  forget box s = record s { pins = keep (λ k _. not (k.0 == box)) s.pins }

  -- `Run`: one Sweep for each tick; its errors go to the callback, in order.
  unfoldable pub run : List ℤ → PinState P → PinState P × List Str
  unfolding sweep
  run [] s = (s, [])
  run (now ∷ ticks) s =
      let (swept, e) = sweep now s in
      let (final, errors) = run ticks swept in
      (final, elim e [ none ↦ errors | some err ↦ err ∷ errors ])

  -- What is pinned is open: the promise on which dnsd hands out an answer.
  pub record IsBacked (s : PinState P) : Type 0 where
    pub distinct : HasDistinctKeys s.pins
    pub backed : (k : PinKey) (d : ℤ) → get k s.pins ≡ some d → P.is_open s.fw k ≡ true
