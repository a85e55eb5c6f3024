-- ===== src/Netip.antt =====
-- The parts of Go's package net/netip that the source uses: addresses without zones.
use llmbox.Prelude.{
  ℕ, suc, ◌+◌, ◌*◌, ◌/◌, ◌%◌, ◌^◌, ◌≡◌, ◌↔◌, Bool, true, false, ◌&&◌, ◌||◌, Option, none, some,
  List, [], ◌∷◌, arith, ltb, nat_beq, if◌then◌else◌, Eq,
}

-- The zero `netip.Addr`, and the numbers that the 4 or 16 bytes of an address spell.
pub data Addr : Type 0 where
  invalid : Addr
  ip4 : ℕ → Addr
  ip6 : ℕ → Addr

abbrev addr_beq : Addr → Addr → Bool
addr_beq invalid invalid = true
addr_beq (ip4 a) (ip4 b) = nat_beq a b
addr_beq (ip6 a) (ip6 b) = nat_beq a b
addr_beq _ _ = false

pub addr_beq_iff : (a b : Addr) → (addr_beq a b ≡ true) ↔ (a ≡ b)
addr_beq_iff invalid b = ground arith
addr_beq_iff (ip4 a) b = ground arith
addr_beq_iff (ip6 a) b = ground arith

instance abbrev pub addr_eq : Eq Addr
addr_eq = record { beq = addr_beq; beq_iff = addr_beq_iff }

abbrev bit_len : Addr → ℕ
bit_len invalid = 0
bit_len (ip4 _) = 32
bit_len (ip6 _) = 128

abbrev number : Addr → ℕ
number invalid = 0
number (ip4 n) = n
number (ip6 n) = n

-- `a.Less(b)`: by length, then by number.
pub addr_less : Addr → Addr → Bool
addr_less a b =
    ltb (bit_len a) (bit_len b) || nat_beq (bit_len a) (bit_len b) && ltb (number a) (number b)

-- `a.Unmap()`: an address in ::ffff:0:0/96 as the IPv4 address that it wraps.
unfoldable pub unmap : Addr → Addr
unmap (ip6 n) = if nat_beq (n / 2 ^ 32) 0xffff then ip4 (n % 2 ^ 32) else ip6 n
unmap a = a

big_endian : ℕ → List ℕ → ℕ
big_endian acc [] = acc
big_endian acc (b ∷ bs) = big_endian (acc * 256 + b) bs

count_bytes : List ℕ → ℕ
count_bytes [] = 0
count_bytes (b ∷ bs) = suc (count_bytes bs)

-- `netip.AddrFromSlice`: 4 or 16 bytes, or nothing.
unfoldable pub addr_from_slice : List ℕ → Option Addr
unfolding big_endian count_bytes
addr_from_slice bs =
    if nat_beq (count_bytes bs) 4
    then some (ip4 (big_endian 0 bs))
    else if nat_beq (count_bytes bs) 16
    then some (ip6 (big_endian 0 bs))
    else none
