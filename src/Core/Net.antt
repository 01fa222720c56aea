-- ===== src/Core/Net.antt =====
-- crates/pluribus-core/src/net.rs: which addresses are on the public internet. An IPv4 address is
-- its four octets, an IPv6 address its eight segments; `x & 0xfe00` on 16 bits clears the low bits.
pub mod Ranges
mod Tests
use pluribus.Base.{
  ℕ, ◌*◌, ◌/◌, ◌%◌, Bool, true, false, not, ◌&&◌, ◌||◌, Option, none, some, eqb, leb, if◌then◌else◌,
}

pub record Ipv4Addr : Type 0 where
  pub a : ℕ
  pub b : ℕ
  pub c : ℕ
  pub d : ℕ

pub record Ipv6Addr : Type 0 where
  pub s0 : ℕ
  pub s1 : ℕ
  pub s2 : ℕ
  pub s3 : ℕ
  pub s4 : ℕ
  pub s5 : ℕ
  pub s6 : ℕ
  pub s7 : ℕ

pub data IpAddr : Type 0 where
  v4 : Ipv4Addr → IpAddr
  v6 : Ipv6Addr → IpAddr

-- `Ipv4Addr::is_private`
abbrev is_private : Ipv4Addr → Bool
is_private x =
    eqb x.a 10 || (eqb x.a 172 && leb 16 x.b && leb x.b 31) || (eqb x.a 192 && eqb x.b 168)

pub is_public_v4 : Ipv4Addr → Bool
is_public_v4 x = not (
    is_private x
    || eqb x.a 127
    || (eqb x.a 169 && eqb x.b 254)
    || (leb 224 x.a && leb x.a 239)
    || (eqb x.a 0 && eqb x.b 0 && eqb x.c 0 && eqb x.d 0)
    || (eqb x.a 255 && eqb x.b 255 && eqb x.c 255 && eqb x.d 255)
    || eqb x.a 0
    || leb 240 x.a
    || (eqb x.a 100 && leb 64 x.b && leb x.b 127)
    || (eqb x.a 192 && eqb x.b 0 && eqb x.c 0)
    || (eqb x.a 192 && eqb x.b 0 && eqb x.c 2)
    || (eqb x.a 198 && (eqb x.b 18 || eqb x.b 19))
    || (eqb x.a 198 && eqb x.b 51 && eqb x.c 100)
    || (eqb x.a 203 && eqb x.b 0 && eqb x.c 113))

-- `Ipv6Addr::to_ipv4_mapped`
abbrev pub to_ipv4_mapped : Ipv6Addr → Option Ipv4Addr
to_ipv4_mapped x =
    if eqb x.s0 0 && eqb x.s1 0 && eqb x.s2 0 && eqb x.s3 0 && eqb x.s4 0 && eqb x.s5 65535
    then some (record { a = x.s6 / 256; b = x.s6 % 256; c = x.s7 / 256; d = x.s7 % 256 })
    else none

-- `is_loopback` and `is_unspecified` are the addresses 1 and 0; `is_multicast` is a first byte 0xff.
is_local_v6 : Ipv6Addr → Bool
is_local_v6 x =
    (eqb x.s0 0
      && eqb x.s1 0
      && eqb x.s2 0
      && eqb x.s3 0
      && eqb x.s4 0
      && eqb x.s5 0
      && eqb x.s6 0
      && leb x.s7 1)
    || eqb (x.s0 / 256) 255
    || eqb (x.s0 / 512 * 512) 64512
    || eqb (x.s0 / 64 * 64) 65152
    || (eqb x.s0 8193 && eqb x.s1 3512)

pub is_public_v6 : Ipv6Addr → Bool
is_public_v6 x = elim (to_ipv4_mapped x) [
  | some mapped ↦ is_public_v4 mapped
  | none ↦ not (is_local_v6 x)
]

pub is_public_address : IpAddr → Bool
is_public_address (v4 x) = is_public_v4 x
is_public_address (v6 x) = is_public_v6 x
