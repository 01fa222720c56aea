-- ===== src/Core/Net/Ranges.antt =====
-- The address policy against a table of ranges.
use pluribus.Base.{ℕ, ◌+◌, ◌*◌, ◌≤◌, ◌<◌, ◌≡◌, ◌↔◌, ◌⊎◌, true, arith, some, none}
use pluribus.Core.Net.{
  Ipv4Addr, Ipv6Addr, v4, v6, is_public_v4, is_public_v6, is_local_v6, to_ipv4_mapped,
  is_public_address,
}

-- The address as one number.
abbrev pub value : Ipv4Addr → ℕ
value x = x.a * 16777216 + x.b * 65536 + x.c * 256 + x.d

pub record IsAddress (x : Ipv4Addr) : Type 0 where
  pub a : x.a < 256
  pub b : x.b < 256
  pub c : x.c < 256
  pub d : x.d < 256

-- The address lies in the block of `size` addresses from `a.b.c.0` on.
abbrev pub InBlock : ℕ → ℕ → ℕ → ℕ → Ipv4Addr → Type 0
InBlock size a b c x =
    (a * 16777216 + b * 65536 + c * 256 ≤ value x)
    × (value x < a * 16777216 + b * 65536 + c * 256 + size)

-- The blocks that are not on the public internet, by size and first address.
abbrev pub IsReserved : Ipv4Addr → Type 0
IsReserved x =
    InBlock 16777216 0 0 0 x
    ⊎ InBlock 16777216 10 0 0 x
    ⊎ InBlock 4194304 100 64 0 x
    ⊎ InBlock 16777216 127 0 0 x
    ⊎ InBlock 65536 169 254 0 x
    ⊎ InBlock 1048576 172 16 0 x
    ⊎ InBlock 256 192 0 0 x
    ⊎ InBlock 256 192 0 2 x
    ⊎ InBlock 65536 192 168 0 x
    ⊎ InBlock 131072 198 18 0 x
    ⊎ InBlock 256 198 51 100 x
    ⊎ InBlock 256 203 0 113 x
    ⊎ InBlock 536870912 224 0 0 x

-- An IPv4 address of four octets is public exactly when it lies in none of the reserved blocks.
pub is_public_v4_iff : (x : Ipv4Addr) → IsAddress x → (is_public_v4 x ≡ true) ↔ (¬ IsReserved x)
unfolding is_public_v4
is_public_v4_iff x h = ground (arith, h.a, h.b, h.c, h.d)

-- The IPv6 address `::ffff:a.b.c.d`.
abbrev pub mapped : Ipv4Addr → Ipv6Addr
mapped x = record {
  s0 = 0;
  s1 = 0;
  s2 = 0;
  s3 = 0;
  s4 = 0;
  s5 = 65535;
  s6 = x.a * 256 + x.b;
  s7 = x.c * 256 + x.d;
}

unmapped : (x : Ipv4Addr) → IsAddress x → to_ipv4_mapped (mapped x) ≡ some x
unmapped x h = ground (arith, h.a, h.b, h.c, h.d)

-- An IPv4 address gets the same answer in its IPv6 form, so the form is no way around the policy.
pub is_public_address-mapped :
    (x : Ipv4Addr) → IsAddress x → is_public_address (v6 (mapped x)) ≡ is_public_address (v4 x)
unfolding is_public_address is_public_v6
is_public_address-mapped x h = ground (arith, unmapped x h)

-- The IPv6 ranges that are not public: the unspecified address and loopback, unique local, link
-- local and multicast addresses, and the documentation block 2001:db8::/32.
abbrev pub IsReserved6 : Ipv6Addr → Type 0
IsReserved6 x =
    ((x.s0 ≡ 0)
      × (x.s1 ≡ 0)
      × (x.s2 ≡ 0)
      × (x.s3 ≡ 0)
      × (x.s4 ≡ 0)
      × (x.s5 ≡ 0)
      × (x.s6 ≡ 0)
      × (x.s7 ≤ 1))
    ⊎ ((64512 ≤ x.s0) × (x.s0 ≤ 65023))
    ⊎ ((65152 ≤ x.s0) × (x.s0 ≤ 65215))
    ⊎ (65280 ≤ x.s0)
    ⊎ ((x.s0 ≡ 8193) × (x.s1 ≡ 3512))

-- An IPv6 address of 16-bit segments that maps no IPv4 address is public exactly when it lies in
-- none of: `::/127`, `fc00::/7`, `fe80::/10`, `ff00::/8` and `2001:db8::/32`. The benchmarking block
-- `2001:2::/48` and the documentation block `3fff::/20` are thus public.
pub is_public_v6_iff :
    (x : Ipv6Addr)
    → x.s0 < 65536
    → to_ipv4_mapped x ≡ none
    → (is_public_address (v6 x) ≡ true) ↔ (¬ IsReserved6 x)
unfolding is_public_address is_public_v6 is_local_v6
is_public_v6_iff x h m = ground arith
