-- ===== src/Core/Net/Tests.antt =====
-- Runs of the address policy.
use pluribus.Base.{◌≡◌, ◌↔◌, refl, true, false, arith}
use pluribus.Core.Net.{Ipv4Addr, Ipv6Addr, v4, v6, is_public_v4, is_public_address}
use pluribus.Core.Net.Ranges.{
  IsAddress, IsReserved, IsReserved6, is_public_v4_iff, is_public_v6_iff,
}

abbrev metadata_service : Ipv4Addr
metadata_service = record { a = 169; b = 254; c = 169; d = 254 }

is_address : IsAddress metadata_service
is_address = record { a = omega arith; b = omega arith; c = omega arith; d = omega arith }

metadata_service_local : is_public_address (v4 metadata_service) ≡ false
unfolding is_public_address is_public_v4
metadata_service_local = refl

is_public_v4_iff_example : (is_public_v4 metadata_service ≡ true) ↔ (¬ IsReserved metadata_service)
is_public_v4_iff_example = is_public_v4_iff metadata_service is_address

abbrev resolver : Ipv6Addr
resolver = record { s0 = 9734; s1 = 18176; s2 = 18176; s3 = 0; s4 = 0; s5 = 0; s6 = 0; s7 = 4369 }

is_public_v6_iff_example : (is_public_address (v6 resolver) ≡ true) ↔ (¬ IsReserved6 resolver)
is_public_v6_iff_example = is_public_v6_iff resolver (omega arith) refl
