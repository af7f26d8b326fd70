-- ===== src/HttpUtil.antt =====
-- pg-tide-relay/src/http_util.rs, `is_forbidden_ip`: the addresses that a sink's endpoint may not
-- have. The tests of the standard library's `Ipv4Addr` and `Ipv6Addr` are written out.
pub mod Blocks
mod Examples
use pg_tide.Prelude.{ℕ, ◌/◌, ◌%◌, Bool, true, false, ◌&&◌, ◌||◌, ◌==◌, leb}

pub record Ipv4 : Type 0 where
  pub a : ℕ  -- the octets
  pub b : ℕ
  pub c : ℕ
  pub d : ℕ

pub record Ipv6 : Type 0 where
  pub s0 : ℕ  -- the segments
  pub s1 : ℕ
  pub s2 : ℕ
  pub s3 : ℕ
  pub s4 : ℕ
  pub s5 : ℕ
  pub s6 : ℕ
  pub s7 : ℕ

pub data IpAddr : Type 0 where
  v4 : Ipv4 → IpAddr
  v6 : Ipv6 → IpAddr

is_loopback : Ipv4 → Bool
is_loopback v = v.a == 127

is_unspecified : Ipv4 → Bool
is_unspecified v = v.a == 0 && v.b == 0 && v.c == 0 && v.d == 0

is_private : Ipv4 → Bool
is_private v = v.a == 10 || (v.a == 172 && leb 16 v.b && leb v.b 31) || (v.a == 192 && v.b == 168)

is_link_local : Ipv4 → Bool
is_link_local v = v.a == 169 && v.b == 254

is_broadcast : Ipv4 → Bool
is_broadcast v = v.a == 255 && v.b == 255 && v.c == 255 && v.d == 255

-- The arm of `IpAddr::V4`.
unfoldable pub is_forbidden_v4 : Ipv4 → Bool
unfolding is_loopback is_unspecified is_private is_link_local is_broadcast
is_forbidden_v4 v =
    is_loopback v
    || is_unspecified v
    || is_private v
    || is_link_local v
    || is_broadcast v
    || v.a == 0
    || (v.a == 100 && (leb 64 v.b && leb v.b 127))
    || (v.a == 169 && v.b == 254)
    || (v.a == 192 && (v.b == 0 || v.b == 2 || (v.b == 88 && v.c == 99)))
    || (v.a == 198 && (v.b == 18 || v.b == 19 || (v.b == 51 && v.c == 100)))
    || (v.a == 203 && v.b == 0 && v.c == 113)
    || leb 224 v.a

-- The first five segments are 0.
zeros : Ipv6 → Bool
zeros v = v.s0 == 0 && v.s1 == 0 && v.s2 == 0 && v.s3 == 0 && v.s4 == 0

-- `::1` and `::`.
is_loopback_v6 : Ipv6 → Bool
unfolding zeros
is_loopback_v6 v = zeros v && v.s5 == 0 && v.s6 == 0 && v.s7 == 1

is_unspecified_v6 : Ipv6 → Bool
unfolding zeros
is_unspecified_v6 v = zeros v && v.s5 == 0 && v.s6 == 0 && v.s7 == 0

-- `segments[0] & 0xff00 == 0xff00`, on 16 bits.
is_multicast : Ipv6 → Bool
is_multicast v = v.s0 / 256 == 255

-- `segments[0] & 0xffc0 == 0xfe80`, on 16 bits.
is_unicast_link_local : Ipv6 → Bool
is_unicast_link_local v = v.s0 / 64 == 1018

-- The octets of the last two segments.
unfoldable pub embedded : Ipv6 → Ipv4
embedded v = record { a = v.s6 / 256 % 256; b = v.s6 % 256; c = v.s7 / 256 % 256; d = v.s7 % 256 }

-- The arm of `IpAddr::V6`; `segments[0] & 0xfe00 == 0xfc00` is the test on the upper seven bits.
unfoldable pub is_forbidden_v6 : Ipv6 → Bool
unfolding zeros is_loopback_v6 is_unspecified_v6 is_multicast is_unicast_link_local embedded
    is_forbidden_v4
is_forbidden_v6 v =
    is_loopback_v6 v
    || is_unspecified_v6 v
    || is_multicast v
    || is_unicast_link_local v
    || v.s0 / 512 == 126
    || (v.s0 == 8193 && v.s1 == 3512)
    || ((zeros v && v.s5 == 65535) && is_forbidden_v4 (embedded v))

unfoldable pub is_forbidden_ip : IpAddr → Bool
unfolding is_forbidden_v4 is_forbidden_v6
is_forbidden_ip (v4 v) = is_forbidden_v4 v
is_forbidden_ip (v6 v) = is_forbidden_v6 v
