-- ===== src/HttpUtil/Blocks.antt =====
-- The address blocks that the guard covers, as ranges of 32-bit numbers.
use pg_tide.Prelude.{
  ℕ, ◌+◌, ◌*◌, ◌≤◌, ◌<◌, ◌≡◌, refl, true, false, List, [], ◌∷◌, arith, All, ap, ◌||◌, ◌&&◌, ◌==◌,
  leb,
}
use pg_tide.HttpUtil.{
  Ipv4, Ipv6, v4, v6, is_forbidden_v4, is_forbidden_v6, is_forbidden_ip, embedded,
}

-- Each octet fits 8 bits.
abbrev pub IsOctets : Ipv4 → Type 0
IsOctets v = (v.a < 256) × (v.b < 256) × (v.c < 256) × (v.d < 256)

-- The address as a number, most significant octet first.
abbrev pub number : Ipv4 → ℕ
number v = v.a * 16777216 + v.b * 65536 + v.c * 256 + v.d

-- A CIDR block, as its first address and its number of addresses.
pub record Block : Type 0 where
  pub first : ℕ
  pub size : ℕ

abbrev pub block : ℕ → ℕ → ℕ → ℕ → ℕ → Block
block a b c d size = record { first = number (record { a = a; b = b; c = c; d = d }); size = size }

abbrev pub IsInBlock : Ipv4 → Block → Type 0
IsInBlock v k = (k.first ≤ number v) × (number v < k.first + k.size)

-- Loopback, this network, the three private ranges, link-local with the metadata address, shared
-- addresses, benchmarking, the three documentation ranges, and multicast with all above.
abbrev pub reserved : List Block
reserved =
    block 127 0 0 0 16777216
    ∷ block 0 0 0 0 16777216
    ∷ block 10 0 0 0 16777216
    ∷ block 172 16 0 0 1048576
    ∷ block 192 168 0 0 65536
    ∷ block 169 254 0 0 65536
    ∷ block 100 64 0 0 4194304
    ∷ block 198 18 0 0 131072
    ∷ block 192 0 2 0 256
    ∷ block 198 51 100 0 256
    ∷ block 203 0 113 0 256
    ∷ block 224 0 0 0 536870912
    ∷ []

-- Every IPv4 address, given by octets, of a reserved block is forbidden: loopback, this network, the
-- private ranges, link-local with the metadata address, shared addresses, benchmarking,
-- documentation, and multicast with all above it.
pub reserved_forbidden :
    (v : Ipv4) → IsOctets v → All (λ k. IsInBlock v k → is_forbidden_ip (v4 v) ≡ true) reserved
unfolding is_forbidden_ip is_forbidden_v4
reserved_forbidden v h = (
  (λ k. ground (arith, h, k)),
  (
    (λ k. ground (arith, h, k)),
    (
      (λ k. ground (arith, h, k)),
      (
        (λ k. ground (arith, h, k)),
        (
          (λ k. ground (arith, h, k)),
          (
            (λ k. ground (arith, h, k)),
            (
              (λ k. ground (arith, h, k)),
              (
                (λ k. ground (arith, h, k)),
                (
                  (λ k. ground (arith, h, k)),
                  (
                    (λ k. ground (arith, h, k)),
                    ((λ k. ground (arith, h, k)), ((λ k. ground (arith, h, k)), tt)),
                  ),
                ),
              ),
            ),
          ),
        ),
      ),
    ),
  ),
)

-- The IPv4-mapped form of an address, `::ffff:a.b.c.d`.
abbrev pub mapped : Ipv4 → Ipv6
mapped v = record {
  s0 = 0;
  s1 = 0;
  s2 = 0;
  s3 = 0;
  s4 = 0;
  s5 = 65535;
  s6 = v.a * 256 + v.b;
  s7 = v.c * 256 + v.d;
}

record_eq : (v w : Ipv4) → w.a ≡ v.a → w.b ≡ v.b → w.c ≡ v.c → w.d ≡ v.d → w ≡ v
record_eq v w ha hb hc hd = cc (ha, hb, hc, hd)

embedded-mapped : (v : Ipv4) → IsOctets v → embedded (mapped v) ≡ v
unfolding embedded
embedded-mapped v h =
    record_eq v _ (omega (arith, h)) (omega (arith, h)) (omega (arith, h)) (omega (arith, h))

-- No IPv4 address, given by octets, gets past the guard in its IPv4-mapped form: the guard decides
-- on it as on the address itself.
pub mapped_equal :
    (v : Ipv4) → IsOctets v → is_forbidden_ip (v6 (mapped v)) ≡ is_forbidden_ip (v4 v)
unfolding is_forbidden_ip is_forbidden_v6
mapped_equal v h = ap is_forbidden_v4 (embedded-mapped v h)

-- The blocks of which the guard forbids more than is reserved: 192.0.0.0/16, 192.2.0.0/16 and the
-- former relay range 192.88.99.0/24.
abbrev pub over_blocked : List Block
over_blocked = block 192 0 0 0 65536 ∷ block 192 2 0 0 65536 ∷ block 192 88 99 0 256 ∷ []

abbrev pub IsOutside : Ipv4 → List Block → Type 0
IsOutside v ks = All (λ k. IsInBlock v k → ⊥) ks

-- An IPv4 address, given by octets, is let through if it is outside the reserved blocks and outside
-- 192.0.0.0/16, 192.2.0.0/16 and 192.88.99.0/24.
pub outside_allowed :
    (v : Ipv4)
    → IsOctets v
    → IsOutside v reserved
    → IsOutside v over_blocked
    → is_forbidden_ip (v4 v) ≡ false
unfolding is_forbidden_ip is_forbidden_v4
outside_allowed v h k l =
    let e0 : (v.a == 127) ≡ false = ground (arith, h, k.0) in
    let e1 : (v.a == 0) ≡ false = ground (arith, h, k.1.0) in
    let e2 : (v.a == 10) ≡ false = ground (arith, h, k.1.1.0) in
    let e3 : (v.a == 172 && leb 16 v.b && leb v.b 31) ≡ false = ground (arith, h, k.1.1.1.0) in
    let e4 : (v.a == 192 && v.b == 168) ≡ false = ground (arith, h, k.1.1.1.1.0) in
    let e5 : (v.a == 169 && v.b == 254) ≡ false = ground (arith, h, k.1.1.1.1.1.0) in
    let e6 : (v.a == 100 && (leb 64 v.b && leb v.b 127)) ≡ false =
      ground (arith, h, k.1.1.1.1.1.1.0) in
    let e7 : (leb 224 v.a) ≡ false = ground (arith, h, k.1.1.1.1.1.1.1.1.1.1.1.0) in
    let e8 : (v.a == 255 && v.b == 255 && v.c == 255 && v.d == 255) ≡ false =
      ground (arith, h, k.1.1.1.1.1.1.1.1.1.1.1.0) in
    let e9 : (v.a == 0 && v.b == 0 && v.c == 0 && v.d == 0) ≡ false = ground (arith, h, k.1.0) in
    let e10 : (v.a == 198 && (v.b == 18 || v.b == 19 || (v.b == 51 && v.c == 100))) ≡ false =
      ground (arith, h, k.1.1.1.1.1.1.1.0, k.1.1.1.1.1.1.1.1.1.0) in
    let e11 : (v.a == 203 && v.b == 0 && v.c == 113) ≡ false =
      ground (arith, h, k.1.1.1.1.1.1.1.1.1.1.0) in
    let e12 : (v.a == 192 && (v.b == 0 || v.b == 2 || (v.b == 88 && v.c == 99))) ≡ false =
      ground (arith, h, l.0, l.1.0, l.1.1.0) in
    rw (e9, e8, e10, e11, e12, e3, e4, e5, e6, e0, e1, e2, e7) refl
