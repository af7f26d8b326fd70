-- ===== src/HttpUtil/Examples.antt =====
-- A private address, the metadata address in its mapped form, and a public address.
use pg_tide.Prelude.{◌≡◌, true, false, arith, All}
use pg_tide.HttpUtil.{Ipv4, v4, v6, is_forbidden_ip}
use pg_tide.HttpUtil.Blocks.{
  IsInBlock, reserved, reserved_forbidden, mapped, mapped_equal, outside_allowed,
}

abbrev private : Ipv4
private = record { a = 172; b = 31; c = 255; d = 255 }

abbrev metadata : Ipv4
metadata = record { a = 169; b = 254; c = 169; d = 254 }

abbrev public : Ipv4
public = record { a = 93; b = 184; c = 216; d = 34 }

reserved_forbidden_example :
    All (λ k. IsInBlock private k → is_forbidden_ip (v4 private) ≡ true) reserved
reserved_forbidden_example = reserved_forbidden private (omega arith)

mapped_equal_example : is_forbidden_ip (v6 (mapped metadata)) ≡ is_forbidden_ip (v4 metadata)
mapped_equal_example = mapped_equal metadata (omega arith)

outside_allowed_example : is_forbidden_ip (v4 public) ≡ false
outside_allowed_example = outside_allowed public (omega arith) (ground arith) (ground arith)
