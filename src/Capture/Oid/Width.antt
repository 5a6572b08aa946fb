-- ===== src/Capture/Oid/Width.antt =====
-- Which payloads `decodeBinary` takes: the widths of PostgreSQL's binary formats.
use tenantguard.Base.{
  Bool, Option, arith, false, if◌then◌else◌, length, none, some, true, ℕ, ◌==◌, ◌||◌, ◌≡◌,
}
use tenantguard.Base.Bytes.{Bytes}
use tenantguard.Capture.Oid.{Rendering, decode_binary}

pub data Width : Type 0 where
  fixed : ℕ → Width
  any unsupported : Width

-- The width of each decodable type, as PostgreSQL documents its send functions.
unfoldable pub width_of : ℕ → Width
width_of oid =
    if oid == 16
    then fixed 1
    else if oid == 21
    then fixed 2
    else if oid == 23 || oid == 26 || oid == 700 || oid == 1082
    then fixed 4
    else if oid == 20 || oid == 701 || oid == 1114 || oid == 1184
    then fixed 8
    else if oid == 2950
    then fixed 16
    else if oid == 17 || oid == 19 || oid == 25 || oid == 1042 || oid == 1043
    then any
    else unsupported

unfoldable pub takes : Width → ℕ → Bool
takes (fixed w) n = n == w
takes any n = true
takes unsupported n = false

abbrev pub is_some : Option Bytes → Bool
is_some none = false
is_some (some _) = true

-- A payload is decoded exactly when its type is supported and it has the width of the type.
pub is_some-decode_binary :
    (r : Rendering) (oid : ℕ) (b : Bytes)
    → is_some (decode_binary r oid b) ≡ takes (width_of oid) (length b)
unfolding decode_binary width_of takes
is_some-decode_binary r oid b = ground arith
