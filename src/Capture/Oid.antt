-- ===== src/Capture/Oid.antt =====
-- internal/capture/oid.go: `decodeBinary`. The shortest decimal rendering of floats and the calendar
-- rendering of dates and timestamps (strconv.FormatFloat, time.Time.Format) are a parameter.
pub mod Decimal
pub mod Width
use tenantguard.Base.{
  Option, [], drop, if◌then◌else◌, length, ltb, none, some, take, ℕ, ◌%◌, ◌*◌, ◌++◌, ◌+◌, ◌/◌, ◌==◌,
  ◌||◌, ◌∷◌,
}
use tenantguard.Base.Bytes.{Bytes, codes}
use tenantguard.Capture.Oid.Decimal.{format_int, format_uint}

pub record Rendering : Type 0 where
  pub float4 : ℕ → Bytes
  pub float8 : ℕ → Bytes
  -- days, as the bit pattern of an int32, since 2000-01-01
  pub date : ℕ → Bytes
  -- microseconds, as the bit pattern of an int64, since 2000-01-01
  pub timestamp : ℕ → Bytes

abbrev pub oid_bool : ℕ
oid_bool = 16

abbrev pub oid_bytea : ℕ
oid_bytea = 17

abbrev pub oid_name : ℕ
oid_name = 19

abbrev pub oid_int8 : ℕ
oid_int8 = 20

abbrev pub oid_int2 : ℕ
oid_int2 = 21

abbrev pub oid_int4 : ℕ
oid_int4 = 23

abbrev pub oid_text : ℕ
oid_text = 25

abbrev pub oid_oid : ℕ
oid_oid = 26

abbrev pub oid_float4 : ℕ
oid_float4 = 700

abbrev pub oid_float8 : ℕ
oid_float8 = 701

abbrev pub oid_bp_char : ℕ
oid_bp_char = 1042

abbrev pub oid_varchar : ℕ
oid_varchar = 1043

abbrev pub oid_date : ℕ
oid_date = 1082

abbrev pub oid_timestamp : ℕ
oid_timestamp = 1114

abbrev pub oid_timestamp_tz : ℕ
oid_timestamp_tz = 1184

abbrev pub oid_uuid : ℕ
oid_uuid = 2950

-- binary.BigEndian on the whole slice
unfoldable pub big_endian : ℕ → Bytes → ℕ
big_endian acc [] = acc
big_endian acc (b ∷ bs) = big_endian (acc * 256 + b) bs

abbrev pub hex_digit : ℕ → ℕ
hex_digit n = if ltb n 10 then 48 + n else 87 + n

-- %x
unfoldable pub hex : Bytes → Bytes
hex [] = []
hex (b ∷ bs) = hex_digit (b / 16) ∷ hex_digit (b % 16) ∷ hex bs

unfoldable pub uuid_text : Bytes → Bytes
unfolding hex
uuid_text b =
    hex (take 4 b)
    ++ (b'-' ∷ hex (take 2 (drop 4 b))
        ++ (b'-' ∷ hex (take 2 (drop 6 b))
            ++ (b'-' ∷ hex (take 2 (drop 8 b)) ++ (b'-' ∷ hex (drop 10 b)))))

-- The case of a type with a fixed width.
abbrev sized : ℕ → Bytes → Bytes → Option Bytes
sized n b text = if length b == n then some text else none

module _ (r : Rendering) where
  unfoldable pub decode_binary : ℕ → Bytes → Option Bytes
  unfolding big_endian uuid_text
  decode_binary oid b =
      if oid == oid_bool
      then sized 1 b (if big_endian 0 b == 0 then codes "false" else codes "true")
      else if oid == oid_int2
      then sized 2 b (format_int 32768 (big_endian 0 b))
      else if oid == oid_int4
      then sized 4 b (format_int 2147483648 (big_endian 0 b))
      else if oid == oid_oid
      then sized 4 b (format_uint (big_endian 0 b))
      else if oid == oid_int8
      then sized 8 b (format_int 9223372036854775808 (big_endian 0 b))
      else if oid == oid_float4
      then sized 4 b (r.float4 (big_endian 0 b))
      else if oid == oid_float8
      then sized 8 b (r.float8 (big_endian 0 b))
      else if oid == oid_text || oid == oid_varchar || oid == oid_bp_char || oid == oid_name
      then some b
      else if oid == oid_uuid
      then sized 16 b (uuid_text b)
      else if oid == oid_date
      then sized 4 b (r.date (big_endian 0 b))
      else if oid == oid_timestamp || oid == oid_timestamp_tz
      then sized 8 b (r.timestamp (big_endian 0 b))
      else if oid == oid_bytea
      then some (codes "\\x" ++ hex b)
      else none
