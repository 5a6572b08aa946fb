-- ===== src/Oracle/Literal.antt =====
-- internal/oracle/probe.go: the SQL literals that canary rows are made of.
use mathlib.Core.Option
use tenantguard.Base.{
  Bool, List, Option, [], false, if◌then◌else◌, length, none, some, suc, true, zero, ℕ, ◌%◌, ◌++◌,
  ◌+◌, ◌-◌, ◌==◌, ◌∷◌,
}
use tenantguard.Base.Assoc.{lookup}
use tenantguard.Base.Bytes.{Bytes, codes, equal}
use tenantguard.Base.Text.{trim_space}
use tenantguard.Capture.Oid.{hex}
use tenantguard.Capture.Oid.Decimal.{format_uint}
use tenantguard.Differ.Extract.{to_lower}
use tenantguard.Schema.{is_in}

-- `strings.TrimSuffix(s, "[]")`, and whether there was one.
unfoldable pub strip_array : Bytes → Bytes × Bool
unfolding equal codes
strip_array [] = ([], false)
strip_array (c ∷ cs) =
    let rest = strip_array cs in
    if equal (c ∷ cs) (codes "[]") then ([], true) else (c ∷ rest.0, rest.1)

abbrev before_paren : Bytes → Bytes
before_paren [] = []
before_paren (c ∷ cs) = if c == b'(' then [] else c ∷ before_paren cs

-- `s[:idx]` if the first parenthesis is at a position above 0
abbrev without_modifier : Bytes → Bytes
without_modifier [] = []
without_modifier (c ∷ cs) = if c == b'(' then c ∷ cs else c ∷ before_paren cs

-- `baseType`
unfoldable pub base_type : Bytes → Bytes × Bool
unfolding strip_array to_lower trim_space
base_type pg_type =
    let stripped = strip_array (to_lower (trim_space pg_type)) in
    (trim_space (without_modifier stripped.0), stripped.1)

-- The types that `sampleValue` has a case for.
pub data Sample : Type 0 where
  whole decimal boolean textual uuid instant date time_of_day json bytea inet interval : Sample

unfoldable pub samples : List (Bytes × Sample)
samples =
    (codes "smallint", whole)
    ∷ (codes "integer", whole)
    ∷ (codes "bigint", whole)
    ∷ (codes "real", decimal)
    ∷ (codes "double precision", decimal)
    ∷ (codes "numeric", decimal)
    ∷ (codes "decimal", decimal)
    ∷ (codes "boolean", boolean)
    ∷ (codes "text", textual)
    ∷ (codes "character varying", textual)
    ∷ (codes "character", textual)
    ∷ (codes "name", textual)
    ∷ (codes "citext", textual)
    ∷ (codes "uuid", uuid)
    ∷ (codes "timestamp with time zone", instant)
    ∷ (codes "timestamp without time zone", instant)
    ∷ (codes "date", date)
    ∷ (codes "time without time zone", time_of_day)
    ∷ (codes "time with time zone", time_of_day)
    ∷ (codes "json", json)
    ∷ (codes "jsonb", json)
    ∷ (codes "bytea", bytea)
    ∷ (codes "inet", inet)
    ∷ (codes "cidr", inet)
    ∷ (codes "interval", interval)
    ∷ []

-- %012d: zeros in front, up to a width.
unfoldable pub zeros : ℕ → Bytes → Bytes
zeros zero s = s
zeros (suc n) s = b'0' ∷ zeros n s

unfoldable pub padded : ℕ → Bytes → Bytes
unfolding zeros
padded width s = zeros (width - length s) s

-- The case's literal, for a base type and a row index.
unfoldable pub literal_of : Sample → Bytes → ℕ → Bytes
unfolding padded hex
literal_of whole base i = format_uint (1000 + i)
literal_of decimal base i = format_uint (1000 + i) ++ codes ".0"
literal_of boolean base i = if i % 2 == 0 then codes "false" else codes "true"
literal_of textual base i = codes "'tgd-" ++ format_uint i ++ codes "'"
literal_of uuid base i =
    codes "'00000000-0000-4000-8000-" ++ padded 12 (format_uint i) ++ codes "'::uuid"
literal_of instant base i =
    codes "(now() + (" ++ format_uint i ++ codes " * interval '1 microsecond'))"
literal_of date base i = codes "(current_date + " ++ format_uint i ++ codes ")"
literal_of time_of_day base i =
    (codes "('00:00:00'::" ++ base ++ codes " + (")
    ++ format_uint i
    ++ codes " * interval '1 second'))"
literal_of json base i = codes "'{\"tgd\":" ++ format_uint i ++ codes "}'::" ++ base
literal_of bytea base i = codes "'\\x" ++ hex ((i % 256) ∷ []) ++ codes "'::bytea"
literal_of inet base i = codes "'127.0.0." ++ format_uint (1 + i % 254) ++ codes "'::" ++ base
literal_of interval base i = codes "'" ++ format_uint (1 + i) ++ codes " seconds'::interval"

unfoldable pub sample_base : Bytes → ℕ → Option Bytes
unfolding literal_of
sample_base base i = Option.map (λ c. literal_of c base i) (lookup base samples)

-- Of one element, or empty where the element's type has no sample.
abbrev array_value : Bytes → Option Bytes → Option Bytes
array_value [] elem = none
array_value (c ∷ cs) (some elem) =
    some (codes "ARRAY[" ++ elem ++ codes "]::" ++ c ∷ cs ++ codes "[]")
array_value (c ∷ cs) none = some (codes "'{}'::" ++ c ∷ cs ++ codes "[]")

-- `sampleValue`, with fuel for the nesting of array types.
unfoldable pub sample_from : ℕ → Bytes → ℕ → Option Bytes
unfolding base_type sample_base
sample_from zero pg_type i = none
sample_from (suc n) pg_type i =
    let (base, is_array) = base_type pg_type in
    let elem = sample_from n base i in
    if is_array then array_value base elem else sample_base base i

-- Each level of an array takes two bytes off the type's name.
unfoldable pub sample_value : Bytes → ℕ → Option Bytes
unfolding sample_from
sample_value pg_type i = sample_from (suc (length pg_type)) pg_type i

abbrev pub canary_a : Bytes
canary_a = codes "tgd-canary-aaaa"

abbrev pub canary_b : Bytes
canary_b = codes "tgd-canary-bbbb"

abbrev pub canary_a_uuid : Bytes
canary_a_uuid = codes "00000000-0000-4000-8000-0000000000a1"

abbrev pub canary_b_uuid : Bytes
canary_b_uuid = codes "00000000-0000-4000-8000-0000000000b2"

abbrev pub text_types : List Bytes
text_types =
    codes "text"
    ∷ codes "character varying"
    ∷ codes "character"
    ∷ codes "name"
    ∷ codes "citext"
    ∷ []

abbrev uuid_of : Bytes → Option Bytes
uuid_of canary =
    if equal canary canary_a
    then some canary_a_uuid
    else if equal canary canary_b
    then some canary_b_uuid
    else none

-- `canaryText`
unfoldable pub canary_text : Bytes → Bytes → Option Bytes
unfolding base_type is_in
canary_text pg_type canary =
    let (base, is_array) = base_type pg_type in
    if is_array
    then none
    else if equal base (codes "uuid")
    then uuid_of canary
    else if is_in base text_types
    then some canary
    else none

abbrev pub quoted_text : Bool → Bytes → Bytes
quoted_text true s = b'\'' ∷ s ++ codes "'::uuid"
quoted_text false s = b'\'' ∷ s ++ codes "'"

-- `canaryLiteral`
unfoldable pub canary_literal : Bytes → Bytes → Option Bytes
unfolding canary_text base_type
canary_literal pg_type canary =
    Option.map (quoted_text (equal (base_type pg_type).0 (codes "uuid")))
      (canary_text pg_type canary)
