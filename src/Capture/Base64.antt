-- ===== src/Capture/Base64.antt =====
-- encoding/base64, StdEncoding, as internal/capture uses it for the bytes of undecoded parameters.
use tenantguard.Base.{
  Option, [], arith, false, if◌then◌else◌, leb, ltb, none, refl, some, ℕ, ◌%◌, ◌&&◌, ◌*◌, ◌+◌, ◌-◌,
  ◌/◌, ◌<◌, ◌==◌, ◌||◌, ◌∷◌, ◌≡◌, ◌≢◌, ◌≤◌,
}
use tenantguard.Base.Bytes.{Bytes}

-- The character of a six-bit number.
unfoldable pub digit : ℕ → ℕ
digit n =
    if ltb n 26
    then 65 + n
    else if ltb n 52
    then 71 + n
    else if ltb n 62
    then n - 4
    else if n == 62
    then b'+'
    else b'/'

unfoldable pub digit_value : ℕ → Option ℕ
digit_value c =
    if leb 65 c && leb c 90
    then some (c - 65)
    else if leb 97 c && leb c 122
    then some (c - 71)
    else if leb 48 c && leb c 57
    then some (c + 4)
    else if c == b'+'
    then some 62
    else if c == b'/'
    then some 63
    else none

abbrev pad : ℕ
pad = b'='

-- EncodeToString
unfoldable pub encode_to_string : Bytes → Bytes
unfolding digit
encode_to_string [] = []
encode_to_string (a ∷ []) = digit (a / 4) ∷ digit (a % 4 * 16) ∷ pad ∷ pad ∷ []
encode_to_string (a ∷ b ∷ []) =
    digit (a / 4) ∷ digit (a % 4 * 16 + b / 16) ∷ digit (b % 16 * 4) ∷ pad ∷ []
encode_to_string (a ∷ b ∷ c ∷ rest) =
    digit (a / 4)
    ∷ digit (a % 4 * 16 + b / 16)
    ∷ digit (b % 16 * 4 + c / 64)
    ∷ digit (c % 64)
    ∷ encode_to_string rest

abbrev one_byte : Option ℕ → Option ℕ → Option Bytes
one_byte (some w) (some x) = some ((w * 4 + x / 16) ∷ [])
one_byte (some w) none = none
one_byte none x = none

abbrev two_bytes : Option ℕ → Option ℕ → Option ℕ → Option Bytes
two_bytes (some w) (some x) (some y) = some ((w * 4 + x / 16) ∷ (x % 16 * 16 + y / 4) ∷ [])
two_bytes (some w) (some x) none = none
two_bytes (some w) none y = none
two_bytes none x y = none

abbrev three_bytes : Option ℕ → Option ℕ → Option ℕ → Option ℕ → Option Bytes → Option Bytes
three_bytes (some w) (some x) (some y) (some z) (some rest) =
    some ((w * 4 + x / 16) ∷ (x % 16 * 16 + y / 4) ∷ (y % 4 * 64 + z) ∷ rest)
three_bytes (some w) (some x) (some y) (some z) none = none
three_bytes (some w) (some x) (some y) none rest = none
three_bytes (some w) (some x) none z rest = none
three_bytes (some w) none y z rest = none
three_bytes none x y z rest = none

-- A padded group is the last one.
abbrev if_last : Bytes → Option Bytes → Option Bytes
if_last [] bytes = bytes
if_last (c ∷ cs) bytes = none

unfoldable pub decode_groups : Bytes → Option Bytes
unfolding digit_value
decode_groups [] = some []
decode_groups (w ∷ x ∷ y ∷ z ∷ rest) =
    let more = decode_groups rest in
    if z == pad
    then if y == pad
      then if_last rest (one_byte (digit_value w) (digit_value x))
      else if_last rest (two_bytes (digit_value w) (digit_value x) (digit_value y))
    else three_bytes (digit_value w) (digit_value x) (digit_value y) (digit_value z) more
decode_groups (w ∷ []) = none
decode_groups (w ∷ x ∷ []) = none
decode_groups (w ∷ x ∷ y ∷ []) = none

unfoldable pub without_newlines : Bytes → Bytes
without_newlines [] = []
without_newlines (c ∷ cs) =
    let rest = without_newlines cs in if c == 10 || c == 13 then rest else c ∷ rest

-- DecodeString, which passes over line ends; `none` for its error.
unfoldable pub decode_string : Bytes → Option Bytes
unfolding decode_groups without_newlines
decode_string s = decode_groups (without_newlines s)

abbrev pub IsBytes : Bytes → Type 0
IsBytes [] = Unit
IsBytes (b ∷ bs) = (b < 256) × IsBytes bs

digit_value-digit : (n : ℕ) → n < 64 → digit_value (digit n) ≡ some n
unfolding digit digit_value
digit_value-digit n h = ground arith

pub digit_bounds : (n : ℕ) → n < 64 → (43 ≤ digit n) × (digit n < 128) × (digit n ≢ pad)
unfolding digit
digit_bounds n h = (ground arith, ground arith, ground arith)

kept :
    (n : ℕ) (cs : Bytes) → n < 64 → without_newlines (digit n ∷ cs) ≡ digit n ∷ without_newlines cs
unfolding without_newlines
kept n cs h = ground (arith, digit_bounds n h)

without_newlines-encode :
    (s : Bytes) → IsBytes s → without_newlines (encode_to_string s) ≡ encode_to_string s
unfolding encode_to_string
without_newlines-encode [] h = unfold without_newlines in refl
without_newlines-encode (a ∷ []) (p, _) =
    let ends : without_newlines (pad ∷ pad ∷ []) ≡ pad ∷ pad ∷ [] =
      (unfold without_newlines in refl) in
    simp (kept (a / 4) _ (omega arith), kept (a % 4 * 16) _ (omega arith), ends)
without_newlines-encode (a ∷ b ∷ []) (p, (q, _)) =
    let ends : without_newlines (pad ∷ []) ≡ pad ∷ [] = (unfold without_newlines in refl) in
    simp (
      kept (a / 4) _ (omega arith),
      kept (a % 4 * 16 + b / 16) _ (omega arith),
      kept (b % 16 * 4) _ (omega arith),
      ends,
    )
without_newlines-encode (a ∷ b ∷ c ∷ rest) (p, (q, (r, h))) = simp (
  kept (a / 4) _ (omega arith),
  kept (a % 4 * 16 + b / 16) _ (omega arith),
  kept (b % 16 * 4 + c / 64) _ (omega arith),
  kept (c % 64) _ (omega arith),
  without_newlines-encode rest h,
)

not_pad : (n : ℕ) → n < 64 → (digit n == pad) ≡ false
not_pad n h = ground (arith, digit_bounds n h)

decode_groups-encode : (s : Bytes) → IsBytes s → decode_groups (encode_to_string s) ≡ some s
unfolding encode_to_string decode_groups
decode_groups-encode [] h = refl
decode_groups-encode (a ∷ []) (p, _) =
    ground
      (arith, digit_value-digit (a / 4) (omega arith), digit_value-digit (a % 4 * 16) (omega arith))
decode_groups-encode (a ∷ b ∷ []) (p, (q, _)) = ground (
  arith,
  digit_value-digit (a / 4) (omega arith),
  digit_value-digit (a % 4 * 16 + b / 16) (omega arith),
  digit_value-digit (b % 16 * 4) (omega arith),
  digit_bounds (b % 16 * 4) (omega arith),
)
decode_groups-encode (a ∷ b ∷ c ∷ rest) (p, (q, (r, h))) =
    let first : a / 4 * 4 + (a % 4 * 16 + b / 16) / 16 ≡ a = omega arith in
    let second : (a % 4 * 16 + b / 16) % 16 * 16 + (b % 16 * 4 + c / 64) / 4 ≡ b = omega arith in
    let third : (b % 16 * 4 + c / 64) % 4 * 64 + c % 64 ≡ c = omega arith in
    simp (
      not_pad (c % 64) (omega arith),
      digit_value-digit (a / 4) (omega arith),
      digit_value-digit (a % 4 * 16 + b / 16) (omega arith),
      digit_value-digit (b % 16 * 4 + c / 64) (omega arith),
      digit_value-digit (c % 64) (omega arith),
      decode_groups-encode rest h,
      first,
      second,
      third,
    )

-- DecodeString gives back every byte string that EncodeToString was given.
pub decode_string-encode_to_string :
    (s : Bytes) → IsBytes s → decode_string (encode_to_string s) ≡ some s
unfolding decode_string
decode_string-encode_to_string s h = rw (without_newlines-encode s h) (decode_groups-encode s h)
