-- ===== src/Capture/Recorder/RoundTrip.antt =====
-- internal/capture: an event that is recorded and decoded again.
use tenantguard.Base.{
  Bool-cases, List, [], ap, arith, if◌then◌else◌, inl, inr, map, refl, some, ℕ, ◌%◌, ◌*◌, ◌+◌, ◌/◌,
  ◌<◌, ◌==◌, ◌||◌, ◌∙◌, ◌∷◌, ◌≡◌,
}
use tenantguard.Base.Bytes.{Bytes, codes, equal}
use tenantguard.Capture.Base64.{
  IsBytes, decode_string, decode_string-encode_to_string, digit_bounds, encode_to_string,
}
use tenantguard.Capture.Message.{Param, format_binary, format_text}
use tenantguard.Capture.Recorder.{
  carry, carry_param, decode_event, decode_events, decode_param, decode_params, emit, emit_param,
  format_string, parse_format,
}
use tenantguard.Capture.Session.{Event}

unfoldable pub recalled_format : ℕ → ℕ
recalled_format f = if f == format_binary then format_binary else format_text

parse_format-format_string : (f : ℕ) → parse_format (format_string f) ≡ recalled_format f
unfolding parse_format format_string recalled_format equal codes
parse_format-format_string f = ground arith

-- What is left of a parameter: the raw bytes only where its value is not known.
unfoldable pub recalled_param : Param → Param
recalled_param p = record p {
  format = recalled_format p.format;
  value = if p.is_null || p.known then [] else p.value;
  text = if p.is_null then [] else if p.known then p.text else [];
}

abbrev pub recalled : Event → Event
recalled e = record e { params = map recalled_param e.params }

-- ASCII passes through JSON.
abbrev pub IsAscii : Bytes → Type 0
IsAscii [] = Unit
IsAscii (c ∷ cs) = (c < 128) × IsAscii cs

IsAscii-encode : (s : Bytes) → IsBytes s → IsAscii (encode_to_string s)
unfolding encode_to_string
IsAscii-encode [] h = tt
IsAscii-encode (a ∷ []) (p, _) = (
  (digit_bounds (a / 4) (omega arith)).1,
  ((digit_bounds (a % 4 * 16) (omega arith)).1, omega arith),
)
IsAscii-encode (a ∷ b ∷ []) (p, (q, _)) = (
  (digit_bounds (a / 4) (omega arith)).1,
  (
    (digit_bounds (a % 4 * 16 + b / 16) (omega arith)).1,
    ((digit_bounds (b % 16 * 4) (omega arith)).1, omega arith),
  ),
)
IsAscii-encode (a ∷ b ∷ c ∷ rest) (p, (q, (r, h))) = (
  (digit_bounds (a / 4) (omega arith)).1,
  (
    (digit_bounds (a % 4 * 16 + b / 16) (omega arith)).1,
    (
      (digit_bounds (b % 16 * 4 + c / 64) (omega arith)).1,
      ((digit_bounds (c % 64) (omega arith)).1, IsAscii-encode rest h),
    ),
  ),
)

module _ (carried : Bytes → Bytes) (ascii : (s : Bytes) → IsAscii s → carried s ≡ s) where
  -- The text of the parameter is valid, and its raw value consists of bytes.
  pub record IsCarried (p : Param) : Type 0 where
    pub text : carried p.text ≡ p.text
    pub bytes : IsBytes p.value

  abbrev pub AllCarried : List Param → Type 0
  AllCarried [] = Unit
  AllCarried (p ∷ ps) = IsCarried p × AllCarried ps

  pub record Carries (e : Event) : Type 0 where
    pub stmt : carried e.stmt ≡ e.stmt
    pub portal : carried e.portal ≡ e.portal
    pub sql : carried e.sql ≡ e.sql
    pub params : AllCarried e.params

  carried-format : (f : ℕ) → carried (format_string f) ≡ format_string f
  unfolding format_string codes
  carried-format f = elim (Bool-cases (f == format_binary)) [
    | inl e ↦ rw e (ascii _ (omega arith))
    | inr e ↦ rw e (ascii _ (omega arith))
  ]

  parse_format-carried : (f : ℕ) → parse_format (carried (format_string f)) ≡ recalled_format f
  parse_format-carried f = ap parse_format (carried-format f) ∙ parse_format-format_string f

  decode_param-emit :
      (p : Param)
      → IsCarried p
      → decode_param (carry_param carried (emit_param p)) ≡ some (recalled_param p)
  unfolding decode_param emit_param recalled_param
  decode_param-emit p h =
      let bytes : decode_string (carried (encode_to_string p.value)) ≡ some p.value =
        ap decode_string (ascii _ (IsAscii-encode p.value h.bytes))
        ∙ decode_string-encode_to_string p.value h.bytes in
      ground (arith, parse_format-carried p.format, bytes)

  decode_params-emit :
      (ps : List Param)
      → AllCarried ps
      → decode_params (map (carry_param carried) (map emit_param ps)) ≡ some (map recalled_param ps)
  unfolding decode_params
  decode_params-emit [] h = refl
  decode_params-emit (p ∷ ps) (h, hs) = simp (decode_param-emit p h, decode_params-emit ps hs)

  decode_event-emit :
      (e : Event) → Carries e → decode_event (carry carried (emit e)) ≡ some (recalled e)
  unfolding decode_event emit
  decode_event-emit e h =
      ground (arith, decode_params-emit e.params h.params, h.stmt, h.portal, h.sql)

  abbrev pub AllCarry : List Event → Type 0
  AllCarry [] = Unit
  AllCarry (e ∷ es) = Carries e × AllCarry es

  -- DecodeEvents reads back the events that Emit wrote, where encoding/json keeps ASCII and the texts of
  -- the events: each field is the same, but that the raw bytes of a parameter are left only where its
  -- value is not known, its text only where it is, and a format that is not binary is text.
  pub decode_events-emit :
      (es : List Event)
      → AllCarry es
      → decode_events (map (λ e. carry carried (emit e)) es) ≡ some (map recalled es)
  unfolding decode_events
  decode_events-emit [] h = refl
  decode_events-emit (e ∷ es) (h, hs) = simp (decode_event-emit e h, decode_events-emit es hs)
