-- ===== src/Capture/Message.antt =====
-- internal/capture/protocol.go: the bodies of Parse, Close, Bind, ParameterDescription and
-- RowDescription. `none` is `errShortMessage`. The text of an unknown parameter's reason is not
-- modelled: there is a constructor for each message, with the values that it prints.
pub mod Sent
pub mod RoundTrip
use mathlib.Core.Option
use tenantguard.Base.{
  Bool, List, Option, [], drop, false, get_elem?, if◌then◌else◌, leb, length, ltb, none, some, suc,
  take, true, zero, ℕ, ◌&&◌, ◌*◌, ◌+◌, ◌==◌, ◌∷◌,
}
use tenantguard.Base.Bytes.{Bytes, codes}
use tenantguard.Capture.Wire.{Reader, cstring, pure, u16, u32, ◌>>=◌, ◌>>◌}

abbrev pub format_text : ℕ
format_text = 0

abbrev pub format_binary : ℕ
format_binary = 1

-- Why a parameter's value is not known; `no_reason` is the empty string.
pub data Reason : Type 0 where
  no_reason oid_not_captured no_oid_for_statement : Reason
  unreliable : ℕ → ℕ → Reason
  no_decoder : ℕ → Reason
  other : Bytes → Reason

pub record Param : Type 0 where
  pub is_null : Bool
  pub format : ℕ
  pub value : Bytes
  pub oid : ℕ
  pub text : Bytes
  pub known : Bool
  pub reason : Reason

-- Go's `Param{}`
abbrev pub zero_param : Param
zero_param = record {
  is_null = false;
  format = format_text;
  value = [];
  oid = 0;
  text = [];
  known = false;
  reason = no_reason;
}

unfoldable pub parse_parse : Bytes → Option (Bytes × Bytes)
parse_parse body =
    Option.map (λ p. p.0)
      ((do name ← cstring; sql ← cstring; pure {A = Bytes × Bytes} (name, sql)) body)

unfoldable pub parse_close : Bytes → Option (ℕ × Bytes)
parse_close [] = none
parse_close (kind ∷ rest) = Option.map (λ p. (kind, p.0)) (cstring rest)

-- for n := 0; n < numFormats; n++
unfoldable pub read_u16s : ℕ → Reader (List ℕ)
read_u16s zero = pure []
read_u16s (suc n) = do f ← u16; fs ← read_u16s n; pure (f ∷ fs)

unfoldable pub read_u32s : ℕ → Reader (List ℕ)
read_u32s zero = pure []
read_u32s (suc n) = do f ← u32; fs ← read_u32s n; pure (f ∷ fs)

abbrev pub or_text : Option ℕ → ℕ
or_text none = format_text
or_text (some f) = f

-- the switch on numFormats, for parameter n
unfoldable pub format_for : List ℕ → ℕ → ℕ
format_for formats n =
    if length formats == 1
    then or_text (get_elem? formats 0)
    else if ltb 1 (length formats) && ltb n (length formats)
    then or_text (get_elem? formats n)
    else format_text

abbrev pub null_param : ℕ → Param
null_param format = record zero_param {
  is_null = true;
  format = format;
  known = true;
  text = codes "NULL";
}

abbrev pub value_param : ℕ → Bytes → Param
value_param format value =
    if format == format_text
    then record zero_param { format = format; value = value; known = true; text = value }
    else record zero_param { format = format; value = value; reason = oid_not_captured }

-- One value: a length, which is an int32 and negative for NULL, and so many bytes.
unfoldable pub read_param : ℕ → Reader Param
read_param format = do
  len ← u32
  if leb 2147483648 len then pure (null_param format) else λ b.
      if ltb (length b) len then none else some (value_param format (take len b), drop len b)

unfoldable pub read_params : List ℕ → ℕ → ℕ → Reader (List Param)
read_params formats n zero = pure []
read_params formats n (suc left) = do
  p ← read_param (format_for formats n)
  ps ← read_params formats (n + 1) left
  pure (p ∷ ps)

pub record Bind : Type 0 where
  pub portal : Bytes
  pub stmt : Bytes
  pub params : List Param

unfoldable pub read_bind : Reader Bind
unfolding read_u16s read_params read_param format_for
read_bind = do
  portal ← cstring
  stmt ← cstring
  formats ← (do n ← u16; read_u16s n)
  params ← (do n ← u16; read_params formats 0 n)
  pure (record { portal = portal; stmt = stmt; params = params })

unfoldable pub parse_bind : Bytes → Option Bind
unfolding read_bind
parse_bind body = Option.map (λ p. p.0) (read_bind body)

-- the test on the length, then the loop
unfoldable pub read_oids : Reader (List ℕ)
unfolding read_u32s
read_oids = do n ← u16; λ b. if ltb (length b) (4 * n) then none else read_u32s n b

unfoldable pub parse_parameter_description : Bytes → Option (List ℕ)
unfolding read_oids
parse_parameter_description body = Option.map (λ p. p.0) (read_oids body)

-- table OID (4), column attribute (2), type OID (4), size (2), modifier (4), format (2)
unfoldable pub read_field : Reader ℕ
read_field = do
  cstring
  λ b. if ltb (length b) 18 then none else (do u32; u16; oid ← u32; u16; u32; u16; pure oid) b

unfoldable pub read_fields : ℕ → Reader (List ℕ)
unfolding read_field
read_fields zero = pure []
read_fields (suc n) = do oid ← read_field; oids ← read_fields n; pure (oid ∷ oids)

unfoldable pub parse_row_description : Bytes → Option (List ℕ)
unfolding read_fields
parse_row_description body = Option.map (λ p. p.0) ((do n ← u16; read_fields n) body)
