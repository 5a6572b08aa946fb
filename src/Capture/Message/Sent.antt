-- ===== src/Capture/Message/Sent.antt =====
-- The bodies of Bind and ParameterDescription as the protocol documents them, and the parameters that a
-- reader should make of them.
use mathlib.Core.Option
use tenantguard.Base.{
  List, Option, [], get_elem?, length, none, some, suc, true, zero, ℕ, ◌++◌, ◌+◌, ◌<◌, ◌∷◌,
}
use tenantguard.Base.Bytes.{Bytes, codes}
use tenantguard.Capture.Message.{Param, oid_not_captured, zero_param}
use tenantguard.Capture.Wire.{NoNul, put_cstring, put_u16, put_u32}

-- What a client sends: format codes and values, `none` for NULL.
pub record SentBind : Type 0 where
  pub portal : Bytes
  pub stmt : Bytes
  pub formats : List ℕ
  pub values : List (Option Bytes)

unfoldable pub put_u16s : List ℕ → Bytes
put_u16s [] = []
put_u16s (n ∷ ns) = put_u16 n ++ put_u16s ns

unfoldable pub put_u32s : List ℕ → Bytes
put_u32s [] = []
put_u32s (n ∷ ns) = put_u32 n ++ put_u32s ns

-- The length of NULL is -1.
unfoldable pub put_value : Option Bytes → Bytes
put_value none = put_u32 4294967295
put_value (some v) = put_u32 (length v) ++ v

unfoldable pub put_values : List (Option Bytes) → Bytes
put_values [] = []
put_values (v ∷ vs) = put_value v ++ put_values vs

unfoldable pub put_bind : SentBind → Bytes
unfolding put_u16s put_values put_value
put_bind b =
    put_cstring b.portal
    ++ (put_cstring b.stmt
        ++ (put_u16 (length b.formats)
            ++ (put_u16s b.formats ++ (put_u16 (length b.values) ++ put_values b.values))))

-- The protocol's rule: no code means text, one code is for every parameter, else one for each.
abbrev pub code_of : List ℕ → ℕ → ℕ
code_of [] n = 0
code_of (f ∷ []) n = f
code_of (f ∷ g ∷ fs) n = Option.get_or (get_elem? (f ∷ g ∷ fs) n) 0

-- The parameter that a value sent under a format code should become.
abbrev pub param_of : ℕ → Option Bytes → Param
param_of f none = record zero_param {
  is_null = true;
  format = f;
  known = true;
  text = codes "NULL";
}
param_of zero (some v) = record zero_param { value = v; known = true; text = v }
param_of (suc f) (some v) = record zero_param {
  format = suc f;
  value = v;
  reason = oid_not_captured;
}

abbrev pub params_of : List ℕ → ℕ → List (Option Bytes) → List Param
params_of fs n [] = []
params_of fs n (v ∷ vs) = param_of (code_of fs n) v ∷ params_of fs (n + 1) vs

abbrev pub Shorts : List ℕ → Type 0
Shorts [] = Unit
Shorts (n ∷ ns) = (n < 65536) × Shorts ns

abbrev pub Words : List ℕ → Type 0
Words [] = Unit
Words (n ∷ ns) = (n < 4294967296) × Words ns

abbrev pub ValuesFit : List (Option Bytes) → Type 0
ValuesFit [] = Unit
ValuesFit (none ∷ vs) = ValuesFit vs
ValuesFit (some v ∷ vs) = (length v < 2147483648) × ValuesFit vs

-- The counts and lengths fit their fields, and the names hold no NUL.
pub record IsSendable (b : SentBind) : Type 0 where
  pub portal_text : NoNul b.portal
  pub stmt_text : NoNul b.stmt
  pub formats_count : length b.formats < 65536
  pub formats_short : Shorts b.formats
  pub values_count : length b.values < 65536
  pub values_fit : ValuesFit b.values
