-- ===== src/Capture/Recorder.antt =====
-- internal/capture/recorder.go and decoder.go: what is written of an event, and what is read again. The
-- JSON text between is encoding/json's: `carried` is what that package makes of a Go string that it
-- writes and reads, which is the same string if it is valid UTF-8. The texts of reasons and notes, and
-- the kind, are ASCII and stand for themselves.
pub mod RoundTrip
use mathlib.Core.Option
use tenantguard.Base.{Bool, List, Option, [], if◌then◌else◌, map, none, some, ℕ, ◌==◌, ◌∷◌}
use tenantguard.Base.Bytes.{Bytes, codes, equal}
use tenantguard.Capture.Base64.{decode_string, encode_to_string}
use tenantguard.Capture.Message.{Param, Reason, format_binary, format_text}
use tenantguard.Capture.Session.{Event, Kind, Note}

-- `jsonParam`
pub record JsonParam : Type 0 where
  pub null : Bool
  pub format : Bytes
  pub oid : ℕ
  pub known : Bool
  pub value : Bytes
  pub value_b64 : Bytes
  pub reason : Reason

-- `jsonEvent`
pub record JsonEvent : Type 0 where
  pub conn : ℕ
  pub kind : Kind
  pub stmt : Bytes
  pub portal : Bytes
  pub sql : Bytes
  pub resolved : Bool
  pub params : List JsonParam
  pub note : Note

-- `ParamFormat.String`
unfoldable pub format_string : ℕ → Bytes
format_string f = if f == format_binary then codes "binary" else codes "text"

-- The body of `Emit`'s loop.
unfoldable pub emit_param : Param → JsonParam
emit_param p = record {
  null = p.is_null;
  format = format_string p.format;
  oid = p.oid;
  known = p.known;
  value = if p.is_null then [] else if p.known then p.text else [];
  value_b64 = if p.is_null then [] else if p.known then [] else encode_to_string p.value;
  reason = p.reason;
}

-- `Recorder.Emit`, up to the encoder.
unfoldable pub emit : Event → JsonEvent
unfolding emit_param
emit e = record {
  conn = e.conn;
  kind = e.kind;
  stmt = e.stmt;
  portal = e.portal;
  sql = e.sql;
  resolved = e.resolved;
  params = map emit_param e.params;
  note = e.note;
}

unfoldable pub parse_format : Bytes → ℕ
parse_format s = if equal s (codes "binary") then format_binary else format_text

-- A parameter with the text and the bytes that the switch of `DecodeEvents` gives it.
abbrev pub restored_param : JsonParam → Bytes → Bytes → Param
restored_param jp text value = record {
  is_null = jp.null;
  format = parse_format jp.format;
  value = value;
  oid = jp.oid;
  text = text;
  known = jp.known;
  reason = jp.reason;
}

-- The body of the loop over parameters, `none` for the error of base64.
unfoldable pub decode_param : JsonParam → Option Param
decode_param jp =
    if jp.null
    then some (restored_param jp [] [])
    else if jp.known
    then some (restored_param jp jp.value [])
    else Option.map (restored_param jp []) (decode_string jp.value_b64)

abbrev pub cons_some {ℓ} : {A : Type ℓ} → Option A → Option (List A) → Option (List A)
cons_some none rest = none
cons_some (some a) none = none
cons_some (some a) (some as_) = some (a ∷ as_)

unfoldable pub decode_params : List JsonParam → Option (List Param)
unfolding decode_param
decode_params [] = some []
decode_params (jp ∷ jps) = cons_some (decode_param jp) (decode_params jps)

unfoldable pub decode_event : JsonEvent → Option Event
unfolding decode_params
decode_event je =
    Option.map
      (λ (ps : List Param). record {
        conn = je.conn;
        kind = je.kind;
        stmt = je.stmt;
        portal = je.portal;
        sql = je.sql;
        resolved = je.resolved;
        params = ps;
        note = je.note;
      })
      (decode_params je.params)

-- `DecodeEvents` on the values that the JSON decoder yields.
unfoldable pub decode_events : List JsonEvent → Option (List Event)
unfolding decode_event
decode_events [] = some []
decode_events (je ∷ jes) = cons_some (decode_event je) (decode_events jes)

module _ (carried : Bytes → Bytes) where
  abbrev pub carry_param : JsonParam → JsonParam
  carry_param jp = record jp {
    format = carried jp.format;
    value = carried jp.value;
    value_b64 = carried jp.value_b64;
  }

  -- An event's line, written and read by encoding/json.
  abbrev pub carry : JsonEvent → JsonEvent
  carry je = record je {
    stmt = carried je.stmt;
    portal = carried je.portal;
    sql = carried je.sql;
    params = map carry_param je.params;
  }
