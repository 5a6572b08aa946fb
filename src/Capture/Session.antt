-- ===== src/Capture/Session.antt =====
-- internal/capture/session.go: one connection's state, and what each message of either direction does
-- to it. The two goroutines of the proxy call `FeedFrontend` and `FeedBackend` under one lock, so an
-- execution is a sequence of calls. An event that is not emitted is `none`. The text of a note is not
-- modelled: there is a constructor for each, with the name that it prints.
pub mod History
pub mod Resolve
pub mod Queue
pub mod Feed
use tenantguard.Base.{
  Bool, List, Option, [], false, get_elem?, if◌then◌else◌, length, none, not, some, true, ℕ, ◌++◌,
  ◌+◌, ◌==◌, ◌||◌, ◌∷◌,
}
use tenantguard.Base.Assoc.{Assoc, erase, insert, lookup}
use tenantguard.Base.Bytes.{Bytes, equal}
use tenantguard.Capture.Framer.{Framer, Message, emitted, empty, feed}
use tenantguard.Capture.Message.{
  Bind, Param, format_binary, no_decoder, no_oid_for_statement, no_reason, parse_bind, parse_close,
  parse_parameter_description, parse_parse, parse_row_description, unreliable,
}
use tenantguard.Capture.Oid.{Rendering, decode_binary}
use tenantguard.Capture.Wire.{cstring}

pub data Kind : Type 0 where
  kind_parse kind_param_desc kind_row_desc kind_bind kind_close kind_query : Kind

pub data Note : Type 0 where
  no_note no_outstanding_describe statement_closed : Note
  unresolvable : Bytes → Note

pub record Event : Type 0 where
  pub conn : ℕ
  pub kind : Kind
  pub stmt : Bytes
  pub portal : Bytes
  pub sql : Bytes
  pub resolved : Bool
  pub params : List Param
  pub note : Note

pub record Session : Type 0 where
  pub id : ℕ
  pub stmts : Assoc Bytes
  pub fr : Framer
  pub bfr : Framer
  pub pending_describe : List Bytes
  pub last_described : Bytes
  pub param_oids : Assoc (List ℕ)
  pub row_oids : Assoc (List ℕ)

abbrev pub new_session : ℕ → Session
new_session id = record {
  id = id;
  stmts = [];
  fr = empty;
  bfr = empty;
  pending_describe = [];
  last_described = [];
  param_oids = [];
  row_oids = [];
}

-- `Event{Conn: s.id, Kind: k}`
abbrev event : Session → Kind → Event
event s k = record {
  conn = s.id;
  kind = k;
  stmt = [];
  portal = [];
  sql = [];
  resolved = false;
  params = [];
  note = no_note;
}

abbrev pub Outcome : Type 0
Outcome = Option Event × Session

-- A nil slice for a missing key.
abbrev pub oids_of : Option (List ℕ) → List ℕ
oids_of none = []
oids_of (some oids) = oids

abbrev pub or_zero : Option ℕ → ℕ
or_zero none = 0
or_zero (some n) = n

abbrev decoded : Param → ℕ → Option Bytes → Param
decoded p oid none = record p { oid = oid; reason = no_decoder oid }
decoded p oid (some text) = record p { oid = oid; known = true; text = text; reason = no_reason }

module _ (r : Rendering) where
  -- The loop's body, for parameter i of `total`.
  unfoldable pub resolve_param : List ℕ → ℕ → ℕ → Param → Param
  resolve_param oids total i p =
      if p.known || p.is_null || not (p.format == format_binary)
      then p
      else if length oids == 0
      then record p { reason = no_oid_for_statement }
      else if not (length oids == total)
      then record p { reason = unreliable (length oids) total }
      else let oid = or_zero (get_elem? oids i) in decoded p oid (decode_binary r oid p.value)

  unfoldable pub resolve_from : List ℕ → ℕ → ℕ → List Param → List Param
  unfolding resolve_param
  resolve_from oids total i [] = []
  resolve_from oids total i (p ∷ ps) =
      resolve_param oids total i p ∷ resolve_from oids total (i + 1) ps

  unfoldable pub resolve_params : Session → Bytes → List Param → List Param
  unfolding resolve_from
  resolve_params s stmt params =
      resolve_from (oids_of (lookup stmt s.param_oids)) (length params) 0 params

-- case msgParse
unfoldable pub on_parse : Session → Option (Bytes × Bytes) → Outcome
on_parse s none = (none, s)
on_parse s (some (name, sql)) = (
  some (record (event s kind_parse) { stmt = name; sql = sql }),
  record s { stmts = insert name sql s.stmts },
)

-- case msgDescribe
unfoldable pub on_describe : Session → Option (ℕ × Bytes) → Outcome
on_describe s none = (none, s)
on_describe s (some (kind, name)) = (
  none,
  if kind == b'S' then record s { pending_describe = s.pending_describe ++ name ∷ [] } else s,
)

-- case msgClose
unfoldable pub on_close : Session → Option (ℕ × Bytes) → Outcome
on_close s none = (none, s)
on_close s (some (kind, name)) =
    if kind == b'S'
    then (
      some (record (event s kind_close) { stmt = name; note = statement_closed }),
      record s { stmts = erase name s.stmts },
    )
    else (none, s)

-- case msgQuery
unfoldable pub on_query : Session → Option (Bytes × Bytes) → Outcome
on_query s none = (none, s)
on_query s (some (sql, rest)) =
    (some (record (event s kind_query) { sql = sql; resolved = true }), s)

abbrev bound : Event → Bytes → Option Bytes → Event
bound ev stmt none = record ev { note = unresolvable stmt }
bound ev stmt (some sql) = record ev { sql = sql; resolved = true }

module _ (r : Rendering) where
  -- case msgBind
  unfoldable pub on_bind : Session → Option Bind → Outcome
  on_bind s none = (none, s)
  on_bind s (some b) =
      let ev = record (event s kind_bind) {
        stmt = b.stmt;
        portal = b.portal;
        params = resolve_params r s b.stmt b.params;
      } in
      (some (bound ev b.stmt (lookup b.stmt s.stmts)), s)

  unfoldable pub handle : Session → Message → Outcome
  handle s m =
      if m.typ == b'P'
      then on_parse s (parse_parse m.body)
      else if m.typ == b'B'
      then on_bind s (parse_bind m.body)
      else if m.typ == b'D'
      then on_describe s (parse_close m.body)
      else if m.typ == b'C'
      then on_close s (parse_close m.body)
      else if m.typ == b'Q'
      then on_query s (cstring m.body)
      else (none, s)

-- case msgParamDesc, by the queue of outstanding names
unfoldable pub attribute : Session → List ℕ → List Bytes → Outcome
attribute s oids [] =
    (some (record (event s kind_param_desc) { note = no_outstanding_describe }), s)
attribute s oids (name ∷ names) = (
  some (record (event s kind_param_desc) { stmt = name; resolved = true }),
  record s {
    pending_describe = names;
    last_described = name;
    param_oids = insert name oids s.param_oids;
  },
)

unfoldable pub on_param_desc : Session → Option (List ℕ) → Outcome
unfolding attribute
on_param_desc s none = (none, s)
on_param_desc s (some oids) = attribute s oids s.pending_describe

-- case msgRowDesc
unfoldable pub on_row_desc : Session → Option (List ℕ) → Outcome
on_row_desc s none = (none, s)
on_row_desc s (some oids) =
    let name = s.last_described in
    let named = not (equal name []) in
    (
      some (record (event s kind_row_desc) { stmt = name; resolved = named }),
      if named then record s { row_oids = insert name oids s.row_oids } else s,
    )

unfoldable pub handle_backend : Session → Message → Outcome
unfolding on_param_desc on_row_desc
handle_backend s m =
    if m.typ == b't'
    then on_param_desc s (parse_parameter_description m.body)
    else if m.typ == b'T'
    then on_row_desc s (parse_row_description m.body)
    else (none, s)

unfoldable pub feed_backend : Session → Bytes → List Event × Session
feed_backend s b = let (es, s', f) = feed handle_backend s s.bfr b in (es, record s' { bfr = f })

-- A whole message from the client or from the server.
pub data Input : Type 0 where
  client server : Message → Input

module _ (r : Rendering) where
  unfoldable pub feed_frontend : Session → Bytes → List Event × Session
  feed_frontend s b = let (es, s', f) = feed (handle r) s s.fr b in (es, record s' { fr = f })

  unfoldable pub receive : Session → Input → Outcome
  receive s (client m) = handle r s m
  receive s (server m) = handle_backend s m

  unfoldable pub receive_all : Session → List Input → List Event × Session
  receive_all s [] = ([], s)
  receive_all s (i ∷ is) =
      let (e, s') = receive s i in let (es, last) = receive_all s' is in (emitted e es, last)
