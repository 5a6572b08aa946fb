-- ===== src/Capture/Session/Queue.antt =====
-- The queue of outstanding Describes: which statement a ParameterDescription is attributed to.
use tenantguard.Base.{
  List, Option, [], ap, append-nil, append_assoc, arith, if◌then◌else◌, none, refl, some, sym, ℕ,
  ◌++◌, ◌==◌, ◌∙◌, ◌∷◌, ◌≡◌,
}
use tenantguard.Base.Bytes.{Bytes}
use tenantguard.Capture.Framer.{Message, emitted}
use tenantguard.Capture.Message.{Bind, parse_bind, parse_close, parse_parse}
use tenantguard.Capture.Oid.{Rendering}
use tenantguard.Capture.Session.{
  Event, Input, Kind, Outcome, Session, client, handle, handle_backend, kind_param_desc, on_bind,
  on_close, on_describe, on_parse, on_query, receive, receive_all, server,
}
use tenantguard.Capture.Wire.{cstring}

-- The statement that a message from the client asks the server to describe.
abbrev pub described_by : Option (ℕ × Bytes) → List Bytes
described_by none = []
described_by (some (kind, name)) = if kind == b'S' then name ∷ [] else []

abbrev pub asks : Input → List Bytes
asks (client m) = if m.typ == b'D' then described_by (parse_close m.body) else []
asks (server m) = []

abbrev pub asked : List Input → List Bytes
asked [] = []
asked (i ∷ is) = asks i ++ asked is

abbrev attributes_as : Kind → Event → List Bytes
attributes_as kind_param_desc e = if e.resolved then e.stmt ∷ [] else []
attributes_as _ e = []

-- The statement that an event attributes a ParameterDescription to.
abbrev pub attributes : Event → List Bytes
attributes e = attributes_as e.kind e

abbrev pub attributed : List Event → List Bytes
attributed [] = []
attributed (e ∷ es) = attributes e ++ attributed es

-- One message moves names from the requests to the attributions, in order.
abbrev Moves : Session → List Bytes → Outcome → Type 0
Moves s names o = s.pending_describe ++ names ≡ attributed (emitted o.0 []) ++ o.1.pending_describe

on_parse-Moves : (s : Session) (o : Option (Bytes × Bytes)) → Moves s [] (on_parse s o)
unfolding on_parse
on_parse-Moves s none = append-nil _
on_parse-Moves s (some _) = append-nil _

on_bind-Moves : (r : Rendering) (s : Session) (o : Option Bind) → Moves s [] (on_bind r s o)
unfolding on_bind
on_bind-Moves r s o = ground (arith, append-nil s.pending_describe)

on_describe-Moves :
    (s : Session) (o : Option (ℕ × Bytes)) → Moves s (described_by o) (on_describe s o)
unfolding on_describe
on_describe-Moves s o = ground (arith, append-nil s.pending_describe)

on_close-Moves : (s : Session) (o : Option (ℕ × Bytes)) → Moves s [] (on_close s o)
unfolding on_close
on_close-Moves s o = ground (arith, append-nil s.pending_describe)

on_query-Moves : (s : Session) (o : Option (Bytes × Bytes)) → Moves s [] (on_query s o)
unfolding on_query
on_query-Moves s o = ground (arith, append-nil s.pending_describe)

handle_backend-Moves : (s : Session) (m : Message) → Moves s [] (handle_backend s m)
unfolding handle_backend
handle_backend-Moves s m = ground (arith, append-nil s.pending_describe)

splice {ℓ} :
    {A : Type ℓ} (a b c x p y q : List A)
    → a ++ b ≡ x ++ p
    → p ++ c ≡ y ++ q
    → a ++ (b ++ c) ≡ (x ++ y) ++ q
splice a b c x p y q h k =
    sym (append_assoc a b c)
    ∙ ap (λ l. l ++ c) h
    ∙ append_assoc x p c
    ∙ ap (λ l. x ++ l) k
    ∙ sym (append_assoc x y q)

module _ (r : Rendering) where
  handle-Moves : (s : Session) (m : Message) → Moves s (asks (client m)) (handle r s m)
  unfolding handle
  handle-Moves s m = ground (
    arith,
    append-nil s.pending_describe,
    on_parse-Moves s (parse_parse m.body),
    on_bind-Moves r s (parse_bind m.body),
    on_describe-Moves s (parse_close m.body),
    on_close-Moves s (parse_close m.body),
    on_query-Moves s (cstring m.body),
  )

  receive-Moves : (s : Session) (i : Input) → Moves s (asks i) (receive r s i)
  unfolding receive
  receive-Moves s (client m) = handle-Moves s m
  receive-Moves s (server m) = handle_backend-Moves s m

  attributed-emitted :
      (o : Option Event) (es : List Event)
      → attributed (emitted o es) ≡ attributed (emitted o []) ++ attributed es
  attributed-emitted none es = refl
  attributed-emitted (some e) es = rw append-nil

  -- Descriptions are attributed first in, first out: the names outstanding at first and those that
  -- the client then asks about, in order, are the names that ParameterDescriptions are attributed
  -- to, in order, and behind them those still outstanding; however the messages interleave.
  pub attributed-receive_all :
      (s : Session) (is : List Input)
      → s.pending_describe ++ asked is
        ≡ attributed (receive_all r s is).0 ++ (receive_all r s is).1.pending_describe
  unfolding receive_all
  attributed-receive_all s [] = append-nil _
  attributed-receive_all s (i ∷ is) =
      let o = receive r s i in
      rw attributed-emitted (
        splice _ (asks i) _ (attributed (emitted o.0 [])) _ _ _ (receive-Moves s i)
          (attributed-receive_all o.1 is))
