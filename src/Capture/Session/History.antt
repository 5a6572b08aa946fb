-- ===== src/Capture/Session/History.antt =====
-- Which statement a Bind means: the history of one connection, both directions interleaved.
use mathlib.Core.Option
use tenantguard.Base.{
  Bool, List, Option, [], ap, arith, false, none, refl, some, true, ℕ, ◌∙◌, ◌∷◌, ◌≡◌, ◌≢◌,
}
use tenantguard.Base.Assoc.{lookup, lookup-erase, lookup-insert}
use tenantguard.Base.Bytes.{Bytes, equal_iff, equal_refl}
use tenantguard.Capture.Framer.{Message}
use tenantguard.Capture.Message.{Bind, parse_bind, parse_close, parse_parse}
use tenantguard.Capture.Oid.{Rendering}
use tenantguard.Capture.Session.{
  Event, Input, Note, Session, client, handle, handle_backend, no_note, on_bind, on_close,
  on_describe, on_parse, on_query, receive, receive_all, server, unresolvable,
}
use tenantguard.Capture.Wire.{cstring}

-- This message neither parses nor closes the statement.
abbrev pub Keeps : Bytes → Input → Type 0
Keeps name (client m) =
    ((sql : Bytes) → m.typ ≡ b'P' → parse_parse m.body ≢ some (name, sql))
    × (m.typ ≡ b'C' → parse_close m.body ≢ some (b'S', name))
Keeps name (server m) = Unit

abbrev pub AllKeep : Bytes → List Input → Type 0
AllKeep name [] = Unit
AllKeep name (i ∷ is) = Keeps name i × AllKeep name is

-- What a consumer reads from the event of a Bind.
abbrev pub reading : Option Event → Option (Bool × Bytes × Note)
reading = Option.map (λ e. (e.resolved, e.sql, e.note))

lookup-on_parse :
    (s : Session) (o : Option (Bytes × Bytes)) (name : Bytes)
    → ((sql : Bytes) → o ≢ some (name, sql))
    → lookup name (on_parse s o).1.stmts ≡ lookup name s.stmts
unfolding on_parse
lookup-on_parse s none name h = refl
lookup-on_parse s (some (n, sql)) name h =
    ground (arith, lookup-insert n name sql s.stmts, equal_iff n name, h sql)

lookup-on_close :
    (s : Session) (o : Option (ℕ × Bytes)) (name : Bytes)
    → o ≢ some (b'S', name)
    → lookup name (on_close s o).1.stmts ≡ lookup name s.stmts
unfolding on_close
lookup-on_close s none name h = refl
lookup-on_close s (some (k, n)) name h =
    ground (arith, lookup-erase n name s.stmts, equal_iff n name)

stmts-on_bind : (r : Rendering) (s : Session) (o : Option Bind) → (on_bind r s o).1.stmts ≡ s.stmts
unfolding on_bind
stmts-on_bind r s o = ground arith

stmts-on_describe : (s : Session) (o : Option (ℕ × Bytes)) → (on_describe s o).1.stmts ≡ s.stmts
unfolding on_describe
stmts-on_describe s o = ground arith

stmts-on_query : (s : Session) (o : Option (Bytes × Bytes)) → (on_query s o).1.stmts ≡ s.stmts
unfolding on_query
stmts-on_query s o = ground arith

stmts-handle_backend : (s : Session) (m : Message) → (handle_backend s m).1.stmts ≡ s.stmts
unfolding handle_backend
stmts-handle_backend s m = ground arith

module _ (r : Rendering) (name : Bytes) where
  lookup-handle :
      (s : Session) (m : Message)
      → Keeps name (client m)
      → lookup name (handle r s m).1.stmts ≡ lookup name s.stmts
  unfolding handle
  lookup-handle s m k = ground (
    arith,
    lookup-on_parse s (parse_parse m.body) name,
    stmts-on_bind r s (parse_bind m.body),
    stmts-on_describe s (parse_close m.body),
    lookup-on_close s (parse_close m.body) name,
    stmts-on_query s (cstring m.body),
    k,
  )

  lookup-receive :
      (s : Session) (i : Input)
      → Keeps name i
      → lookup name (receive r s i).1.stmts ≡ lookup name s.stmts
  unfolding receive
  lookup-receive s (client m) k = lookup-handle s m k
  lookup-receive s (server m) k = ap (lookup name) (stmts-handle_backend s m)

  lookup-receive_all :
      (s : Session) (is : List Input)
      → AllKeep name is
      → lookup name (receive_all r s is).1.stmts ≡ lookup name s.stmts
  unfolding receive_all
  lookup-receive_all s [] k = refl
  lookup-receive_all s (i ∷ is) k =
      lookup-receive_all (receive r s i).1 is k.1 ∙ lookup-receive s i k.0

  -- The event of a Bind tells what the table of statements holds under its name.
  abbrev told : Option Bytes → Option (Bool × Bytes × Note)
  told none = some (false, [], unresolvable name)
  told (some sql) = some (true, sql, no_note)

  reading-bind :
      (s : Session) (m : Message) (b : Bind)
      → m.typ ≡ b'B'
      → parse_bind m.body ≡ some b
      → b.stmt ≡ name
      → reading (receive r s (client m)).0 ≡ told (lookup name s.stmts)
  unfolding receive handle on_bind
  reading-bind s m b t p n = ground arith

  lookup_parsed :
      (s : Session) (m : Message) (sql : Bytes)
      → m.typ ≡ b'P'
      → parse_parse m.body ≡ some (name, sql)
      → lookup name (receive r s (client m)).1.stmts ≡ some sql
  unfolding receive handle on_parse
  lookup_parsed s m sql t p = ground (arith, lookup-insert name name sql s.stmts, equal_refl name)

  lookup_closed :
      (s : Session) (m : Message)
      → m.typ ≡ b'C'
      → parse_close m.body ≡ some (b'S', name)
      → lookup name (receive r s (client m)).1.stmts ≡ none
  unfolding receive handle on_close
  lookup_closed s m t p = ground (arith, lookup-erase name name s.stmts, equal_refl name)

  -- A Bind whose statement was parsed on the connection, and neither parsed again nor closed
  -- since, in whatever order the messages of the two directions came between, is recorded as
  -- resolved, with the SQL text of that Parse and no note.
  pub bind_resolves :
      (s : Session) (m : Message) (sql : Bytes) (is : List Input) (mb : Message) (b : Bind)
      → m.typ ≡ b'P'
      → parse_parse m.body ≡ some (name, sql)
      → AllKeep name is
      → mb.typ ≡ b'B'
      → parse_bind mb.body ≡ some b
      → b.stmt ≡ name
      → reading (receive r (receive_all r (receive r s (client m)).1 is).1 (client mb)).0
        ≡ some (true, sql, no_note)
  bind_resolves s m sql is mb b t p k t' p' n =
      reading-bind _ mb b t' p' n ∙ ap told (lookup-receive_all _ is k ∙ lookup_parsed s m sql t p)

  -- A Bind whose statement was closed on the connection and not parsed again since is recorded as
  -- unresolved: it carries no SQL text, and its note names the statement.
  pub bind_unresolved :
      (s : Session) (m : Message) (is : List Input) (mb : Message) (b : Bind)
      → m.typ ≡ b'C'
      → parse_close m.body ≡ some (b'S', name)
      → AllKeep name is
      → mb.typ ≡ b'B'
      → parse_bind mb.body ≡ some b
      → b.stmt ≡ name
      → reading (receive r (receive_all r (receive r s (client m)).1 is).1 (client mb)).0
        ≡ some (false, [], unresolvable name)
  bind_unresolved s m is mb b t p k t' p' n =
      reading-bind _ mb b t' p' n ∙ ap told (lookup-receive_all _ is k ∙ lookup_closed s m t p)
