-- ===== src/Capture/Session/Feed.antt =====
-- `FeedFrontend` and `FeedBackend` over whole streams.
use tenantguard.Base.{List, [], ap, arith, refl, subst, sym, ℕ, ◌++◌, ◌<◌, ◌∙◌, ◌∷◌, ◌≡◌}
use tenantguard.Base.Bytes.{Bytes}
use tenantguard.Capture.Framer.{
  Framer, Message, empty, encode_all, feed, feed_all, feed_loop, handle_all, next, next_in,
}
use tenantguard.Capture.Framer.Commute.{feed_all-put, handle_all-put}
use tenantguard.Capture.Framer.Header.{AllFit}
use tenantguard.Capture.Framer.Stream.{feed_all-encode_all, joined}
use tenantguard.Capture.Oid.{Rendering}
use tenantguard.Capture.Session.{
  Event, Session, feed_backend, feed_frontend, handle, handle_backend, on_bind, on_close,
  on_describe, on_parse, on_query, resolve_params,
}
use tenantguard.Capture.Wire.{be32}

-- The reads of one direction.
unfoldable pub feed_frontend_all : Rendering → Session → List Bytes → List Event × Session
feed_frontend_all r s [] = ([], s)
feed_frontend_all r s (c ∷ cs) =
    let (es, s') = feed_frontend r s c in
    let (rest, last) = feed_frontend_all r s' cs in (es ++ rest, last)

unfoldable pub feed_backend_all : Session → List Bytes → List Event × Session
feed_backend_all s [] = ([], s)
feed_backend_all s (c ∷ cs) =
    let (es, s') = feed_backend s c in
    let (rest, last) = feed_backend_all s' cs in (es ++ rest, last)

abbrev with_fr : Framer → Session → Session
with_fr f s = record s { fr = f }

abbrev with_bfr : Framer → Session → Session
with_bfr f s = record s { bfr = f }

-- No handler reads or writes a framer.
module _ (r : Rendering) (f : Framer) where
  handle-Blind :
      (s : Session) (m : Message)
      → handle r (with_fr f s) m ≡ ((handle r s m).0, with_fr f (handle r s m).1)
  unfolding handle on_parse on_bind on_describe on_close on_query resolve_params
  handle-Blind s m = ground arith

handle_backend-Blind :
    (f : Framer) (s : Session) (m : Message)
    → handle_backend (with_bfr f s) m ≡ ((handle_backend s m).0, with_bfr f (handle_backend s m).1)
unfolding handle_backend
handle_backend-Blind f s m = ground arith

-- The loop hands the handler a session whose framer is the one of the first read; it does not look.
feed_frontend_all_lem :
    (r : Rendering) (s : Session) (cs : List Bytes)
    → feed_frontend_all r s cs ≡ (
      (feed_all (handle r) s s.fr cs).0,
      with_fr (feed_all (handle r) s s.fr cs).2 (feed_all (handle r) s s.fr cs).1,
    )
unfolding feed_frontend_all feed_frontend feed_all
feed_frontend_all_lem r s [] = refl
feed_frontend_all_lem r s (c ∷ cs) =
    let (es, s', f) = feed (handle r) s s.fr c in
    rw (feed_frontend_all_lem r (with_fr f s') cs)
      (rw (feed_all-put (handle r) (with_fr f) (handle-Blind r f) s' f cs))

feed_backend_all_lem :
    (s : Session) (cs : List Bytes)
    → feed_backend_all s cs ≡ (
      (feed_all handle_backend s s.bfr cs).0,
      with_bfr (feed_all handle_backend s s.bfr cs).2 (feed_all handle_backend s s.bfr cs).1,
    )
unfolding feed_backend_all feed_backend feed_all
feed_backend_all_lem s [] = refl
feed_backend_all_lem s (c ∷ cs) =
    let (es, s', f) = feed handle_backend s s.bfr c in
    rw (feed_backend_all_lem (with_bfr f s') cs)
      (rw (feed_all-put handle_backend (with_bfr f) (handle_backend-Blind f) s' f cs))

from_empty :
    (r : Rendering) (s : Session) (cs : List Bytes) (ms : List Message)
    → AllFit ms
    → joined cs ≡ encode_all ms
    → feed_frontend_all r (with_fr empty s) cs ≡ handle_all (handle r) (with_fr empty s) ms
from_empty r s cs ms fits e =
    feed_frontend_all_lem r (with_fr empty s) cs
    ∙ rw (feed_all-encode_all (handle r) cs ms (with_fr empty s) fits e) refl
    ∙ sym (handle_all-put (handle r) (with_fr empty) (handle-Blind r empty) (with_fr empty s) ms)

from_empty_backend :
    (s : Session) (cs : List Bytes) (ms : List Message)
    → AllFit ms
    → joined cs ≡ encode_all ms
    → feed_backend_all (with_bfr empty s) cs ≡ handle_all handle_backend (with_bfr empty s) ms
from_empty_backend s cs ms fits e =
    feed_backend_all_lem (with_bfr empty s) cs
    ∙ rw (feed_all-encode_all handle_backend cs ms (with_bfr empty s) fits e) refl
    ∙ sym (
        handle_all-put handle_backend (with_bfr empty) (handle_backend-Blind empty)
          (with_bfr empty s) ms)

-- However a stream of whole messages from the client is cut into reads, feeding the reads one
-- after the other emits the events of the messages, in order, and leaves the session as handling
-- the messages one after the other does. The framer is empty at first, and each body fits the
-- length field of its message.
pub feed_frontend_all-handle_all :
    (r : Rendering) (s : Session) (cs : List Bytes) (ms : List Message)
    → s.fr ≡ empty
    → AllFit ms
    → joined cs ≡ encode_all ms
    → feed_frontend_all r s cs ≡ handle_all (handle r) s ms
feed_frontend_all-handle_all r s cs ms start fits e =
    subst (λ t. feed_frontend_all r t cs ≡ handle_all (handle r) t ms)
      (ap (λ f. with_fr f s) (sym start)) (from_empty r s cs ms fits e)

-- However a stream of whole messages from the server is cut into reads, feeding the reads one
-- after the other emits the events of the messages, in order, and leaves the session as handling
-- the messages one after the other does. The framer is empty at first, and each body fits the
-- length field of its message.
pub feed_backend_all-handle_all :
    (s : Session) (cs : List Bytes) (ms : List Message)
    → s.bfr ≡ empty
    → AllFit ms
    → joined cs ≡ encode_all ms
    → feed_backend_all s cs ≡ handle_all handle_backend s ms
feed_backend_all-handle_all s cs ms start fits e =
    subst (λ t. feed_backend_all t cs ≡ handle_all handle_backend t ms)
      (ap (λ f. with_bfr f s) (sym start)) (from_empty_backend s cs ms fits e)

-- A header whose length field is below 4 stops the read there: nothing is emitted, only the type
-- byte is dropped, and whatever follows stays in the buffer until another read arrives, though
-- it may hold whole messages.
pub feed_frontend_malformed :
    (r : Rendering) (s : Session) (chunk : Bytes) (t a b c d : ℕ) (rest : Bytes)
    → s.fr.buf ++ chunk ≡ t ∷ a ∷ b ∷ c ∷ d ∷ rest
    → be32 a b c d < 4
    → feed_frontend r s chunk ≡ ([], record s { fr = record { buf = a ∷ b ∷ c ∷ d ∷ rest } })
unfolding feed_frontend feed feed_loop next next_in
feed_frontend_malformed r s chunk t a b c d rest e short = ground arith
