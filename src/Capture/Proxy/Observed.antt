-- ===== src/Capture/Proxy/Observed.antt =====
-- internal/capture/proxy.go: what the two loops of `handle` forward and what they record.
use mathlib.Core.List.{Perm}
use mathlib.Core.List.Perm
use tenantguard.Base.{List, [], ap, inl, refl, subst, ℕ, ◌++◌, ◌∙◌, ◌∷◌, ◌≡◌}
use tenantguard.Base.Bytes.{Bytes}
use tenantguard.Capture.Oid.{Rendering}
use tenantguard.Capture.Proxy.{
  Connection, Reached, Step, client_copies, client_cut, client_emits, client_ends, client_feeds,
  opened, server_copies, server_cut, server_emits, server_ends, server_feeds, stepped,
}
use tenantguard.Capture.Proxy.Forwards.{
  Forwards, client_emits-events, client_feeds-events, cut_off-Forwards, ended-Forwards,
  fed_with-Forwards, forwarded-Forwards, server_emits-events, server_feeds-events,
}
use tenantguard.Capture.Session.{Event, Session, feed_backend, feed_frontend, new_session}
use tenantguard.Differ.Rows.{part}

-- Bytes that one of the loops fed to the session.
pub data Feed : Type 0 where
  client_turn server_turn : Bytes → Feed

-- The bytes that came from the client, of turns with the newest first.
unfoldable pub client_bytes : List Feed → Bytes
client_bytes [] = []
client_bytes (client_turn b ∷ ts) = client_bytes ts ++ b
client_bytes (server_turn b ∷ ts) = client_bytes ts

unfoldable pub server_bytes : List Feed → Bytes
server_bytes [] = []
server_bytes (client_turn b ∷ ts) = server_bytes ts
server_bytes (server_turn b ∷ ts) = server_bytes ts ++ b

abbrev pub then_events : List Event → List Event × Session → List Event × Session
then_events es (es', s) = (es ++ es', s)

module _ (r : Rendering) (id : ℕ) where
  abbrev pub turn : Session → Feed → List Event × Session
  turn s (client_turn b) = feed_frontend r s b
  turn s (server_turn b) = feed_backend s b

  -- A session fed by nobody else.
  unfoldable pub alone : List Feed → List Event × Session
  alone [] = ([], new_session id)
  alone (t ∷ ts) = let (es, s) = alone ts in then_events es (turn s t)

  pub record Observed (s : Connection) : Type 0 where
    pub turns : List Feed
    pub same_session : s.sess ≡ (alone turns).1
    pub events : Perm (s.sink ++ (s.client_loop.waiting ++ s.server_loop.waiting)) (alone turns).0
    pub from_client : Forwards (client_bytes turns) s.client_loop
    pub from_server : Forwards (server_bytes turns) s.server_loop

  -- A step that feeds nothing.
  unfed-Observed :
      {s : Connection} (o : Observed s) (t : Connection)
      → t.sess ≡ s.sess
      → Perm (t.sink ++ (t.client_loop.waiting ++ t.server_loop.waiting)) (alone o.turns).0
      → Forwards (client_bytes o.turns) t.client_loop
      → Forwards (server_bytes o.turns) t.server_loop
      → Observed t
  unfed-Observed o t same events from_client from_server = record {
    turns = o.turns;
    same_session = same ∙ o.same_session;
    events = events;
    from_client = from_client;
    from_server = from_server;
  }

  -- A step changes the events at most by passing on the first that waits, or by those of a feed.
  Step-Observed : {s t : Connection} → Observed s → Step r s t → Observed t
  unfolding alone client_bytes server_bytes
  Step-Observed {s} o (client_copies b ready) =
      unfed-Observed o _ refl o.events (forwarded-Forwards _ b s.client_loop ready o.from_client)
        o.from_server
  Step-Observed {s} o (client_cut part lost ready) =
      unfed-Observed o _ refl o.events
        (cut_off-Forwards _ part lost s.client_loop ready o.from_client) o.from_server
  Step-Observed {s} o (client_ends ready) =
      unfed-Observed o _ refl o.events (ended-Forwards _ s.client_loop ready o.from_client)
        o.from_server
  Step-Observed {s} o (client_feeds some_bytes none_waits) =
      let b = s.client_loop.unfed in
      let es = (feed_frontend r s.sess b).0 in
      let all = (alone o.turns).0 in
      let before : Perm (s.sink ++ ([] ++ s.server_loop.waiting)) all =
        subst (λ x. Perm (s.sink ++ (x ++ s.server_loop.waiting)) all) none_waits o.events in
      record {
        turns = client_turn b ∷ o.turns;
        same_session = ap (λ x. (feed_frontend r x b).1) o.same_session;
        events =
            subst
              (λ x. Perm (s.sink ++ (es ++ s.server_loop.waiting)) (all ++ (feed_frontend r x b).0))
              o.same_session (client_feeds-events s.sink es s.server_loop.waiting all before);
        from_client =
            fed_with-Forwards (client_bytes o.turns) es s.client_loop some_bytes o.from_client;
        from_server = o.from_server;
      }
  Step-Observed {s} o (client_emits e es waits) =
      unfed-Observed o _ refl
        (client_emits-events s.sink e es s.server_loop.waiting _ (
          subst (λ x. Perm (s.sink ++ (x ++ s.server_loop.waiting)) (alone o.turns).0) waits
            o.events))
        o.from_client o.from_server
  Step-Observed {s} o (server_copies b ready) =
      unfed-Observed o _ refl o.events o.from_client
        (forwarded-Forwards _ b s.server_loop ready o.from_server)
  Step-Observed {s} o (server_cut part lost ready) =
      unfed-Observed o _ refl o.events o.from_client
        (cut_off-Forwards _ part lost s.server_loop ready o.from_server)
  Step-Observed {s} o (server_ends ready) =
      unfed-Observed o _ refl o.events o.from_client
        (ended-Forwards _ s.server_loop ready o.from_server)
  Step-Observed {s} o (server_feeds some_bytes none_waits) =
      let b = s.server_loop.unfed in
      let es = (feed_backend s.sess b).0 in
      let all = (alone o.turns).0 in
      let before : Perm (s.sink ++ (s.client_loop.waiting ++ [])) all =
        subst (λ x. Perm (s.sink ++ (s.client_loop.waiting ++ x)) all) none_waits o.events in
      record {
        turns = server_turn b ∷ o.turns;
        same_session = ap (λ x. (feed_backend x b).1) o.same_session;
        events =
            subst
              (λ x. Perm (s.sink ++ (s.client_loop.waiting ++ es)) (all ++ (feed_backend x b).0))
              o.same_session (server_feeds-events s.sink s.client_loop.waiting es all before);
        from_client = o.from_client;
        from_server =
            fed_with-Forwards (server_bytes o.turns) es s.server_loop some_bytes o.from_server;
      }
  Step-Observed {s} o (server_emits e es waits) =
      unfed-Observed o _ refl
        (server_emits-events s.sink e s.client_loop.waiting es _ (
          subst (λ x. Perm (s.sink ++ (s.client_loop.waiting ++ x)) (alone o.turns).0) waits
            o.events))
        o.from_client o.from_server

  -- In whatever order the two loops of a connection take their steps, each has written what it read, all
  -- of it and in order, unless a write was cut off, which ended the loop; the session is the one that a
  -- sequence of feeds of these bytes gives, but for those that wait to be fed; and the events emitted,
  -- with those waiting to be, are the events of these feeds.
  pub Reached-Observed : {s : Connection} → Reached r id s → Observed s
  unfolding alone client_bytes server_bytes
  Reached-Observed opened = record {
    turns = [];
    same_session = refl;
    events = Perm.refl [];
    from_client = inl (refl, refl);
    from_server = inl (refl, refl);
  }
  Reached-Observed (stepped before step) = Step-Observed (Reached-Observed before) step
