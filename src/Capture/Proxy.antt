-- ===== src/Capture/Proxy.antt =====
-- internal/capture/proxy.go: the startup exchange of a connection and the two copying loops. What the
-- peers send and whether they take what is written is the input.
pub mod Startup
pub mod Complete
pub mod Forwards
pub mod Observed
mod Tests
use tenantguard.Base.{
  Bool, List, Option, [], drop, false, if◌then◌else◌, length, ltb, none, some, suc, take, true,
  zero, ℕ, ◌&&◌, ◌++◌, ◌+◌, ◌-◌, ◌==◌, ◌||◌, ◌∷◌, ◌≡◌, ◌≢◌,
}
use tenantguard.Base.Bytes.{Bytes}
use tenantguard.Capture.Oid.{Rendering}
use tenantguard.Capture.Session.{Event, Session, feed_backend, feed_frontend, new_session}
use tenantguard.Capture.Wire.{u32}

-- What ends a startup: `io.ReadFull` or a write that fails, or a length out of bounds.
pub data StartupError : Type 0 where
  read_length read_body client_write server_write : StartupError
  implausible : ℕ → StartupError

-- A startup's end: an error, or the packet that the server was sent and what the client sends next.
pub data Started : Type 0 where
  broken : StartupError → Started
  started : Bytes → Bytes → Started

abbrev is_request_code : Option (ℕ × Bytes) → Bool
is_request_code none = false
is_request_code (some (code, _)) = code == 80877103 || code == 80877104

-- The packet of an `sslRequestCode` or a `gssRequestCode`.
unfoldable pub is_encryption_request : ℕ → Bytes → Bool
unfolding u32
is_encryption_request len body = len == 8 && is_request_code (u32 body)

module _ (client_takes : ℕ → Bool) (server_takes : Bool) where
  -- A packet by its length, where `again` goes on behind it.
  abbrev pub take_packet :
      ℕ → (Bytes → Bytes × Started) → Bytes → Option (ℕ × Bytes) → Bytes × Started
  take_packet k again c none = ([], broken read_length)
  take_packet k again c (some (len, after)) =
      let body = take (len - 4) after in
      let later = again (drop (len - 4) after) in
      if ltb len 8 || ltb 1048576 len
      then ([], broken (implausible len))
      else if ltb (length after) (len - 4)
      then ([], broken read_body)
      else if is_encryption_request len body
      then if client_takes k then (b'N' ∷ later.0, later.1) else ([], broken client_write)
      else (
        [],
        if server_takes
            then started (take 4 c ++ body) (drop (len - 4) after)
            else broken server_write,
      )

  -- `startup` on the bytes that the client sends, with the bytes it is answered: `client_takes` tells
  -- of the k-th refusal whether it is taken, `server_takes` whether the server takes the packet. Each
  -- turn reads a byte at least, so that one turn more than there are bytes is enough.
  unfoldable pub startup : ℕ → ℕ → Bytes → Bytes × Started
  unfolding u32 is_encryption_request
  startup zero k c = ([], broken read_length)
  startup (suc n) k c = take_packet k (λ rest. startup n (k + 1) rest) c (u32 c)

-- The two loops of `handle` on one session: what each has read and written, the bytes written that the
-- session was not fed yet, the events that were not emitted yet, and whether the loop still runs.
pub record Loop : Type 0 where
  pub read : Bytes
  pub wrote : Bytes
  pub unfed : Bytes
  pub waiting : List Event
  pub runs : Bool

pub record Connection : Type 0 where
  pub sess : Session
  pub client_loop : Loop
  pub server_loop : Loop
  pub sink : List Event

abbrev pub fresh_loop : Loop
fresh_loop = record { read = []; wrote = []; unfed = []; waiting = []; runs = true }

abbrev pub opened_conn : ℕ → Connection
opened_conn id = record {
  sess = new_session id;
  client_loop = fresh_loop;
  server_loop = fresh_loop;
  sink = [];
}

-- A read whose bytes are written whole.
abbrev pub forwarded : Bytes → Loop → Loop
forwarded b l = record l { read = l.read ++ b; wrote = l.wrote ++ b; unfed = b }

-- A read of which only a part is written, upon which the loop ends.
abbrev pub cut_off : Bytes → Bytes → Loop → Loop
cut_off part lost l = record l {
  read = l.read ++ (part ++ lost);
  wrote = l.wrote ++ part;
  runs = false;
}

abbrev pub fed_with : List Event → Loop → Loop
fed_with es l = record l { unfed = []; waiting = es }

abbrev pub emitted_one : List Event → Loop → Loop
emitted_one es l = record l { waiting = es }

abbrev pub ended : Loop → Loop
ended l = record l { runs = false }

-- A loop that is ready to read.
abbrev pub IsReady : Loop → Type 0
IsReady l = (l.runs ≡ true) × (l.unfed ≡ []) × (l.waiting ≡ [])

-- A step of the loop from the client to the server, or of the other one, in any order.
pub data Step (r : Rendering) (s : Connection) : Connection → Type 0 where
  client_copies :
      (b : Bytes)
      → IsReady s.client_loop
      → Step r s (record s { client_loop = forwarded b s.client_loop })
  client_cut :
      (part lost : Bytes)
      → IsReady s.client_loop
      → Step r s (record s { client_loop = cut_off part lost s.client_loop })
  client_ends : IsReady s.client_loop → Step r s (record s { client_loop = ended s.client_loop })
  client_feeds :
      s.client_loop.unfed ≢ []
      → s.client_loop.waiting ≡ []
      → Step r s (
          let (es, session) = feed_frontend r s.sess s.client_loop.unfed in
          record s { sess = session; client_loop = fed_with es s.client_loop })
  client_emits :
      (e : Event) (es : List Event)
      → s.client_loop.waiting ≡ e ∷ es
      → Step r s
          (record s { client_loop = emitted_one es s.client_loop; sink = s.sink ++ (e ∷ []) })
  server_copies :
      (b : Bytes)
      → IsReady s.server_loop
      → Step r s (record s { server_loop = forwarded b s.server_loop })
  server_cut :
      (part lost : Bytes)
      → IsReady s.server_loop
      → Step r s (record s { server_loop = cut_off part lost s.server_loop })
  server_ends : IsReady s.server_loop → Step r s (record s { server_loop = ended s.server_loop })
  server_feeds :
      s.server_loop.unfed ≢ []
      → s.server_loop.waiting ≡ []
      → Step r s (
          let (es, session) = feed_backend s.sess s.server_loop.unfed in
          record s { sess = session; server_loop = fed_with es s.server_loop })
  server_emits :
      (e : Event) (es : List Event)
      → s.server_loop.waiting ≡ e ∷ es
      → Step r s
          (record s { server_loop = emitted_one es s.server_loop; sink = s.sink ++ (e ∷ []) })

-- What is reached from a connection behind its startup.
pub data Reached (r : Rendering) (id : ℕ) : Connection → Type 0 where
  opened : Reached r id (opened_conn id)
  stepped : {s t : Connection} → Reached r id s → Step r s t → Reached r id t
