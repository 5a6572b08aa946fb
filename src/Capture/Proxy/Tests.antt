-- ===== src/Capture/Proxy/Tests.antt =====
-- A connection's startup, and a description that overtakes the request for it.
use tenantguard.Base.{[], arith, false, map, refl, true, ◌++◌, ◌∷◌, ◌≡◌}
use tenantguard.Base.Bytes.{Bytes}
use tenantguard.Capture.Framer.{feed, next, next_in}
use tenantguard.Capture.Message.{parse_close, parse_parameter_description}
use tenantguard.Capture.Oid.{Rendering}
use tenantguard.Capture.Proxy.{
  Connection, Reached, client_copies, fed_with, forwarded, fresh_loop, is_encryption_request,
  opened, opened_conn, server_copies, server_feeds, started, startup, stepped,
}
use tenantguard.Capture.Proxy.Complete.{startup-completes}
use tenantguard.Capture.Proxy.Observed.{Observed, Reached-Observed}
use tenantguard.Capture.Proxy.Startup.{IsPacket, Passed, joined, startup-Passed}
use tenantguard.Capture.Session.{
  feed_backend, feed_frontend, handle, handle_backend, new_session, no_outstanding_describe,
  on_describe,
}
use tenantguard.Capture.Wire.{cstring, u16, u32}

abbrev plain_rendering : Rendering
plain_rendering = record { float4 = λ n. []; float8 = λ n. []; date = λ n. []; timestamp = λ n. [] }

abbrev ssl_request : Bytes
ssl_request = 0 ∷ 0 ∷ 0 ∷ 8 ∷ 4 ∷ 210 ∷ 22 ∷ 47 ∷ []

-- Version 3.0 with no parameters.
abbrev startup_packet : Bytes
startup_packet = 0 ∷ 0 ∷ 0 ∷ 9 ∷ 0 ∷ 3 ∷ 0 ∷ 0 ∷ 0 ∷ []

ssl_request-IsPacket : IsPacket true ssl_request
unfolding u32 is_encryption_request
ssl_request-IsPacket = record {
  len = 8;
  body = 4 ∷ 210 ∷ 22 ∷ 47 ∷ [];
  field = refl;
  whole = refl;
  at_least = omega arith;
  at_most = omega arith;
  asks = refl;
}

startup_packet-IsPacket : IsPacket false startup_packet
unfolding u32 is_encryption_request
startup_packet-IsPacket = record {
  len = 9;
  body = 0 ∷ 3 ∷ 0 ∷ 0 ∷ 0 ∷ [];
  field = refl;
  whole = refl;
  at_least = omega arith;
  at_most = omega arith;
  asks = refl;
}

startup-completes_example :
    startup (λ i. true) true 20 0 (ssl_request ++ (startup_packet ++ (b'Q' ∷ [])))
    ≡ (b'N' ∷ [], started startup_packet (b'Q' ∷ []))
unfolding joined
startup-completes_example =
    startup-completes (ssl_request ∷ []) startup_packet (b'Q' ∷ []) 20 0 (ssl_request-IsPacket, tt)
      startup_packet-IsPacket (omega arith)

startup-Passed_example :
    Passed
      (ssl_request ++ startup_packet)
      (startup (λ i. true) true 20 0 (ssl_request ++ startup_packet))
startup-Passed_example = startup-Passed (λ i. true) true 20 0 (ssl_request ++ startup_packet)

abbrev describe : Bytes
describe = b'D' ∷ 0 ∷ 0 ∷ 0 ∷ 7 ∷ b'S' ∷ b's' ∷ 0 ∷ []

abbrev described : Bytes
described = b't' ∷ 0 ∷ 0 ∷ 0 ∷ 10 ∷ 0 ∷ 1 ∷ 0 ∷ 0 ∷ 0 ∷ 23 ∷ []

abbrev asked : Connection
asked = record (opened_conn 7) { client_loop = forwarded describe fresh_loop }

abbrev overtaken : Connection
overtaken =
    let (es, session) = feed_backend (new_session 7) described in
    record asked { sess = session; server_loop = fed_with es (forwarded described fresh_loop) }

-- The server's answer is fed to the session before the request, which is written first.
overtaken-Reached : Reached plain_rendering 7 overtaken
overtaken-Reached =
    stepped
      (stepped (stepped opened (client_copies describe (refl, refl, refl)))
        (server_copies described (refl, refl, refl)))
      (server_feeds (λ e. cc) refl)

Reached-Observed_example : Observed plain_rendering 7 overtaken
Reached-Observed_example = Reached-Observed plain_rendering 7 overtaken-Reached

-- The description is attributed to no statement, and the statement stays in the queue.
lost_description :
    let late = (feed_frontend plain_rendering overtaken.sess describe).1 in
    (map (λ e. e.note) overtaken.server_loop.waiting ≡ no_outstanding_describe ∷ [])
    × (late.pending_describe ≡ (b's' ∷ []) ∷ [])
unfolding feed_backend feed next next_in handle_backend parse_parameter_description u16 u32
    feed_frontend handle on_describe parse_close cstring
lost_description = (refl, refl)
