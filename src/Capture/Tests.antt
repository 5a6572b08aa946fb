-- ===== src/Capture/Tests.antt =====
-- Concrete runs of internal/capture, where the hypotheses of its theorems hold.
use tenantguard.Base.{List, [], arith, false, none, refl, some, true, ◌++◌, ◌∷◌, ◌≡◌}
use tenantguard.Base.Assoc.{lookup}
use tenantguard.Base.Bytes.{Bytes, codes}
use tenantguard.Capture.Framer.{Framer, Message, encode, encode_all, feed_loop, handle_all}
use tenantguard.Capture.Framer.Fuel.{feed_loop-fuel}
use tenantguard.Capture.Message.{Bind, parse_bind, parse_close, parse_parse}
use tenantguard.Capture.Message.RoundTrip.{parse_bind-put_bind}
use tenantguard.Capture.Message.Sent.{IsSendable, SentBind, params_of, put_bind}
use tenantguard.Capture.Oid.{Rendering}
use tenantguard.Capture.Session.{
  Input, Session, client, handle, new_session, no_note, oids_of, receive, receive_all,
  resolve_params, server, unresolvable,
}
use tenantguard.Capture.Session.Feed.{feed_frontend_all, feed_frontend_all-handle_all}
use tenantguard.Capture.Session.History.{bind_resolves, bind_unresolved, reading}
use tenantguard.Capture.Session.Queue.{asked, attributed, attributed-receive_all}
use tenantguard.Capture.Session.Resolve.{AllSound, resolve_params-AllSound}
use tenantguard.Capture.Wire.{cstring, put_u32}

abbrev rendering : Rendering
rendering = record { float4 = λ n. []; float8 = λ n. []; date = λ n. []; timestamp = λ n. [] }

abbrev start : Session
start = new_session 7

abbrev name_s : Bytes
name_s = b's' ∷ []

abbrev select_1 : Bytes
select_1 = codes "SELECT 1"

-- Parse "s" as "SELECT 1", with no parameter types.
abbrev parse_s : Message
parse_s = record { typ = b'P'; body = b's' ∷ 0 ∷ select_1 ++ 0 ∷ 0 ∷ 0 ∷ [] }

abbrev close_s : Message
close_s = record { typ = b'C'; body = b'S' ∷ b's' ∷ 0 ∷ [] }

abbrev describe_s : Message
describe_s = record { typ = b'D'; body = b'S' ∷ b's' ∷ 0 ∷ [] }

-- One parameter, of the type int4.
abbrev int4_described : Message
int4_described = record { typ = b't'; body = 0 ∷ 1 ∷ 0 ∷ 0 ∷ 0 ∷ 23 ∷ [] }

abbrev sent : SentBind
sent = record {
  portal = [];
  stmt = name_s;
  formats = 1 ∷ [];
  values = some (0 ∷ 0 ∷ 0 ∷ 42 ∷ []) ∷ none ∷ [];
}

abbrev read : Bind
read = record { portal = []; stmt = name_s; params = params_of (1 ∷ []) 0 sent.values }

abbrev bind_s : Message
bind_s = record { typ = b'B'; body = put_bind sent }

sent-IsSendable : IsSendable sent
sent-IsSendable = record {
  portal_text = tt;
  stmt_text = (omega arith, tt);
  formats_count = omega arith;
  formats_short = (omega arith, tt);
  values_count = omega arith;
  values_fit = (omega arith, tt);
}

parse_bind-put_bind_example : parse_bind (put_bind sent) ≡ some read
parse_bind-put_bind_example = parse_bind-put_bind sent sent-IsSendable

bind_resolves_example :
    reading
      (receive rendering
        (receive_all rendering
          (receive rendering start (client parse_s)).1
          (server int4_described ∷ [])).1
        (client bind_s)).0
    ≡ some (true, select_1, no_note)
unfolding parse_parse cstring codes
bind_resolves_example =
    bind_resolves rendering name_s start parse_s select_1 (server int4_described ∷ []) bind_s read
      refl refl (tt, tt) refl parse_bind-put_bind_example refl

bind_unresolved_example :
    reading
      (receive rendering
        (receive_all rendering
          (receive rendering start (client close_s)).1
          (server int4_described ∷ [])).1
        (client bind_s)).0
    ≡ some (false, [], unresolvable name_s)
unfolding parse_close cstring
bind_unresolved_example =
    bind_unresolved rendering name_s start close_s (server int4_described ∷ []) bind_s read refl
      refl (tt, tt) refl parse_bind-put_bind_example refl

abbrev exchange : List Input
exchange = client describe_s ∷ server int4_described ∷ client describe_s ∷ []

attributed-receive_all_example :
    start.pending_describe ++ asked exchange
    ≡ attributed (receive_all rendering start exchange).0
      ++ (receive_all rendering start exchange).1.pending_describe
attributed-receive_all_example = attributed-receive_all rendering start exchange

abbrev described_session : Session
described_session = record start { param_oids = (name_s, 23 ∷ 25 ∷ []) ∷ [] }

resolve_params-AllSound_example :
    AllSound rendering
      (oids_of (lookup name_s described_session.param_oids))
      2
      0
      read.params
      (resolve_params rendering described_session name_s read.params)
resolve_params-AllSound_example =
    resolve_params-AllSound rendering described_session name_s read.params

-- Close "s", cut within its header.
abbrev reads : List Bytes
reads = (b'C' ∷ 0 ∷ 0 ∷ []) ∷ (0 ∷ 7 ∷ b'S' ∷ b's' ∷ []) ∷ (0 ∷ []) ∷ []

feed_frontend_all-handle_all_example :
    feed_frontend_all rendering start reads ≡ handle_all (handle rendering) start (close_s ∷ [])
unfolding encode_all encode put_u32
feed_frontend_all-handle_all_example =
    feed_frontend_all-handle_all rendering start reads (close_s ∷ []) refl (omega arith, tt) refl

abbrev buffered : Framer
buffered = record { buf = b'C' ∷ 0 ∷ 0 ∷ 0 ∷ 7 ∷ b'S' ∷ b's' ∷ 0 ∷ [] }

feed_loop-fuel_example :
    feed_loop (handle rendering) 9 start buffered ≡ feed_loop (handle rendering) 20 start buffered
feed_loop-fuel_example =
    feed_loop-fuel (handle rendering) 9 20 start buffered (omega arith) (omega arith)
