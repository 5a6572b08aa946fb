-- ===== src/Capture/Framer/Stream.antt =====
-- Reassembly: the messages read do not depend on how the stream is cut into reads.
use mathlib.Core.List.{append-eq-nil_iff}
use tenantguard.Base.{
  List, Option, [], append-nil, append_assoc, arith, length, none, refl, some, suc, zero, ℕ, ◌++◌,
  ◌<◌, ◌∙◌, ◌∷◌, ◌≡◌,
}
use tenantguard.Base.Bytes.{Bytes}
use tenantguard.Capture.Framer.{
  Framer, Message, empty, encode_all, feed, feed_all, feed_loop, handle_all, next, next_in,
}
use tenantguard.Capture.Framer.Header.{
  AllFit, framed, malformed, next_in-encode_all, outcome, waiting,
}

abbrev pub joined : List Bytes → Bytes
joined [] = []
joined (c ∷ cs) = c ++ joined cs

-- The whole messages at the head of a buffer, and the bytes behind them, which hold none.
data Parses (t : Bytes) : Bytes → List Message → Type 0 where
  stop : {b : Bytes} → b ≡ t → next_in b ≡ (none, b) → Parses t b []
  more :
      {b b' : Bytes} {m : Message} {ms : List Message}
      → next_in b ≡ (some m, b')
      → length b' < length b
      → Parses t b' ms
      → Parses t b (m ∷ ms)

-- The messages that a part of a stream completes, and what is left of the stream.
record Cut (b r : Bytes) (ms : List Message) : Type 0 where
  tail : Bytes
  now : List Message
  later : List Message
  parses : Parses tail b now
  splits : ms ≡ now ++ later
  rests : tail ++ r ≡ encode_all later
  fits : AllFit later

Cut-nil : (b r : Bytes) → b ++ r ≡ encode_all [] → Cut b r []
unfolding encode_all next_in
Cut-nil b r e =
    let parts = append-eq-nil_iff.0 e in
    record {
      tail = [];
      now = [];
      later = [];
      parses = stop parts.0 (rw parts.0);
      splits = refl;
      rests = parts.1;
      fits = tt;
    }

Cut-cons :
    (m m' : Message) (ms : List Message) (b rest r : Bytes)
    → next_in b ≡ (some m', rest)
    → length rest < length b
    → m' ≡ m
    → Cut rest r ms
    → Cut b r (m ∷ ms)
Cut-cons m m' ms b rest r n l e c = record {
  tail = c.tail;
  now = m' ∷ c.now;
  later = c.later;
  parses = more n l c.parses;
  splits = cc (e, c.splits);
  rests = c.rests;
  fits = c.fits;
}

cut : (ms : List Message) (b r : Bytes) → AllFit ms → b ++ r ≡ encode_all ms → Cut b r ms
cut [] b r fits e = Cut-nil b r e
cut (m ∷ ms) b r fits e =
    let whole = next_in-encode_all m ms (b ++ r) fits.0 e in
    elim (outcome b) [
      | framed m' rest n l ahead ↦
          Cut-cons m m' ms b rest r n l (cc (ahead r, whole))
            (cut ms rest r fits.1 (cc (ahead r, whole)))
      | waiting w ↦ record {
        tail = b;
        now = [];
        later = m ∷ ms;
        parses = stop refl w;
        splits = refl;
        rests = e;
        fits = fits;
      }
      | malformed stuck ↦ absurd (cc (stuck r, whole))
    ]

Parses-waits : {t b : Bytes} {ms : List Message} → Parses t b ms → next_in t ≡ (none, t)
Parses-waits (stop e w) = rw e at w
Parses-waits (more n l p) = Parses-waits p

module _ {ℓ} {S E : Type ℓ} (handle : S → Message → Option E × S) where
  loop-Parses :
      {t b : Bytes} {ms : List Message}
      → Parses t b ms
      → (fuel : ℕ) (s : S) → length b < fuel
      → feed_loop handle fuel s (record { buf = b })
        ≡ ((handle_all handle s ms).0, (handle_all handle s ms).1, record { buf = t })
  unfolding feed_loop handle_all next
  loop-Parses p zero s h = elim h [ ]
  loop-Parses (stop e w) (suc fuel) s h = ground arith
  loop-Parses (more {m = m} n l p) (suc fuel) s h =
      ground (arith, loop-Parses p fuel (handle s m).1 (omega arith))

  handle_all-append :
      (s : S) (ms ns : List Message)
      → handle_all handle s (ms ++ ns) ≡ (
        (handle_all handle s ms).0 ++ (handle_all handle (handle_all handle s ms).1 ns).0,
        (handle_all handle (handle_all handle s ms).1 ns).1,
      )
  unfolding handle_all
  handle_all-append s [] ns = refl
  handle_all-append s (m ∷ ms) ns = ground (arith, handle_all-append (handle s m).1 ms ns)

  feed-Parses :
      {t : Bytes} {ms : List Message} (s : S) (f : Framer) (c : Bytes)
      → Parses t (f.buf ++ c) ms
      → feed handle s f c
        ≡ ((handle_all handle s ms).0, (handle_all handle s ms).1, record { buf = t })
  unfolding feed
  feed-Parses s f c p = loop-Parses p (suc (length (f.buf ++ c))) s (omega arith)

  feed_all_step :
      {t : Bytes} {now : List Message} (later : List Message) (s : S) (f : Framer) (c : Bytes)
      (cs : List Bytes)
      → Parses t (f.buf ++ c) now
      → feed_all handle (handle_all handle s now).1 (record { buf = t }) cs ≡ (
        (handle_all handle (handle_all handle s now).1 later).0,
        (handle_all handle (handle_all handle s now).1 later).1,
        empty,
      )
      → feed_all handle s f (c ∷ cs)
        ≡ ((handle_all handle s (now ++ later)).0, (handle_all handle s (now ++ later)).1, empty)
  unfolding feed_all
  feed_all_step {now = now} later s f c cs p rest =
      rw (feed-Parses s f c p, rest, handle_all-append s now later)

  feed_all_from :
      (chunks : List Bytes) (ms : List Message) (s : S) (f : Framer)
      → AllFit ms
      → next_in f.buf ≡ (none, f.buf)
      → f.buf ++ joined chunks ≡ encode_all ms
      → feed_all handle s f chunks ≡ ((handle_all handle s ms).0, (handle_all handle s ms).1, empty)
  feed_all_from [] [] s f fits w e =
      unfold feed_all handle_all encode_all in ground (arith, append-nil f.buf)
  feed_all_from [] (m ∷ ms) s f fits w e =
      absurd (cc (w, next_in-encode_all m ms (f.buf ++ []) fits.0 e, append-nil f.buf))
  feed_all_from (c ∷ cs) ms s f fits w e =
      let k = cut ms (f.buf ++ c) (joined cs) fits (append_assoc f.buf c (joined cs) ∙ e) in
      rw k.splits (
        feed_all_step k.later s f c cs k.parses (
          feed_all_from cs k.later (handle_all handle s k.now).1 (record { buf = k.tail }) k.fits
            (Parses-waits k.parses) k.rests))

  -- However the bytes of a stream of messages are cut into reads, the reads together emit the events
  -- of the messages in order and leave the handler's state as the messages do, and nothing is left
  -- in the buffer. Each body must fit the length field.
  pub feed_all-encode_all :
      (chunks : List Bytes) (ms : List Message) (s : S)
      → AllFit ms
      → joined chunks ≡ encode_all ms
      → feed_all handle s empty chunks
        ≡ ((handle_all handle s ms).0, (handle_all handle s ms).1, empty)
  feed_all-encode_all chunks ms s fits e =
      feed_all_from chunks ms s empty fits (unfold next_in in refl) e
