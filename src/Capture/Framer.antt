-- ===== src/Capture/Framer.antt =====
-- internal/capture/protocol.go: `framer`, which reassembles typed messages from the reads of a
-- connection, and the loop of `FeedFrontend` and `FeedBackend` over it (internal/capture/session.go).
pub mod Header
pub mod Stream
pub mod Commute
pub mod Fuel
use tenantguard.Base.{
  List, Option, [], drop, if◌then◌else◌, length, ltb, none, some, suc, take, zero, ℕ, ◌++◌, ◌+◌,
  ◌-◌, ◌∷◌,
}
use tenantguard.Base.Bytes.{Bytes}
use tenantguard.Capture.Wire.{be32, put_u32}

pub record Message : Type 0 where
  pub typ : ℕ
  pub body : Bytes

pub record Framer : Type 0 where
  pub buf : Bytes

abbrev pub empty : Framer
empty = record { buf = [] }

unfoldable pub push : Framer → Bytes → Framer
push f b = record { buf = f.buf ++ b }

-- `next` on a buffer with a whole header, given its length field. The field counts itself and not
-- the type byte: `rest` is buf[5:], and total - 5 is len - 4. A field below 4 drops the type byte
-- and reports no message.
unfoldable pub next_at : ℕ → ℕ → ℕ → ℕ → ℕ → ℕ → Bytes → Option Message × Bytes
next_at len t a b c d rest =
    if ltb len 4
    then (none, a ∷ b ∷ c ∷ d ∷ rest)
    else if ltb (length rest + 5) (len + 1)
    then (none, t ∷ a ∷ b ∷ c ∷ d ∷ rest)
    else (some (record { typ = t; body = take (len - 4) rest }), drop (len - 4) rest)

unfoldable pub next_in : Bytes → Option Message × Bytes
unfolding next_at
next_in (t ∷ a ∷ b ∷ c ∷ d ∷ rest) = next_at (be32 a b c d) t a b c d rest
next_in buf = (none, buf)

unfoldable pub next : Framer → Option Message × Framer
next f = let (m, buf) = next_in f.buf in (m, record { buf = buf })

-- The wire form of a message.
unfoldable pub encode : Message → Bytes
encode m = m.typ ∷ (put_u32 (length m.body + 4) ++ m.body)

unfoldable pub encode_all : List Message → Bytes
encode_all [] = []
encode_all (m ∷ ms) = encode m ++ encode_all ms

abbrev pub emitted {ℓ} : {E : Type ℓ} → Option E → List E → List E
emitted none es = es
emitted (some e) es = e ∷ es

module _ {ℓ} {S E : Type ℓ} (handle : S → Message → Option E × S) where
  -- for { typ, body, ok := next(); if !ok { return out }; if ev, emit := handle(...) {...} }
  unfoldable pub feed_loop : ℕ → S → Framer → List E × S × Framer
  feed_loop zero s f = ([], s, f)
  feed_loop (suc fuel) s f =
      let (m, f') = next f in
      elim m [
        | none ↦ ([], s, f')
        | some m ↦
            let (e, s') = handle s m in
            let (es, last, g) = feed_loop fuel s' f' in (emitted e es, last, g)
      ]

  -- Every message takes at least five bytes, so the fuel is more than enough.
  unfoldable pub feed : S → Framer → Bytes → List E × S × Framer
  unfolding feed_loop push
  feed s f b = let g = push f b in feed_loop (suc (length g.buf)) s g

  -- The reads of a connection, one after the other.
  unfoldable pub feed_all : S → Framer → List Bytes → List E × S × Framer
  feed_all s f [] = ([], s, f)
  feed_all s f (c ∷ cs) =
      let (es, s', f') = feed s f c in
      let (rest, last, g) = feed_all s' f' cs in (es ++ rest, last, g)

  -- What the handler does with whole messages.
  unfoldable pub handle_all : S → List Message → List E × S
  handle_all s [] = ([], s)
  handle_all s (m ∷ ms) =
      let (e, s') = handle s m in let (es, last) = handle_all s' ms in (emitted e es, last)
