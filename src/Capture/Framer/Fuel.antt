-- ===== src/Capture/Framer/Fuel.antt =====
-- The loop of a feed ends by its own test: fuel above the length of the buffer changes nothing.
use tenantguard.Base.{
  Option, Option-cases, [], append-nil, arith, inl, inr, length, some, suc, zero, ℕ, ◌<◌, ◌≡◌,
}
use tenantguard.Capture.Framer.{Framer, Message, feed_loop, next}
use tenantguard.Capture.Framer.Header.{framed, malformed, outcome, waiting}

-- A message that `next` returns shortens the buffer.
shrinks : (f : Framer) (m : Message) → (next f).0 ≡ some m → length (next f).1.buf < length f.buf
unfolding next
shrinks f m e = elim (outcome f.buf) [
  | framed m' rest n l ahead ↦ rw n l
  | waiting w ↦ absurd (cc (w, e))
  | malformed stuck ↦ absurd (cc (stuck [], e, append-nil f.buf))
]

-- Once the fuel is above the length of the buffer, more of it changes neither the events nor the
-- state nor what stays in the buffer: the loop has stopped because `next` returned no message.
pub feed_loop-fuel {ℓ} :
    {S E : Type ℓ} (handle : S → Message → Option E × S) (n k : ℕ) (s : S) (f : Framer)
    → length f.buf < n
    → length f.buf < k
    → feed_loop handle n s f ≡ feed_loop handle k s f
unfolding feed_loop
feed_loop-fuel handle zero k s f h h' = elim h [ ]
feed_loop-fuel handle (suc n) zero s f h h' = elim h' [ ]
feed_loop-fuel handle (suc n) (suc k) s f h h' = elim (Option-cases (next f).0) [
  | inl done ↦ ground arith
  | inr (m, got) ↦
      let less = shrinks f m got in
      ground (arith, feed_loop-fuel handle n k (handle s m).1 (next f).1)
]
