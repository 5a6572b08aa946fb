-- ===== src/Capture/Framer/Commute.antt =====
-- A change of the handler's state that the handler does not notice commutes with the loop.
use tenantguard.Base.{
  List, Option, Option-cases, [], arith, inl, inr, length, refl, suc, zero, ℕ, ◌∷◌, ◌≡◌,
}
use tenantguard.Base.Bytes.{Bytes}
use tenantguard.Capture.Framer.{Framer, Message, feed, feed_all, feed_loop, handle_all, next, push}

module _ {ℓ} {S E : Type ℓ} (handle : S → Message → Option E × S) (put : S → S)
    (blind : (s : S) (m : Message) → handle (put s) m ≡ ((handle s m).0, put (handle s m).1)) where
  feed_loop-put :
      (fuel : ℕ) (s : S) (f : Framer)
      → feed_loop handle fuel (put s) f ≡ (
        (feed_loop handle fuel s f).0,
        put (feed_loop handle fuel s f).1,
        (feed_loop handle fuel s f).2,
      )
  unfolding feed_loop
  feed_loop-put zero s f = refl
  feed_loop-put (suc fuel) s f = elim (Option-cases (next f).0) [
    | inl done ↦ ground arith
    | inr (m, got) ↦ ground (arith, blind s m, feed_loop-put fuel (handle s m).1 (next f).1)
  ]

  pub feed-put :
      (s : S) (f : Framer) (b : Bytes)
      → feed handle (put s) f b
        ≡ ((feed handle s f b).0, put (feed handle s f b).1, (feed handle s f b).2)
  unfolding feed
  feed-put s f b = feed_loop-put (suc (length (push f b).buf)) s (push f b)

  pub handle_all-put :
      (s : S) (ms : List Message)
      → handle_all handle (put s) ms ≡ ((handle_all handle s ms).0, put (handle_all handle s ms).1)
  unfolding handle_all
  handle_all-put s [] = refl
  handle_all-put s (m ∷ ms) = rw (blind s m) (rw (handle_all-put (handle s m).1 ms))

  pub feed_all-put :
      (s : S) (f : Framer) (cs : List Bytes)
      → feed_all handle (put s) f cs
        ≡ ((feed_all handle s f cs).0, put (feed_all handle s f cs).1, (feed_all handle s f cs).2)
  unfolding feed_all
  feed_all-put s f [] = refl
  feed_all-put s f (c ∷ cs) =
      rw (feed-put s f c) (rw (feed_all-put (feed handle s f c).1 (feed handle s f c).2 cs))
