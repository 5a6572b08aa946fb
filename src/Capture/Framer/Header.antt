-- ===== src/Capture/Framer/Header.antt =====
-- What `next` reads from a buffer, with or without more bytes behind it.
use tenantguard.Base.{
  Bool-cases, List, [], append-nil, arith, drop, drop-append, drop-append_self, false, inl, inr,
  length, length-append, length-drop, le→ltb, ltb, none, refl, some, take, take-append,
  take-append_self, tests, true, ℕ, ◌%◌, ◌++◌, ◌+◌, ◌-◌, ◌/◌, ◌<◌, ◌∷◌, ◌≡◌, ◌≤◌,
}
use tenantguard.Base.Bytes.{Bytes}
use tenantguard.Capture.Framer.{Message, encode, encode_all, next_at, next_in}
use tenantguard.Capture.Wire.{be32, put_u32}

-- The length field of the message fits its four bytes.
abbrev pub Fits : Message → Type 0
Fits m = length m.body + 4 < 4294967296

abbrev pub AllFit : List Message → Type 0
AllFit [] = Unit
AllFit (m ∷ ms) = Fits m × AllFit ms

be32_put :
    (n : ℕ)
    → n < 4294967296
    → be32 (n / 16777216 % 256) (n / 65536 % 256) (n / 256 % 256) (n % 256) ≡ n
be32_put n h = omega arith

next_at-whole :
    (t a b c d : ℕ) (body r : Bytes)
    → next_at (length body + 4) t a b c d (body ++ r) ≡ (some (record { typ = t; body = body }), r)
unfolding next_at
next_at-whole t a b c d body r =
    let long : ltb (length body + 4) 4 ≡ false = le→ltb _ _ (omega arith) in
    let whole : ltb (length (body ++ r) + 5) (length body + 4 + 1) ≡ false =
      le→ltb _ _ (omega (arith, length-append body r)) in
    let cut : length body + 4 - 4 ≡ length body = omega arith in
    rw (long, whole, cut) (rw (take-append_self, drop-append_self))

pub next_in-encode : (m : Message) (r : Bytes) → Fits m → next_in (encode m ++ r) ≡ (some m, r)
unfolding next_in encode put_u32
next_in-encode m r h = rw (be32_put (length m.body + 4) h) (next_at-whole m.typ _ _ _ _ m.body r)

-- What `next` does on a whole header: it depends on the bytes behind it only by waiting for them.
pub data Outcome (buf : Bytes) : Type 0 where
  framed :
      (m : Message) (rest : Bytes)
      → next_in buf ≡ (some m, rest)
      → length rest < length buf
      → ((r : Bytes) → next_in (buf ++ r) ≡ (some m, rest ++ r))
      → Outcome buf
  waiting : next_in buf ≡ (none, buf) → Outcome buf
  malformed : ((r : Bytes) → (next_in (buf ++ r)).0 ≡ none) → Outcome buf

module _ (len t a b c d : ℕ) (rest : Bytes) where
  next_at_short : ltb len 4 ≡ true → (next_at len t a b c d rest).0 ≡ none
  unfolding next_at
  next_at_short h = rw h

  next_at_waits :
      ltb len 4 ≡ false
      → ltb (length rest + 5) (len + 1) ≡ true
      → next_at len t a b c d rest ≡ (none, t ∷ a ∷ b ∷ c ∷ d ∷ rest)
  unfolding next_at
  next_at_waits h k = rw (h, k)

  next_at_frames :
      (r : Bytes)
      → ltb len 4 ≡ false
      → ltb (length rest + 5) (len + 1) ≡ false
      → next_at len t a b c d (rest ++ r)
        ≡ (some (record { typ = t; body = take (len - 4) rest }), drop (len - 4) rest ++ r)
  unfolding next_at
  next_at_frames r h k =
      let enough : len - 4 ≤ length rest = omega tests in
      let whole : ltb (length (rest ++ r) + 5) (len + 1) ≡ false =
        le→ltb _ _ (omega (tests, le→ltb, length-append rest r)) in
      rw (h, whole, take-append (len - 4) rest r enough, drop-append (len - 4) rest r enough)

pub outcome : (buf : Bytes) → Outcome buf
unfolding next_in
outcome (t ∷ a ∷ b ∷ c ∷ d ∷ rest) =
    let len = be32 a b c d in
    elim (Bool-cases (ltb len 4)) [
      | inl short ↦ malformed (λ r. next_at_short len t a b c d (rest ++ r) short)
      | inr full ↦ elim (Bool-cases (ltb (length rest + 5) (len + 1))) [
        | inl more ↦ waiting (next_at_waits len t a b c d rest full more)
        | inr whole ↦
            framed (record { typ = t; body = take (len - 4) rest }) (drop (len - 4) rest)
              (simp append-nil at (next_at_frames len t a b c d rest [] full whole))
              (omega (arith, length-drop (len - 4) rest))
              (λ r. next_at_frames len t a b c d rest r full whole)
      ]
    ]
outcome [] = waiting refl
outcome (a ∷ []) = waiting refl
outcome (a ∷ b ∷ []) = waiting refl
outcome (a ∷ b ∷ c ∷ []) = waiting refl
outcome (a ∷ b ∷ c ∷ d ∷ []) = waiting refl

-- Whatever is cut off a stream of messages, `next` reads the same messages from it.
pub next_in-encode_all :
    (m : Message) (ms : List Message) (s : Bytes)
    → Fits m
    → s ≡ encode_all (m ∷ ms)
    → next_in s ≡ (some m, encode_all ms)
unfolding encode_all
next_in-encode_all m ms s h e = rw e (next_in-encode m (encode_all ms) h)
