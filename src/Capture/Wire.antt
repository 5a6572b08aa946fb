-- ===== src/Capture/Wire.antt =====
-- internal/capture/protocol.go: the readers of fields, and `cstring`. A Go reader has a slice and an
-- index into it; here it has what stands at and after the index, and `none` is `errShortMessage`.
-- The `put_` functions are the protocol's own encoding of the same fields.
use tenantguard.Base.{
  Option, [], arith, if◌then◌else◌, none, refl, some, ℕ, ◌%◌, ◌*◌, ◌++◌, ◌+◌, ◌/◌, ◌<◌, ◌==◌, ◌∷◌,
  ◌≡◌,
}
use tenantguard.Base.Bytes.{Bytes}

abbrev pub Reader : Type 0 → Type 0
Reader A = Bytes → Option (A × Bytes)

infixl 5 ◌>>=◌ ◌>>◌
abbrev pub ◌>>=◌ : {A B : Type 0} → Reader A → (A → Reader B) → Reader B
◌>>=◌ m f b = elim (m b) [ none ↦ none | some (a, rest) ↦ f a rest ]

abbrev pub ◌>>◌ : {A B : Type 0} → Reader A → Reader B → Reader B
m >> n = m >>= λ _. n

abbrev pub pure : {A : Type 0} → A → Reader A
pure a b = some (a, b)

abbrev pub be16 : ℕ → ℕ → ℕ
be16 a b = a * 256 + b

abbrev pub be32 : ℕ → ℕ → ℕ → ℕ → ℕ
be32 a b c d = ((a * 256 + b) * 256 + c) * 256 + d

-- the test on the length, and binary.BigEndian.Uint16
unfoldable pub u16 : Reader ℕ
u16 (a ∷ b ∷ rest) = some (be16 a b, rest)
u16 _ = none

unfoldable pub u32 : Reader ℕ
u32 (a ∷ b ∷ c ∷ d ∷ rest) = some (be32 a b c d, rest)
u32 _ = none

abbrev prepend : ℕ → Option (Bytes × Bytes) → Option (Bytes × Bytes)
prepend c none = none
prepend c (some (s, rest)) = some (c ∷ s, rest)

-- The text up to the terminator, and what follows the terminator.
unfoldable pub cstring : Reader Bytes
cstring [] = none
cstring (c ∷ cs) = if c == 0 then some ([], cs) else prepend c (cstring cs)

unfoldable pub put_u16 : ℕ → Bytes
put_u16 n = n / 256 % 256 ∷ n % 256 ∷ []

unfoldable pub put_u32 : ℕ → Bytes
put_u32 n = n / 16777216 % 256 ∷ n / 65536 % 256 ∷ n / 256 % 256 ∷ n % 256 ∷ []

unfoldable pub put_cstring : Bytes → Bytes
put_cstring s = s ++ (0 ∷ [])

-- No byte of the text is the terminator.
abbrev pub NoNul : Bytes → Type 0
NoNul [] = Unit
NoNul (c ∷ cs) = (0 < c) × NoNul cs

pub u16-put : (n : ℕ) (rest : Bytes) → n < 65536 → u16 (put_u16 n ++ rest) ≡ some (n, rest)
unfolding u16 put_u16
u16-put n rest h = ground arith

pub u32-put : (n : ℕ) (rest : Bytes) → n < 4294967296 → u32 (put_u32 n ++ rest) ≡ some (n, rest)
unfolding u32 put_u32
u32-put n rest h = ground arith

pub cstring-put : (s rest : Bytes) → NoNul s → cstring (put_cstring s ++ rest) ≡ some (s, rest)
unfolding cstring put_cstring
cstring-put [] rest h = refl
cstring-put (c ∷ cs) rest h = ground (arith, cstring-put cs rest h.1)

-- A reader that succeeds hands its value and the rest to what follows.
pub >>=-some :
    {A B : Type 0} (m : Reader A) (f : A → Reader B) {b : Bytes} {a : A} {rest : Bytes}
    → m b ≡ some (a, rest)
    → (m >>= f) b ≡ f a rest
>>=-some m f e = rw (e, ◌>>=◌)
