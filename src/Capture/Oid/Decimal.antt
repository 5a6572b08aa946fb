-- ===== src/Capture/Oid/Decimal.antt =====
-- strconv.FormatInt and FormatUint in base 10, for the integers of `decodeBinary`.
use tenantguard.Base.{
  Bool-cases, [], ap, arith, if◌then◌else◌, inl, inr, ltb, lt→ltb, refl, suc, true, zero, ℕ, ◌%◌,
  ◌*◌, ◌+◌, ◌-◌, ◌/◌, ◌<◌, ◌∙◌, ◌∷◌, ◌≡◌,
}
use tenantguard.Base.Bytes.{Bytes}

-- The digits of a number in front of `tail`; twenty hold every uint64.
unfoldable pub digits_onto : ℕ → ℕ → Bytes → Bytes
digits_onto zero n tail = tail
digits_onto (suc fuel) n tail =
    let longer = digits_onto fuel (n / 10) ((48 + n % 10) ∷ tail) in
    if ltb n 10 then (48 + n) ∷ tail else longer

unfoldable pub format_uint : ℕ → Bytes
format_uint n = digits_onto 20 n []

-- `half` is 2^(w-1) for a w-bit integer: a pattern at or above it stands for itself less 2^w.
unfoldable pub format_int : ℕ → ℕ → Bytes
format_int half n = if ltb n half then format_uint n else b'-' ∷ format_uint (half + half - n)

-- The number that a text of digits stands for, read after the number `acc`.
unfoldable pub read_uint : ℕ → Bytes → ℕ
read_uint acc [] = acc
read_uint acc (c ∷ cs) = read_uint (acc * 10 + (c - 48)) cs

unfoldable pub pow10 : ℕ → ℕ
pow10 zero = 1
pow10 (suc k) = 10 * pow10 k

digits_onto_lem :
    (fuel n : ℕ) (tail : Bytes)
    → n < pow10 (suc fuel)
    → read_uint 0 (digits_onto (suc fuel) n tail) ≡ read_uint n tail
unfolding digits_onto pow10 read_uint
digits_onto_lem zero n tail h =
    let few : ltb n 10 ≡ true = lt→ltb _ _ h in
    let last : 0 * 10 + (48 + n - 48) ≡ n = omega arith in rw few (ap (λ k. read_uint k tail) last)
digits_onto_lem (suc fuel) n tail h = elim (Bool-cases (ltb n 10)) [
  | inl few ↦
      let last : 0 * 10 + (48 + n - 48) ≡ n = omega arith in
      rw few (ap (λ k. read_uint k tail) last)
  | inr many ↦
      let back : n / 10 * 10 + (48 + n % 10 - 48) ≡ n = omega arith in
      rw many (digits_onto_lem fuel (n / 10) _ (omega arith) ∙ ap (λ k. read_uint k tail) back)
]

twenty : pow10 20 ≡ 100000000000000000000
unfolding pow10
twenty = refl

-- The decimal text of a uint64 reads back as the number.
pub read_uint-format_uint : (n : ℕ) → n < 18446744073709551616 → read_uint 0 (format_uint n) ≡ n
unfolding format_uint
read_uint-format_uint n h =
    digits_onto_lem 19 n [] (rw twenty (omega arith)) ∙ (unfold read_uint in refl)
