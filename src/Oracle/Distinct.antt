-- ===== src/Oracle/Distinct.antt =====
-- internal/oracle/probe.go: the two canary rows of a relation get different values in a column.
use mathlib.Core.Option
use mathlib.Core.List.{append_cancel_left, append_cancel_right}
use tenantguard.Base.{
  Bool, Option, [], ap, arith, false, if◌then◌else◌, length, none, refl, some, suc, sym, true, zero,
  ℕ, ◌%◌, ◌*◌, ◌++◌, ◌+◌, ◌-◌, ◌<◌, ◌∙◌, ◌∷◌, ◌≡◌, ◌≢◌,
}
use tenantguard.Base.Assoc.{lookup}
use tenantguard.Base.Bytes.{Bytes, codes, equal}
use tenantguard.Capture.Oid.{hex}
use tenantguard.Capture.Oid.Decimal.{format_uint, read_uint, read_uint-format_uint}
use tenantguard.Oracle.Literal.{
  Sample, base_type, boolean, bytea, canary_a, canary_b, canary_literal, canary_text, date, decimal,
  inet, instant, interval, json, literal_of, padded, quoted_text, sample_base, sample_from,
  sample_value, samples, textual, time_of_day, uuid, whole, zeros,
}

-- How many numbers `format_uint` has all digits of.
abbrev max_uint : ℕ
max_uint = 18446744073709551616

format_uint-injective :
    (m n : ℕ) → m < max_uint → n < max_uint → format_uint m ≡ format_uint n → m ≡ n
format_uint-injective m n p q h =
    sym (read_uint-format_uint m p) ∙ ap (read_uint 0) h ∙ read_uint-format_uint n q

read_uint-zeros : (k : ℕ) (s : Bytes) → read_uint 0 (zeros k s) ≡ read_uint 0 s
unfolding read_uint zeros
read_uint-zeros zero s = refl
read_uint-zeros (suc k) s = read_uint-zeros k s

padded-injective :
    (w m n : ℕ)
    → m < max_uint
    → n < max_uint
    → padded w (format_uint m) ≡ padded w (format_uint n)
    → m ≡ n
unfolding padded
padded-injective w m n p q h =
    sym (read_uint-format_uint m p)
    ∙ sym (read_uint-zeros (w - length (format_uint m)) (format_uint m))
    ∙ ap (read_uint 0) h
    ∙ read_uint-zeros (w - length (format_uint n)) (format_uint n)
    ∙ read_uint-format_uint n q

-- A text between two others.
framed : (pre x y post : Bytes) → pre ++ x ++ post ≡ pre ++ y ++ post → x ≡ y
framed pre x y post h =
    append_cancel_left pre x y (append_cancel_right (pre ++ x) (pre ++ y) post h)

framed_number :
    (pre post : Bytes) (m n : ℕ)
    → m < max_uint
    → n < max_uint
    → pre ++ format_uint m ++ post ≡ pre ++ format_uint n ++ post
    → m ≡ n
framed_number pre post m n p q h =
    format_uint-injective m n p q (framed pre (format_uint m) (format_uint n) post h)

hex-injective : (m n : ℕ) → hex (m ∷ []) ≡ hex (n ∷ []) → m % 16 ≡ n % 16
unfolding hex
hex-injective m n h = ground arith

if_not {ℓ} : {A : Type ℓ} (b : Bool) (x y : A) → b ≡ false → (if b then x else y) ≡ y
if_not b x y h = ground arith

pub sample_value_flat :
    (pg_type : Bytes) (i : ℕ)
    → (base_type pg_type).1 ≡ false
    → sample_value pg_type i ≡ sample_base (base_type pg_type).0 i
unfolding sample_value sample_from
sample_value_flat pg_type i h =
    if_not (base_type pg_type).1 _ (sample_base (base_type pg_type).0 i) (h)

-- The indices of the two rows at a column.
module _ (k : ℕ) (small : 2 * k + 1 < 1000000000) where
  pub literal_of-apart :
      (c : Sample) (base : Bytes) → literal_of c base (2 * k) ≢ literal_of c base (2 * k + 1)
  unfolding literal_of
  literal_of-apart whole base h =
      omega (arith, format_uint-injective (1000 + 2 * k) _ (omega arith) (omega arith) h)
  literal_of-apart decimal base h =
      omega (arith, framed_number [] (codes ".0") _ _ (omega arith) (omega arith) h)
  literal_of-apart boolean base h =
      let even : (2 * k) % 2 ≡ 0 = omega arith in
      let odd : (2 * k + 1) % 2 ≡ 1 = omega arith in unfold codes in ground (arith, even, odd)
  literal_of-apart textual base h =
      omega (arith, framed_number (codes "'tgd-") (codes "'") _ _ (omega arith) (omega arith) h)
  literal_of-apart uuid base h = omega (
    arith,
    padded-injective 12 _ _ (omega arith) (omega arith)
        (framed (codes "'00000000-0000-4000-8000-") _ _ (codes "'::uuid") h),
  )
  literal_of-apart instant base h = omega (
    arith,
    framed_number (codes "(now() + (") (codes " * interval '1 microsecond'))") _ _ (omega arith)
        (omega arith) h,
  )
  literal_of-apart date base h = omega (
    arith,
    framed_number (codes "(current_date + ") (codes ")") _ _ (omega arith) (omega arith) h,
  )
  literal_of-apart time_of_day base h = omega (
    arith,
    framed_number (codes "('00:00:00'::" ++ base ++ codes " + (") (codes " * interval '1 second'))")
        _ _ (omega arith) (omega arith) h,
  )
  literal_of-apart json base h = omega (
    arith,
    framed_number (codes "'{\"tgd\":") (codes "}'::") _ _ (omega arith) (omega arith)
        (append_cancel_right _ _ base h),
  )
  literal_of-apart bytea base h =
      omega (arith, hex-injective _ _ (framed (codes "'\\x") _ _ (codes "'::bytea") h))
  literal_of-apart inet base h = omega (
    arith,
    framed_number (codes "'127.0.0.") (codes "'::") _ _ (omega arith) (omega arith)
        (append_cancel_right _ _ base h),
  )
  literal_of-apart interval base h = omega (
    arith,
    framed_number (codes "'") (codes " seconds'::interval") _ _ (omega arith) (omega arith) h,
  )

  sample_base-apart :
      (base a b : Bytes) (c : Option Sample)
      → Option.map (λ (c : Sample). literal_of c base (2 * k)) c ≡ some a
      → Option.map (λ (c : Sample). literal_of c base (2 * k + 1)) c ≡ some b
      → a ≢ b
  sample_base-apart base a b none p q e = cc
  sample_base-apart base a b (some c) p q e = literal_of-apart c base (cc)

  -- The values of a column of a supported type that is no array type differ in the two rows.
  pub sample_value-apart :
      (pg_type a b : Bytes)
      → (base_type pg_type).1 ≡ false
      → sample_value pg_type (2 * k) ≡ some a
      → sample_value pg_type (2 * k + 1) ≡ some b
      → a ≢ b
  unfolding sample_base
  sample_value-apart pg_type a b h p q =
      sample_base-apart (base_type pg_type).0 a b (lookup (base_type pg_type).0 samples)
        (sym (sample_value_flat pg_type _ h) ∙ p) (sym (sample_value_flat pg_type _ h) ∙ q)

quoted_text-injective : (u : Bool) (s t : Bytes) → quoted_text u s ≡ quoted_text u t → s ≡ t
quoted_text-injective true s t h = append_cancel_right s t (codes "'::uuid") (cc)
quoted_text-injective false s t h = append_cancel_right s t (codes "'") (cc)

canary_text-apart :
    (pg_type a b : Bytes)
    → canary_text pg_type canary_a ≡ some a
    → canary_text pg_type canary_b ≡ some b
    → a ≢ b
unfolding canary_text codes equal
canary_text-apart pg_type a b p q = ground arith

quoted_apart :
    (u : Bool) (s t : Option Bytes) (a b : Bytes)
    → ((x y : Bytes) → s ≡ some x → t ≡ some y → x ≢ y)
    → Option.map (quoted_text u) s ≡ some a
    → Option.map (quoted_text u) t ≡ some b
    → a ≢ b
quoted_apart u none t a b h p q e = cc
quoted_apart u (some x) none a b h p q e = cc
quoted_apart u (some x) (some y) a b h p q e = h x y refl refl (quoted_text-injective u x y (cc))

-- The literals of the two canaries in a tenant column differ.
pub canary_literal-apart :
    (pg_type a b : Bytes)
    → canary_literal pg_type canary_a ≡ some a
    → canary_literal pg_type canary_b ≡ some b
    → a ≢ b
unfolding canary_literal
canary_literal-apart pg_type a b p q e =
    quoted_apart (equal (base_type pg_type).0 (codes "uuid")) _ _ a b (canary_text-apart pg_type) p
      q e
