-- ===== src/Capture/Message/RoundTrip.antt =====
-- Bind and ParameterDescription bodies as the protocol documents them, read back by the parsers.
use mathlib.Core.Option
use tenantguard.Base.{
  Bool-cases, List, Option, [], ap, append-nil, append_assoc, arith, drop-append_self, false,
  get_elem?, inl, inr, leb, length, length-append, le→ltb, ltb, ltb→le, lt→ltb, none, refl, some,
  suc, take-append_self, true, zero, ℕ, ◌*◌, ◌++◌, ◌+◌, ◌<◌, ◌==◌, ◌∙◌, ◌∷◌, ◌≡◌, ◌≤◌,
}
use tenantguard.Base.Bytes.{Bytes}
use tenantguard.Capture.Message.{
  format_for, or_text, parse_bind, parse_parameter_description, read_bind, read_oids, read_param,
  read_params, read_u16s, read_u32s, value_param,
}
use tenantguard.Capture.Message.Sent.{
  IsSendable, SentBind, Shorts, ValuesFit, Words, code_of, param_of, params_of, put_bind, put_u16s,
  put_u32s, put_value, put_values,
}
use tenantguard.Capture.Wire.{
  >>=-some, cstring, cstring-put, put_u16, put_u32, u16, u16-put, u32, u32-put, ◌>>=◌,
}

read_u16s-put :
    (ns : List ℕ) (rest : Bytes)
    → Shorts ns
    → read_u16s (length ns) (put_u16s ns ++ rest) ≡ some (ns, rest)
unfolding read_u16s put_u16s
read_u16s-put [] rest h = refl
read_u16s-put (n ∷ ns) rest h = rw append_assoc (
    >>=-some u16 _ (u16-put n _ h.0)
    ∙ >>=-some (read_u16s (length ns)) _ (read_u16s-put ns rest h.1))

read_u32s-put :
    (ns : List ℕ) (rest : Bytes)
    → Words ns
    → read_u32s (length ns) (put_u32s ns ++ rest) ≡ some (ns, rest)
unfolding read_u32s put_u32s
read_u32s-put [] rest h = refl
read_u32s-put (n ∷ ns) rest h = rw append_assoc (
    >>=-some u32 _ (u32-put n _ h.0)
    ∙ >>=-some (read_u32s (length ns)) _ (read_u32s-put ns rest h.1))

get_elem?-eq-none : {A : Type 0} (xs : List A) (n : ℕ) → length xs ≤ n → get_elem? xs n ≡ none
get_elem?-eq-none [] n h = refl
get_elem?-eq-none (x ∷ xs) zero h = elim h [ ]
get_elem?-eq-none (x ∷ xs) (suc n) h = get_elem?-eq-none xs n (omega arith)

or_text-get_or : (o : Option ℕ) → or_text o ≡ Option.get_or o 0
or_text-get_or none = refl
or_text-get_or (some f) = refl

format_for_many :
    (fs : List ℕ) (n : ℕ) → 1 < length fs → format_for fs n ≡ Option.get_or (get_elem? fs n) 0
unfolding format_for
format_for_many fs n h =
    let not_one : (length fs == 1) ≡ false = ground arith in
    let many : ltb 1 (length fs) ≡ true = lt→ltb _ _ h in
    elim (Bool-cases (ltb n (length fs))) [
      | inl inside ↦ rw (not_one, many, inside) (or_text-get_or (get_elem? fs n))
      | inr outside ↦ rw (not_one, many, outside) (rw (get_elem?-eq-none fs n (ltb→le _ _ outside)))
    ]

format_for-code_of : (fs : List ℕ) (n : ℕ) → format_for fs n ≡ code_of fs n
format_for-code_of [] n = (unfold format_for in refl)
format_for-code_of (f ∷ []) n = (unfold format_for in refl)
format_for-code_of (f ∷ g ∷ fs) n = format_for_many (f ∷ g ∷ fs) n (omega arith)

long_lem : (n : ℕ) → n < 2147483648 → leb 2147483648 n ≡ false
long_lem n h = ground arith

short : (v rest : Bytes) → ltb (length (v ++ rest)) (length v) ≡ false
short v rest = le→ltb _ _ (omega (arith, length-append v rest))

first_fits : (v : Option Bytes) (vs : List (Option Bytes)) → ValuesFit (v ∷ vs) → ValuesFit (v ∷ [])
first_fits none vs h = tt
first_fits (some v) vs h = (h.0, tt)

rest_fit : (v : Option Bytes) (vs : List (Option Bytes)) → ValuesFit (v ∷ vs) → ValuesFit vs
rest_fit none vs h = h
rest_fit (some v) vs h = h.1

value_param-param_of : (f : ℕ) (v : Bytes) → value_param f v ≡ param_of f (some v)
value_param-param_of zero v = refl
value_param-param_of (suc f) v = let binary : (suc f == 0) ≡ false = ground arith in rw binary

read_param-put :
    (f : ℕ) (v : Option Bytes) (rest : Bytes)
    → ValuesFit (v ∷ [])
    → read_param f (put_value v ++ rest) ≡ some (param_of f v, rest)
unfolding read_param put_value
read_param-put f none rest h = >>=-some u32 _ (u32-put _ rest (omega arith))
read_param-put f (some v) rest h = rw append_assoc (
    >>=-some u32 _ (u32-put (length v) _ (omega (arith, h.0)))
    ∙ rw (long_lem (length v) h.0) (
        rw (short v rest) (
          rw (take-append_self, drop-append_self)
            (ap (λ p. some (p, rest)) (value_param-param_of f v)))))

read_params-put :
    (fs : List ℕ) (n : ℕ) (vs : List (Option Bytes)) (rest : Bytes)
    → ValuesFit vs
    → read_params fs n (length vs) (put_values vs ++ rest) ≡ some (params_of fs n vs, rest)
unfolding read_params put_values
read_params-put fs n [] rest h = refl
read_params-put fs n (v ∷ vs) rest h = rw append_assoc (
    >>=-some (read_param (format_for fs n)) _
      (rw format_for-code_of (read_param-put (code_of fs n) v _ (first_fits v vs h)))
    ∙ >>=-some (read_params fs (n + 1) (length vs)) _
        (read_params-put fs (n + 1) vs rest (rest_fit v vs h)))

-- The formats and the values, each behind its count.
read_formats-put :
    (fs : List ℕ) (rest : Bytes)
    → length fs < 65536
    → Shorts fs
    → (u16 >>= λ n. read_u16s n) (put_u16 (length fs) ++ (put_u16s fs ++ rest)) ≡ some (fs, rest)
read_formats-put fs rest n h = >>=-some u16 _ (u16-put (length fs) _ n) ∙ read_u16s-put fs rest h

read_values-put :
    (fs : List ℕ) (vs : List (Option Bytes))
    → length vs < 65536
    → ValuesFit vs
    → (u16 >>= λ n. read_params fs 0 n) (put_u16 (length vs) ++ put_values vs)
      ≡ some (params_of fs 0 vs, [])
read_values-put fs vs n h =
    >>=-some u16 _ (u16-put (length vs) _ n) ∙ simp append-nil at (read_params-put fs 0 vs [] h)

read_bind-put :
    (b : SentBind)
    → IsSendable b
    → read_bind (put_bind b)
      ≡ some
          (record { portal = b.portal; stmt = b.stmt; params = params_of b.formats 0 b.values }, [])
unfolding read_bind put_bind
read_bind-put b h =
    >>=-some cstring _ (cstring-put b.portal _ h.portal_text)
    ∙ >>=-some cstring _ (cstring-put b.stmt _ h.stmt_text)
    ∙ >>=-some (u16 >>= λ n. read_u16s n) _
        (read_formats-put b.formats _ h.formats_count h.formats_short)
    ∙ >>=-some (u16 >>= λ n. read_params b.formats 0 n) _
        (read_values-put b.formats b.values h.values_count h.values_fit)

-- Any Bind that the wire can carry is read back: the names, and each value under the format code
-- that the protocol assigns to its position.
pub parse_bind-put_bind :
    (b : SentBind)
    → IsSendable b
    → parse_bind (put_bind b)
      ≡ some (record { portal = b.portal; stmt = b.stmt; params = params_of b.formats 0 b.values })
unfolding parse_bind
parse_bind-put_bind b h = rw (read_bind-put b h)

length-put_u32s : (ns : List ℕ) → length (put_u32s ns) ≡ 4 * length ns
unfolding put_u32s put_u32
length-put_u32s [] = refl
length-put_u32s (n ∷ ns) = omega (arith, length-put_u32s ns)

described :
    (oids : List ℕ)
    → length oids < 65536
    → Words oids
    → read_oids (put_u16 (length oids) ++ put_u32s oids) ≡ some (oids, [])
unfolding read_oids
described oids n h =
    let whole : ltb (length (put_u32s oids)) (4 * length oids) ≡ false =
      le→ltb _ _ (omega (arith, length-put_u32s oids)) in
    >>=-some u16 _ (u16-put (length oids) _ n)
    ∙ rw whole (simp append-nil at (read_u32s-put oids [] h))

-- Any list of type OIDs is read back from the ParameterDescription that carries it.
pub parse_parameter_description-put :
    (oids : List ℕ)
    → length oids < 65536
    → Words oids
    → parse_parameter_description (put_u16 (length oids) ++ put_u32s oids) ≡ some oids
unfolding parse_parameter_description
parse_parameter_description-put oids n h = rw (described oids n h)
