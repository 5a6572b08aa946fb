-- ===== src/Differ/Statement/Fuel.antt =====
-- How far the scanners of a statement move.
use mathlib.Core.Option
use tenantguard.Base.{
  Bool, Option, [], arith, false, if◌then◌else◌, inl, inr, length, none, some, suc, true, ℕ, ◌&&◌,
  ◌+◌, ◌-◌, ◌<◌, ◌==◌, ◌∷◌, ◌≤◌,
}
use tenantguard.Base.Bytes.{Bytes, codes, starts_with}
use tenantguard.Base.Text.{keep_before, trim_left, trim_right, trim_space}
use tenantguard.Differ.Statement.{
  Cte, after_as, after_columns, after_name, after_quote, at_boundary, balanced_paren_span, cte_body,
  is_ident_byte, keyword, materialized, one_cte, skip_ident_bytes, skip_identifier, skip_space,
  span_from, strip_fold, upper,
}

-- What is left, if anything, is at most n bytes.
abbrev pub Within : ℕ → Option Bytes → Type 0
Within n none = Unit
Within n (some s) = length s ≤ n

abbrev SpanWithin : ℕ → Option (Bytes × Bytes) → Type 0
SpanWithin n none = Unit
SpanWithin n (some (body, after)) = length body + length after < n

abbrev pub CteWithin : ℕ → Cte → Type 0
CteWithin n (inl rest) = length rest ≤ n
CteWithin n (inr (body, after)) = length body + length after < n

weaker : (m n : ℕ) (c : Cte) → m ≤ n → CteWithin m c → CteWithin n c
weaker m n (inl rest) h w = omega arith
weaker m n (inr span) h w = omega (arith, w)

length-trim_left : (s : Bytes) → length (trim_left s) ≤ length s
unfolding trim_left
length-trim_left [] = omega arith
length-trim_left (c ∷ cs) = ground (arith, length-trim_left cs)

length-keep_before : (c : ℕ) (s : Bytes) → length (keep_before c s) ≤ suc (length s)
length-keep_before c [] = ground arith
length-keep_before c (d ∷ ds) = omega arith

length-trim_right : (s : Bytes) → length (trim_right s) ≤ length s
unfolding trim_right
length-trim_right [] = omega arith
length-trim_right (c ∷ cs) =
    omega (arith, length-trim_right cs, length-keep_before c (trim_right cs))

pub length-trim_space : (s : Bytes) → length (trim_space s) ≤ length s
unfolding trim_space
length-trim_space s = omega (arith, length-trim_left (trim_right s), length-trim_right s)

pub length-skip_space : (s : Bytes) → length (skip_space s) ≤ length s
unfolding skip_space
length-skip_space [] = omega arith
length-skip_space (c ∷ cs) = ground (arith, length-skip_space cs)

strip_fold-Within : (kw s : Bytes) → Within (length s) (strip_fold kw s)
unfolding strip_fold
strip_fold-Within [] s = omega arith
strip_fold-Within (p ∷ ps) [] = tt
strip_fold-Within (p ∷ ps) (c ∷ cs) =
    step (upper c == p) (strip_fold ps cs) (strip_fold-Within ps cs)
  where
    step :
        (b : Bool) (o : Option Bytes)
        → Within (length cs) o
        → Within (suc (length cs)) (if b then o else none)
    step true none w = tt
    step true (some s) w = omega (arith, w)
    step false o w = tt

at_boundary-Within : (n : ℕ) (s : Bytes) → length s ≤ n → Within n (at_boundary s)
at_boundary-Within n [] h = h
at_boundary-Within n (c ∷ cs) h = step (is_ident_byte c)
  where
    step : (b : Bool) → Within n (if b then none else some (c ∷ cs))
    step true = tt
    step false = h

pub keyword-Within : (kw s : Bytes) → Within (length s) (keyword kw s)
unfolding keyword
keyword-Within kw s = step (strip_fold kw s) (strip_fold-Within kw s)
  where
    step :
        (o : Option Bytes)
        → Within (length s) o
        → Within (length s) (elim o [ none ↦ none | some rest ↦ at_boundary rest ])
    step none w = tt
    step (some rest) w = at_boundary-Within (length s) rest w

span_from-SpanWithin : (depth : ℕ) (s : Bytes) → SpanWithin (length s) (span_from depth s)
unfolding span_from
span_from-SpanWithin depth [] = tt
span_from-SpanWithin depth (c ∷ cs) =
    step (c == b')' && depth == 1) (span_from deeper cs) (span_from-SpanWithin deeper cs)
  where
    deeper : ℕ
    deeper = if c == b'(' then depth + 1 else if c == b')' then depth - 1 else depth

    step :
        (b : Bool) (o : Option (Bytes × Bytes))
        → SpanWithin (length cs) o
        → SpanWithin
            (suc (length cs))
            (if b then some ([], cs) else Option.map (λ p. (c ∷ p.0, p.1)) o)
    step true o w = omega arith
    step false none w = tt
    step false (some span) w = omega (arith, w)

balanced-SpanWithin : (s : Bytes) → SpanWithin (length s) (balanced_paren_span s)
unfolding balanced_paren_span
balanced-SpanWithin [] = tt
balanced-SpanWithin (c ∷ cs) = step (c == b'(') (span_from 1 cs) (span_from-SpanWithin 1 cs)
  where
    step :
        (b : Bool) (o : Option (Bytes × Bytes))
        → SpanWithin (length cs) o
        → SpanWithin (suc (length cs)) (if b then o else none)
    step true none w = tt
    step true (some span) w = omega (arith, w)
    step false o w = tt

cte_body-Within : (s : Bytes) → CteWithin (length s) (cte_body s)
unfolding cte_body
cte_body-Within s = step (balanced_paren_span s) (balanced-SpanWithin s)
  where
    step :
        (o : Option (Bytes × Bytes))
        → SpanWithin (length s) o
        → CteWithin
            (length s)
            (elim o [ none ↦ inl s | some span ↦ inr (span.0, skip_space span.1) ])
    step none w = omega arith
    step (some (body, after)) w = omega (arith, w, length-skip_space after)

-- After a keyword, or without it.
past_keyword :
    (s : Bytes) (o : Option Bytes) (found missing : Bytes → Cte)
    → Within (length s) o
    → ((t : Bytes) → CteWithin (length t) (found t))
    → CteWithin (length s) (missing s)
    → CteWithin (length s) (elim o [ none ↦ missing s | some rest ↦ found (skip_space rest) ])
past_keyword s none found missing w f m = m
past_keyword s (some rest) found missing w f m =
    weaker _ _ (found (skip_space rest)) (omega (arith, w, length-skip_space rest))
      (f (skip_space rest))

materialized-Within : (s : Bytes) → CteWithin (length s) (materialized s)
unfolding materialized
materialized-Within s =
    past_keyword s _ cte_body cte_body (keyword-Within (codes "MATERIALIZED") s) cte_body-Within
      (cte_body-Within s)

after_as-Within : (s : Bytes) → CteWithin (length s) (after_as s)
unfolding after_as
after_as-Within s =
    past_keyword s _ materialized materialized (keyword-Within (codes "NOT") s) materialized-Within
      (materialized-Within s)

after_columns-Within : (s : Bytes) → CteWithin (length s) (after_columns s)
unfolding after_columns
after_columns-Within s =
    past_keyword s _ after_as inl (keyword-Within (codes "AS") s) after_as-Within (omega arith)

after_name-Within : (s : Bytes) → CteWithin (length s) (after_name s)
unfolding after_name
after_name-Within s =
    step (starts_with s (b'(' ∷ [])) (balanced_paren_span s) (balanced-SpanWithin s)
  where
    step :
        (b : Bool) (o : Option (Bytes × Bytes))
        → SpanWithin (length s) o
        → CteWithin (length s) (
            if b
            then (elim o [ none ↦ inl s | some span ↦ after_columns (skip_space span.1) ])
            else after_columns s)
    step true none w = omega arith
    step true (some (body, after)) w =
        weaker _ _ (after_columns (skip_space after)) (omega (arith, w, length-skip_space after))
          (after_columns-Within (skip_space after))
    step false o w = after_columns-Within s

length-after_quote : (s : Bytes) → length (after_quote s) ≤ length s
unfolding after_quote
length-after_quote [] = omega arith
length-after_quote (c ∷ cs) = ground (arith, length-after_quote cs)

length-skip_ident_bytes : (s : Bytes) → length (skip_ident_bytes s) ≤ length s
unfolding skip_ident_bytes
length-skip_ident_bytes [] = omega arith
length-skip_ident_bytes (c ∷ cs) = ground (arith, length-skip_ident_bytes cs)

skip_identifier-Within : (s : Bytes) → Within (length s) (skip_identifier s)
unfolding skip_identifier
skip_identifier-Within [] = tt
skip_identifier-Within (c ∷ cs) = step (c == 34) (is_ident_byte c)
  where
    step :
        (a b : Bool)
        → Within
            (suc (length cs))
            (if a then some (after_quote cs) else if b then some (skip_ident_bytes cs) else none)
    step true b = omega (arith, length-after_quote cs)
    step false true = omega (arith, length-skip_ident_bytes cs)
    step false false = tt

pub one_cte-Within : (t : Bytes) → CteWithin (length t) (one_cte t)
unfolding one_cte
one_cte-Within t =
    let s = skip_space t in
    weaker _ _ _ (length-skip_space t)
      (past_keyword s _ after_name inl (skip_identifier-Within s) after_name-Within (omega arith))
