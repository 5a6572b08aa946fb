-- ===== src/Differ/Patterns.antt =====
-- internal/differ/extract.go: its regular expressions.
use tenantguard.Base.{[], if◌then◌else◌, leb, not, ℕ, ◌&&◌, ◌+◌, ◌==◌, ◌||◌, ◌∷◌}
use tenantguard.Base.Bytes.{Bytes, codes}
use tenantguard.Differ.Regex.{Re, alt, boundary, group, is_word, nothing, one, opt, seq, star}

abbrev pub lower_case : ℕ → ℕ
lower_case c = if leb 65 c && leb c 90 then c + 32 else c

abbrev pub byte_re : ℕ → Re
byte_re b = one (λ c. c == b)

-- `\s`
abbrev pub space_re : Re
space_re = one (λ c. c == b' ' || c == 9 || c == 10 || c == 12 || c == 13)

abbrev pub spaces : Re
spaces = star space_re

-- `\w`
abbrev pub word_re : Re
word_re = one is_word

abbrev pub digit_re : Re
digit_re = one (λ c. leb 48 c && leb c 57)

abbrev pub some_of : Re → Re
some_of r = seq r (star r)

-- A literal, in any case.
unfoldable pub literal : Bytes → Re
literal [] = nothing
literal (c ∷ cs) = seq (one (λ x. lower_case x == lower_case c)) (literal cs)

-- `pgIdent`
abbrev pub pg_ident : Re
pg_ident =
    seq (one (λ c. c == b'_' || (leb 97 c && leb c 122) || (leb 65 c && leb c 90)))
      (star (one (λ c. is_word c || c == b'.')))

abbrev pub type_name : Re
type_name = seq pg_ident (
    seq (star (seq (some_of space_re) pg_ident))
      (opt (seq spaces (seq (byte_re b'[') (seq spaces (byte_re b']'))))))

-- `castSuffix`
abbrev pub cast_suffix : Re
cast_suffix = star (seq spaces (seq (byte_re b':') (seq (byte_re b':') (seq spaces type_name))))

-- `\$(\d+)`
abbrev pub numbered : Re
numbered = seq (byte_re b'$') (group 1 (some_of digit_re))

-- `paramRefCastChain`
abbrev pub param_ref_cast_chain : Re
param_ref_cast_chain = seq numbered cast_suffix

-- `paramRefCastFunc`
unfoldable pub param_ref_cast_func : Re
unfolding literal
param_ref_cast_func = seq (literal (codes "CAST")) (
    seq spaces (
      seq (byte_re b'(') (
        seq spaces (
          seq numbered (
            seq (some_of space_re) (
              seq (literal (codes "AS"))
                (seq (some_of space_re) (seq type_name (seq spaces (byte_re b')'))))))))))

abbrev pub not_closed : Re
not_closed = star (one (λ c. not (c == b')')))

abbrev pub cast_call : Re
cast_call = seq spaces (seq (byte_re b'(') (seq not_closed (byte_re b')')))

-- The right-hand side: a CAST, a parameter, a word, or the start of a subquery.
unfoldable pub right_hand : Re
unfolding literal
right_hand = alt (seq (literal (codes "CAST")) cast_call) (
    alt (seq (byte_re b'$') (some_of digit_re))
      (alt (some_of word_re) (seq (byte_re b'(') not_closed)))

abbrev pub left_cast : Re
left_cast = opt (seq (byte_re b':') (seq (byte_re b':') (some_of word_re)))

-- `tenantCompareRegex`
unfoldable pub tenant_compare_regex : Bytes → Re
unfolding literal right_hand
tenant_compare_regex column = seq (opt (seq (some_of word_re) (byte_re b'.'))) (
    seq (literal column)
      (seq left_cast (seq spaces (seq (byte_re b'=') (seq spaces (group 1 right_hand))))))

abbrev pub double_quote : Re
double_quote = one (λ c. c == 34)

-- `"?(?:\w+\.)?"?(\w+)"?`
abbrev pub quoted_name : Re
quoted_name = seq (opt double_quote) (
    seq (opt (seq (some_of word_re) (byte_re b'.')))
      (seq (opt double_quote) (seq (group 1 (some_of word_re)) (opt double_quote))))

-- `tableRef`
unfoldable pub table_ref : Re
unfolding literal
table_ref = seq boundary (
    seq
      (alt (literal (codes "from"))
        (alt (literal (codes "join")) (alt (literal (codes "into")) (literal (codes "update")))))
      (seq (some_of space_re) (
        seq quoted_name (
          opt (
            seq (some_of space_re) (
              seq (opt (seq (literal (codes "as")) (some_of space_re)))
                (seq (opt double_quote) (seq (group 2 (some_of word_re)) (opt double_quote)))))))))

-- `insertPrefix`, up to and with the opening parenthesis
unfoldable pub insert_prefix : Re
unfolding literal
insert_prefix = seq (literal (codes "insert")) (
    seq (some_of space_re) (
      seq (literal (codes "into"))
        (seq (some_of space_re) (seq quoted_name (seq spaces (byte_re b'('))))))

-- `valuesPrefix`
unfoldable pub values_prefix : Re
unfolding literal
values_prefix = seq boundary (seq (literal (codes "values")) (seq spaces (byte_re b'(')))
