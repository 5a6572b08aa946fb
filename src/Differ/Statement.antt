-- ===== src/Differ/Statement.antt =====
-- internal/differ/differ.go and population.go: whether executing a statement writes, by its leading verb
-- and those of its WITH list, and whether it is a query at all. Texts are ASCII where case is folded. A
-- position in the text is what is left from it on.
pub mod Fuel
pub mod Enough
use mathlib.Core.Option
use tenantguard.Base.{
  Bool, List, Option, [], false, if◌then◌else◌, inl, inr, leb, length, none, some, suc, true, zero,
  ℕ, ◌&&◌, ◌+◌, ◌-◌, ◌==◌, ◌||◌, ◌∷◌, ◌⊎◌,
}
use tenantguard.Base.Bytes.{Bytes, codes, starts_with}
use tenantguard.Base.Text.{trim_space}
use tenantguard.Capture.Framer.{next}

abbrev double_quote : ℕ
double_quote = 34

abbrev pub upper : ℕ → ℕ
upper c = if leb 97 c && leb c 122 then c - 32 else c

-- `isIdentByte`
abbrev pub is_ident_byte : ℕ → Bool
is_ident_byte b =
    b == b'_' || (leb 97 b && leb b 122) || (leb 65 b && leb b 90) || (leb 48 b && leb b 57)

-- What follows a prefix of capitals, in whatever case it stands.
unfoldable pub strip_fold : Bytes → Bytes → Option Bytes
strip_fold [] s = some s
strip_fold (p ∷ ps) [] = none
strip_fold (p ∷ ps) (c ∷ cs) = if upper c == p then strip_fold ps cs else none

abbrev pub at_boundary : Bytes → Option Bytes
at_boundary [] = some []
at_boundary (c ∷ cs) = if is_ident_byte c then none else some (c ∷ cs)

-- `hasCaseInsensitivePrefix`: what follows the keyword, where it is there.
unfoldable pub keyword : Bytes → Bytes → Option Bytes
unfolding strip_fold
keyword kw s = elim (strip_fold kw s) [ none ↦ none | some rest ↦ at_boundary rest ]

-- `skipSpaceFrom`
unfoldable pub skip_space : Bytes → Bytes
skip_space [] = []
skip_space (c ∷ cs) =
    let rest = skip_space cs in if c == b' ' || c == 9 || c == 10 || c == 13 then rest else c ∷ cs

unfoldable pub after_quote : Bytes → Bytes
after_quote [] = []
after_quote (c ∷ cs) = let rest = after_quote cs in if c == double_quote then cs else rest

unfoldable pub skip_ident_bytes : Bytes → Bytes
skip_ident_bytes [] = []
skip_ident_bytes (c ∷ cs) =
    let rest = skip_ident_bytes cs in if is_ident_byte c then rest else c ∷ cs

-- `skipIdentifier`: `none` where it does not move.
unfoldable pub skip_identifier : Bytes → Option Bytes
unfolding after_quote skip_ident_bytes
skip_identifier [] = none
skip_identifier (c ∷ cs) =
    if c == double_quote
    then some (after_quote cs)
    else if is_ident_byte c
    then some (skip_ident_bytes cs)
    else none

-- The text up to the parenthesis that closes `depth` open ones, and what follows it.
unfoldable pub span_from : ℕ → Bytes → Option (Bytes × Bytes)
span_from depth [] = none
span_from depth (c ∷ cs) =
    let deeper = if c == b'(' then depth + 1 else if c == b')' then depth - 1 else depth in
    let rest = Option.map (λ p. (c ∷ p.0, p.1)) (span_from deeper cs) in
    if c == b')' && depth == 1 then some ([], cs) else rest

-- `balancedParenSpan`, from the start of the text.
unfoldable pub balanced_paren_span : Bytes → Option (Bytes × Bytes)
unfolding span_from
balanced_paren_span [] = none
balanced_paren_span (c ∷ cs) = let span = span_from 1 cs in if c == b'(' then span else none

-- One definition of the list: what is left where its form is not found, or its body with what follows.
abbrev pub Cte : Type 0
Cte = Bytes ⊎ (Bytes × Bytes)

unfoldable pub cte_body : Bytes → Cte
unfolding balanced_paren_span
cte_body s = elim (balanced_paren_span s) [
  | none ↦ inl s
  | some span ↦ inr (span.0, skip_space span.1)
]

unfoldable pub materialized : Bytes → Cte
unfolding cte_body keyword
materialized s = elim (keyword (codes "MATERIALIZED") s) [
  | none ↦ cte_body s
  | some rest ↦ cte_body (skip_space rest)
]

unfoldable pub after_as : Bytes → Cte
unfolding materialized
after_as s = elim (keyword (codes "NOT") s) [
  | none ↦ materialized s
  | some rest ↦ materialized (skip_space rest)
]

unfoldable pub after_columns : Bytes → Cte
unfolding after_as
after_columns s = elim (keyword (codes "AS") s) [
  | none ↦ inl s
  | some rest ↦ after_as (skip_space rest)
]

unfoldable pub after_name : Bytes → Cte
unfolding after_columns
after_name s =
    if starts_with s (b'(' ∷ [])
    then elim (balanced_paren_span s) [
      | none ↦ inl s
      | some span ↦ after_columns (skip_space span.1)
    ]
    else after_columns s

unfoldable pub one_cte : Bytes → Cte
unfolding after_name skip_identifier
one_cte t =
    let s = skip_space t in
    elim (skip_identifier s) [ none ↦ inl s | some rest ↦ after_name (skip_space rest) ]

-- What a definition leads to: the end of the list, or a comma and the rest of the list.
unfoldable pub listed : (Bytes → Bool) → (Bool → Bytes → Bytes × Bool) → Bool → Cte → Bytes × Bool
listed writes next nested (inl rest) = (rest, nested)
listed writes next nested (inr (body, [])) = ([], nested || writes body)
listed writes next nested (inr (body, c ∷ cs)) =
    if c == b',' then next (nested || writes body) cs else (c ∷ cs, nested || writes body)

-- The loop over the list, of at most `fuel` definitions; `writes` is what the bodies are asked.
unfoldable pub cte_list : (Bytes → Bool) → ℕ → Bool → Bytes → Bytes × Bool
unfolding listed one_cte
cte_list writes zero nested t = (t, nested)
cte_list writes (suc fuel) nested t =
    listed writes (λ n s. cte_list writes fuel n s) nested (one_cte t)

-- The definitions after WITH and RECURSIVE.
unfoldable pub after_with : Bytes → Bytes
after_with s = elim (keyword (codes "RECURSIVE") s) [ none ↦ s | some rest ↦ skip_space rest ]

-- `skipWithClause`
unfoldable pub skip_with_clause : (Bytes → Bool) → Bytes → Bytes × Bool
unfolding cte_list after_with
skip_with_clause writes t = elim (keyword (codes "WITH") t) [
  | none ↦ (t, false)
  | some rest ↦ let s = after_with (skip_space rest) in cte_list writes (length s) false s
]

abbrev pub is_some {ℓ} : {A : Type ℓ} → Option A → Bool
is_some none = false
is_some (some a) = true

unfoldable pub leading_write : Bytes → Bool
leading_write s =
    is_some (strip_fold (codes "INSERT") s)
    || is_some (strip_fold (codes "UPDATE") s)
    || is_some (strip_fold (codes "DELETE") s)

-- `statementContainsWrite`, on texts below `fuel` bytes.
unfoldable pub statement_contains_write : ℕ → Bytes → Bool
unfolding skip_with_clause leading_write trim_space
statement_contains_write zero t = false
statement_contains_write (suc fuel) t =
    let (rest, nested) =
      skip_with_clause (λ body. statement_contains_write fuel body) (trim_space t) in
    nested || leading_write (trim_space rest)

unfoldable pub after_newline : Bytes → Bytes
after_newline [] = []
after_newline (c ∷ cs) = let rest = after_newline cs in if c == 10 then cs else rest

-- The loop over the leading "--" comments.
unfoldable pub skip_comments : ℕ → Bytes → Bytes
unfolding after_newline
skip_comments zero t = t
skip_comments (suc fuel) t =
    let rest = skip_comments fuel (trim_space (after_newline t)) in
    if starts_with t (b'-' ∷ b'-' ∷ []) then rest else t

-- The text after its leading white space and comments.
unfoldable pub after_comments : Bytes → Bytes
unfolding skip_comments
after_comments t = skip_comments (length t) (trim_space t)

-- `isWriteStatement`
unfoldable pub is_write_statement : Bytes → Bool
unfolding statement_contains_write after_comments
is_write_statement t = let s = after_comments t in statement_contains_write (length s + 1) s

unfoldable pub non_query_prefixes : List Bytes
non_query_prefixes =
    codes "DECLARE"
    ∷ codes "FETCH"
    ∷ codes "CLOSE"
    ∷ codes "LOCK"
    ∷ codes "BEGIN"
    ∷ codes "COMMIT"
    ∷ codes "SET"
    ∷ codes "RESET"
    ∷ codes "PREPARE"
    ∷ codes "EXECUTE"
    ∷ []

abbrev ends_keyword : Option Bytes → Bool
ends_keyword none = false
ends_keyword (some []) = true
ends_keyword (some (c ∷ cs)) = c == b' ' || c == 9 || c == 10 || c == 13 || c == b'('

-- `hasKeywordPrefix` of the text in capitals, for any of the keywords.
unfoldable pub has_keyword_prefix : Bytes → List Bytes → Bool
has_keyword_prefix s [] = false
has_keyword_prefix s (kw ∷ kws) = ends_keyword (strip_fold kw s) || has_keyword_prefix s kws

-- `isNonQuery`
unfoldable pub is_non_query_text : Bytes → Bool
unfolding has_keyword_prefix non_query_prefixes
is_non_query_text t = has_keyword_prefix (after_comments t) non_query_prefixes
