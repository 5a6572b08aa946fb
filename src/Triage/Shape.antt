-- ===== src/Triage/Shape.antt =====
-- internal/triage/triage.go: which texts are SQL statements, and of which table.
use tenantguard.Base.{
  Bool, List, Option, [], drop, false, if◌then◌else◌, length, map, none, not, some, suc, true, zero,
  ℕ, ◌==◌, ◌||◌, ◌∷◌,
}
use tenantguard.Base.Bytes.{Bytes, codes, equal}
use tenantguard.Base.Text.{trim_space}
use tenantguard.Differ.Extract.{to_lower}
use tenantguard.Differ.Patterns.{byte_re, literal, quoted_name, some_of, space_re, spaces}
use tenantguard.Differ.Regex.{
  Cursor, Re, alt, at_start, boundary, find, group, group_of, is_word, line_start, match_here,
  nothing, one, seq,
}
use tenantguard.Schema.{is_in}

pub data Verb : Type 0 where
  select_verb insert_verb update_verb delete_verb with_verb : Verb

abbrev one_of : Bytes → List Bytes → Re
one_of w [] = literal w
one_of w (v ∷ vs) = alt (literal w) (one_of v vs)

-- `sqlVerb`
unfoldable pub sql_verb : Re
unfolding literal
sql_verb = seq at_start (
    seq
      (group 1 (
        one_of (codes "select")
          (codes "insert" ∷ codes "update" ∷ codes "delete" ∷ codes "with" ∷ [])))
      boundary)

abbrev spaced : Bytes → Bytes → Re
spaced v w = seq (literal v) (seq (some_of space_re) (literal w))

-- `writeKeyword`
unfoldable pub write_keyword : Re
unfolding literal
write_keyword = seq boundary (
    seq
      (alt (spaced (codes "insert") (codes "into")) (
        alt (seq (literal (codes "update")) (some_of space_re))
          (spaced (codes "delete") (codes "from"))))
      boundary)

-- `tableRef`
unfoldable pub table_mention : Re
unfolding literal
table_mention = seq boundary (
    seq (one_of (codes "from") (codes "join" ∷ codes "into" ∷ codes "update" ∷ []))
      (seq (some_of space_re) quoted_name))

-- `\S+`
abbrev solid : Re
solid = some_of (one (λ c. not (c == b' ' || c == 9 || c == 10 || c == 12 || c == 13)))

-- A literal, in its own case.
unfoldable pub exactly : Bytes → Re
exactly [] = nothing
exactly (c ∷ cs) = seq (byte_re c) (exactly cs)

-- `sqlcName`
unfoldable pub sqlc_name : Re
unfolding exactly
sqlc_name = seq line_start (
    seq (byte_re b'-') (
      seq (byte_re b'-') (
        seq spaces (
          seq (exactly (codes "name:"))
            (seq spaces (seq (group 1 solid) (seq spaces (seq (byte_re b':') solid))))))))

abbrev occurs : Re → Bytes → Bool
occurs re s = elim (find re none s) [ none ↦ false | some _ ↦ true ]

-- `requiresKeyword`
unfoldable pub required_keyword : Verb → Re
unfolding literal
required_keyword select_verb = seq boundary (seq (literal (codes "from")) boundary)
required_keyword delete_verb = seq boundary (seq (literal (codes "from")) boundary)
required_keyword update_verb = seq boundary (seq (literal (codes "set")) boundary)
required_keyword insert_verb = seq boundary (seq (literal (codes "into")) boundary)
required_keyword with_verb =
    seq boundary
      (seq (one_of (codes "from") (codes "set" ∷ codes "into" ∷ codes "values" ∷ [])) boundary)

abbrev verb_named : Bytes → Option Verb
verb_named w =
    if equal w (codes "select")
    then some select_verb
    else if equal w (codes "insert")
    then some insert_verb
    else if equal w (codes "update")
    then some update_verb
    else if equal w (codes "delete")
    then some delete_verb
    else if equal w (codes "with")
    then some with_verb
    else none

-- `looksLikeSQL`, of the word that `sqlVerb` captured.
unfoldable pub looks_like_sql : Option Verb → Bytes → Bool
unfolding find required_keyword
looks_like_sql none body = false
looks_like_sql (some v) body = occurs (required_keyword v) body

-- `sqlClauseWords`
unfoldable pub sql_clause_words : List Bytes
sql_clause_words = map codes (
    "where" ∷ "set" ∷ "values" ∷ "on" ∷ "using" ∷ "order" ∷ "group" ∷ "limit" ∷ "offset"
    ∷ "returning" ∷ "join" ∷ "inner" ∷ "left" ∷ "right" ∷ "full" ∷ "outer" ∷ "cross" ∷ "natural"
    ∷ "as" ∷ "for" ∷ "select" ∷ "union" ∷ [])

unfoldable pub trim_blank : Bytes → Bytes
trim_blank [] = []
trim_blank (c ∷ cs) =
    let rest = trim_blank cs in if c == b' ' || c == 9 || c == 10 || c == 13 then rest else c ∷ cs

-- One of `;,(` in front.
abbrev opens : Bytes → Bool
opens [] = false
opens (c ∷ cs) = c == b';' || c == b',' || c == b'('

-- `leadingWord`
unfoldable pub leading_word : Bytes → Bytes
leading_word [] = []
leading_word (c ∷ cs) = if is_word c then c ∷ leading_word cs else []

-- The loop of `matchTable` over the words that follow, of which there are at most n.
unfoldable pub clause_follows : ℕ → Bytes → Bool
unfolding leading_word trim_blank is_in to_lower
clause_follows zero rest = false
clause_follows (suc n) rest =
    let w = leading_word rest in
    let more = trim_blank (drop (length w) rest) in
    let further = clause_follows n more in
    if equal w []
    then false
    else if is_in (to_lower w) sql_clause_words
    then true
    else if opens more
    then true
    else further

abbrev accepted : Bytes → Bytes → Option Bytes
accepted name rest =
    if equal rest [] || opens rest || clause_follows 2 rest then some name else none

-- `matchTable`
unfoldable pub match_table : Bytes → Option Bytes
unfolding find table_mention clause_follows trim_blank to_lower group_of
match_table body = elim (find table_mention none body) [
  | none ↦ none
  | some c ↦ accepted (to_lower (group_of 1 c.groups)) (trim_blank c.rest)
]

abbrev after_line : Bytes → Bytes → Bytes
after_line text [] = text
after_line text (c ∷ cs) = if c == 10 then cs else after_line text cs

-- The text behind a leading line that names the query.
unfoldable pub without_name : Bytes → Bytes
unfolding match_here sqlc_name
without_name text = elim (match_here sqlc_name none text) [
  | none ↦ text
  | some _ ↦ after_line text text
]

-- Whether it writes, and its table.
abbrev pub VerbAndTable : Type 0
VerbAndTable = Bool × Bytes

abbrev shaped : Bytes → Option Bytes → Option VerbAndTable
shaped body none = none
shaped body (some table) = some (occurs write_keyword body, table)

abbrev verb_in : Option Cursor → Option Verb
verb_in none = none
verb_in (some c) = verb_named (to_lower (group_of 1 c.groups))

-- `classifyOne`; `none` where the text is no statement.
unfoldable pub classify_one : Bytes → Option VerbAndTable
unfolding without_name looks_like_sql match_table trim_space find sql_verb write_keyword to_lower
    group_of
classify_one text =
    let body = trim_space (without_name text) in
    if looks_like_sql (verb_in (find sql_verb none body)) body
    then shaped body (match_table body)
    else none
