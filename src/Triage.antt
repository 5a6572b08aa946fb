-- ===== src/Triage.antt =====
-- internal/triage/triage.go: the pass over a repository's own SQL that needs no database: the statements
-- of its files, the tables taken for scoped, the suspicions and their ranking.
pub mod Shape
pub mod Rank
pub mod Order
pub mod Evidence
pub mod Run
mod Tests
use mathlib.Core.Option
use tenantguard.Base.{
  Bool, List, Option, [], false, if◌then◌else◌, length, map, none, not, some, suc, take, true, zero,
  ℕ, ◌++◌, ◌+◌, ◌-◌, ◌==◌, ◌∷◌,
}
use tenantguard.Base.Assoc.{Assoc, insert, lookup}
use tenantguard.Base.Bytes.{Bytes, codes, equal}
use tenantguard.Base.Text.{trim_space}
use tenantguard.Differ.Patterns.{byte_re, literal}
use tenantguard.Differ.Regex.{
  Cursor, Re, boundary, find, find_at, group_of, line_end, line_start, one, opt, seq, star,
}
use tenantguard.Triage.Shape.{VerbAndTable, classify_one, exactly, sqlc_name}

pub record Statement : Type 0 where
  pub file : Bytes
  pub line : ℕ
  pub name : Bytes
  pub writes : Bool
  pub table : Bytes
  pub sql : Bytes

abbrev statement_of : Bytes → ℕ → Bytes → Bytes → Option VerbAndTable → List Statement
statement_of file line name sql none = []
statement_of file line name sql (some (writes, table)) =
    record { file = file; line = line; name = name; writes = writes; table = table; sql = sql } ∷ []

unfoldable pub count_lines : Bytes → ℕ
count_lines [] = 0
count_lines (c ∷ cs) = (if c == 10 then 1 else 0) + count_lines cs

-- The text up to the next name, or to the end.
abbrev chunk_rest : Cursor → Option (Bytes × Bytes × Cursor) → Bytes
chunk_rest c none = c.rest
chunk_rest c (some found) = found.0

-- The loop of `statementsFromSQLFile`, from a match on: the line that it starts on, the text from its
-- start, and the place behind it. Each match passes a byte at least, so that the text's length is enough.
unfoldable pub named_chunks : ℕ → Bytes → ℕ → Bytes → Cursor → List Statement
unfolding find_at sqlc_name classify_one trim_space group_of count_lines
named_chunks zero file line start c = []
named_chunks (suc n) file line start c =
    let next = find_at sqlc_name c.before c.rest in
    let matched = take (length start - length c.rest) start in
    let chunk = matched ++ chunk_rest c next in
    statement_of file line (group_of 1 c.groups) (trim_space chunk) (classify_one chunk)
    ++ elim next [
      | none ↦ []
      | some (passed, start', c') ↦
          named_chunks n file (line + count_lines matched + count_lines passed) start' c'
    ]

-- `statementsFromSQLFile`, of the file's text.
unfoldable pub statements_from_sql_file : Bytes → Bytes → List Statement
unfolding named_chunks find_at sqlc_name classify_one trim_space
statements_from_sql_file file text = elim (find_at sqlc_name none text) [
  | none ↦ statement_of file 1 [] (trim_space text) (classify_one text)
  | some (passed, start, c) ↦ named_chunks (length text) file (1 + count_lines passed) start c
]

-- `.`
abbrev any_byte : Re
any_byte = one (λ c. not (c == 10))

-- `generatedHeader`
unfoldable pub generated_header : Re
unfolding exactly
generated_header = seq line_start (
    seq (exactly (codes "// Code generated ")) (
      seq (star any_byte)
        (seq (exactly (codes " DO NOT EDIT")) (seq (opt (byte_re b'.')) line_end))))

abbrev name_in : Option Cursor → Bytes
name_in none = []
name_in (some c) = group_of 1 c.groups

-- The string literals of a Go file, unquoted, with their lines, as go/parser and strconv give them.
unfoldable pub from_literals : Bytes → List (ℕ × Bytes) → List Statement
unfolding classify_one trim_space find sqlc_name group_of
from_literals file [] = []
from_literals file ((line, text) ∷ literals) =
    let trimmed = trim_space text in
    statement_of file line (name_in (find sqlc_name none trimmed)) trimmed (classify_one trimmed)
    ++ from_literals file literals

-- `statementsFromGoFile`; no literals where the file does not parse.
unfoldable pub statements_from_go_file : Bytes → Bytes → Option (List (ℕ × Bytes)) → List Statement
unfolding find generated_header from_literals
statements_from_go_file file text none = []
statements_from_go_file file text (some literals) = elim (find generated_header none text) [
  | none ↦ from_literals file literals
  | some _ ↦ []
]

-- `tenantColumnNames`
unfoldable pub tenant_column_names : List Bytes
tenant_column_names = map codes (
    "tenant_id" ∷ "org_id" ∷ "organization_id" ∷ "workspace_id" ∷ "account_id" ∷ "customer_id"
    ∷ "owner_id" ∷ "owner" ∷ [])

-- `mentionsColumn`
unfoldable pub mentions_column : Bytes → Bytes → Bool
unfolding find literal
mentions_column sql column = elim (find (seq boundary (seq (literal column) boundary)) none sql) [
  | none ↦ false
  | some _ ↦ true
]

-- The first of the names that the statement mentions.
unfoldable pub first_mentioned : Bytes → List Bytes → Option Bytes
unfolding mentions_column
first_mentioned sql [] = none
first_mentioned sql (c ∷ cs) =
    let rest = first_mentioned sql cs in if mentions_column sql c then some c else rest

-- The three maps of `classifyTables`.
pub record Tally : Type 0 where
  pub total : Assoc ℕ
  pub with_evidence : Assoc ℕ
  pub col : Assoc Bytes

abbrev pub no_tally : Tally
no_tally = record { total = []; with_evidence = []; col = [] }

-- `m[k]` of a map of ints
abbrev pub count_in : Bytes → Assoc ℕ → ℕ
count_in k m = elim (lookup k m) [ none ↦ 0 | some n ↦ n ]

abbrev pub keep_first : Bytes → Bytes → Assoc Bytes → Assoc Bytes
keep_first k c m = elim (lookup k m) [ none ↦ insert k c m | some _ ↦ m ]

abbrev pub with_mention : Bytes → Option Bytes → Tally → Tally
with_mention table none t = t
with_mention table (some c) t = record t {
  with_evidence = insert table (count_in table t.with_evidence + 1) t.with_evidence;
  col = keep_first table c t.col;
}

unfoldable pub tally_one : Statement → Tally → Tally
unfolding first_mentioned
tally_one s t =
    if equal s.table []
    then t
    else with_mention s.table (first_mentioned s.sql tenant_column_names)
        (record t { total = insert s.table (count_in s.table t.total + 1) t.total })

unfoldable pub tally_from : Tally → List Statement → Tally
unfolding tally_one
tally_from t [] = t
tally_from t (s ∷ ss) = tally_from (tally_one s t) ss

-- `classifyTables`: `col` is `knownScoped`, and a table's ratio the quotient of the two counts.
unfoldable pub classify_tables : List Statement → Tally
unfolding tally_from
classify_tables ss = tally_from no_tally ss
