-- ===== src/Triage/Rank.antt =====
-- internal/triage/triage.go: the suspicions of `Run`, their ranking, and the report.
use tenantguard.Base.{
  Bool, List, Option, [], drop, false, if◌then◌else◌, leb, length, ltb, map, none, not, some, true,
  ℕ, ◌&&◌, ◌*◌, ◌++◌, ◌+◌, ◌-◌, ◌==◌, ◌∷◌,
}
use tenantguard.Base.Assoc.{lookup}
use tenantguard.Base.Bytes.{Bytes, codes, contains, equal}
use tenantguard.Differ.Extract.{to_lower}
use tenantguard.Differ.Rows.{less_eq, sort}
use tenantguard.Triage.{
  Statement, Tally, classify_tables, count_in, mentions_column, statements_from_go_file,
  statements_from_sql_file,
}

-- `Suspicion`. The confidence is the quotient of `evidence` and `total`, which float64 keeps apart from
-- other such quotients as long as the numbers are below 2^26; the column stands for the reason.
pub record Suspicion : Type 0 where
  pub file : Bytes
  pub line : ℕ
  pub query_name : Bytes
  pub table : Bytes
  pub writes : Bool
  pub column : Bytes
  pub evidence : ℕ
  pub total : ℕ
  pub rank : ℕ
  pub sql : Bytes

abbrev pub suspicion_of : Tally → Statement → Bytes → Suspicion
suspicion_of t s column = record {
  file = s.file;
  line = s.line;
  query_name = s.name;
  table = s.table;
  writes = s.writes;
  column = column;
  evidence = count_in s.table t.with_evidence;
  total = count_in s.table t.total;
  rank = 0;
  sql = s.sql;
}

-- A statement's turn in the loop of `Run`, by what `knownScoped` has for its table.
abbrev pub flagged : Tally → Statement → Option Bytes → List Suspicion
flagged t s none = []
flagged t s (some column) =
    if mentions_column s.sql column then [] else suspicion_of t s column ∷ []

-- The loop of `Run` over the statements.
unfoldable pub suspicions : Tally → List Statement → List Suspicion
suspicions t [] = []
suspicions t (s ∷ ss) = flagged t s (lookup s.table t.col) ++ suspicions t ss

-- `a < b` on Go strings
abbrev pub less : Bytes → Bytes → Bool
less a b = not (less_eq b a)

-- The order of `rankSuspicions`.
unfoldable pub ranks_before : Suspicion → Suspicion → Bool
ranks_before a b =
    if a.writes && not b.writes
    then true
    else if b.writes && not a.writes
    then false
    else if not (a.evidence * b.total == b.evidence * a.total)
    then ltb (b.evidence * a.total) (a.evidence * b.total)
    else if not (equal a.file b.file)
    then less a.file b.file
    else ltb a.line b.line

-- sort.SliceStable: an element stands before those behind it in the input that do not rank before it.
unfoldable pub insert_ranked : Suspicion → List Suspicion → List Suspicion
insert_ranked x [] = x ∷ []
insert_ranked x (y ∷ ys) =
    let later = y ∷ insert_ranked x ys in if ranks_before y x then later else x ∷ y ∷ ys

unfoldable pub sort_stable : List Suspicion → List Suspicion
unfolding insert_ranked
sort_stable [] = []
sort_stable (x ∷ xs) = insert_ranked x (sort_stable xs)

abbrev pub with_rank : ℕ → Suspicion → Suspicion
with_rank n s = record s { rank = n }

unfoldable pub number_from : ℕ → List Suspicion → List Suspicion
number_from n [] = []
number_from n (s ∷ ss) = with_rank n s ∷ number_from (n + 1) ss

-- `rankSuspicions`
unfoldable pub rank_suspicions : List Suspicion → List Suspicion
unfolding sort_stable number_from
rank_suspicions ss = number_from 1 (sort_stable ss)

-- A file that the walk hands over: its text where it can be read, and its string literals where it
-- parses as Go.
pub record SourceFile : Type 0 where
  pub path : Bytes
  pub text : Option Bytes
  pub literals : Option (List (ℕ × Bytes))

unfoldable pub has_suffix : Bytes → Bytes → Bool
has_suffix s p = leb (length p) (length s) && equal (drop (length s - length p) s) p

abbrev text_statements : (Bytes → List Statement) → Option Bytes → List Statement
text_statements read none = []
text_statements read (some text) = read text

-- A file's turn in the walk: its statements, `none` where it is not scanned.
unfoldable pub scan_file : SourceFile → Option (List Statement)
unfolding has_suffix contains to_lower statements_from_sql_file statements_from_go_file
scan_file f =
    if has_suffix f.path (codes ".sql")
    then if contains (to_lower f.path) (codes "/migrations/")
      then none
      else some (text_statements (statements_from_sql_file f.path) f.text)
    else if has_suffix f.path (codes ".go")
    then some (text_statements (λ text. statements_from_go_file f.path text f.literals) f.text)
    else none

abbrev add_scan : Option (List Statement) → ℕ × List Statement → ℕ × List Statement
add_scan none rest = rest
add_scan (some ss) (n, all) = (n + 1, ss ++ all)

unfoldable pub scan_files : List SourceFile → ℕ × List Statement
unfolding scan_file
scan_files [] = (0, [])
scan_files (f ∷ fs) = add_scan (scan_file f) (scan_files fs)

-- `Report`, without its fixed label, the root and the time.
pub record Report : Type 0 where
  pub files_scanned : ℕ
  pub statements_found : ℕ
  pub known_scoped_tables : List Bytes
  pub found : List Suspicion

abbrev report_on : ℕ → List Statement → Report
report_on files ss =
    let t = classify_tables ss in
    record {
      files_scanned = files;
      statements_found = length ss;
      known_scoped_tables = sort (map (λ e. e.0) t.col);
      found = rank_suspicions (suspicions t ss);
    }

-- `Run`, on the files that it walks over.
unfoldable pub run_triage : List SourceFile → Report
unfolding scan_files classify_tables suspicions rank_suspicions sort
run_triage files = let (n, ss) = scan_files files in report_on n ss
