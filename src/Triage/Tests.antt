-- ===== src/Triage/Tests.antt =====
-- Tests of the triage.
use mathlib.Core.List.{Perm}
use tenantguard.Base.{List, [], false, map, none, refl, some, true, ◌∷◌, ◌≡◌}
use tenantguard.Base.Assoc.{insert, lookup}
use tenantguard.Base.Bytes.{codes, equal}
use tenantguard.Triage.{Statement, classify_tables, statements_from_sql_file, tenant_column_names}
use tenantguard.Triage.Evidence.{AllFounded}
use tenantguard.Triage.Order.{InOrder, Numbered, rank_suspicions-Ranked, unranked}
use tenantguard.Triage.Rank.{
  SourceFile, Suspicion, rank_suspicions, ranks_before, run_triage, scan_files, suspicions,
}
use tenantguard.Triage.Run.{run_triage-Founded}
use tenantguard.Triage.Shape.{classify_one, sql_clause_words}

abbrev scoped_read : Statement
scoped_read = record {
  file = codes "q.sql";
  line = 1;
  name = codes "ListOrders";
  writes = false;
  table = codes "orders";
  sql = codes "select id from orders where org_id = $1";
}

abbrev bare_read : Statement
bare_read = record scoped_read { line = 9; sql = codes "select id from orders where id = $1" }

abbrev bare_write : Statement
bare_write = record scoped_read {
  line = 20;
  writes = true;
  sql = codes "delete from orders where id = $1";
}

abbrev corpus : List Statement
corpus = scoped_read ∷ bare_read ∷ bare_write ∷ []

select_is_read :
    classify_one (codes "SELECT id FROM orders WHERE id = $1") ≡ some (false, codes "orders")
unfolding classify_one codes equal sql_clause_words
select_is_read = refl

delete_is_write : classify_one (codes "delete from Orders;") ≡ some (true, codes "orders")
unfolding classify_one codes equal sql_clause_words
delete_is_write = refl

prose_is_none : classify_one (codes "Delete all encrypted data from the local database file") ≡ none
unfolding classify_one codes equal sql_clause_words
prose_is_none = refl

-- An alias at the end of the text is taken for prose.
alias_at_end : classify_one (codes "SELECT id FROM orders o") ≡ none
unfolding classify_one codes equal sql_clause_words
alias_at_end = refl

-- As is a table in front of a closing parenthesis.
subquery_in_front : classify_one (codes "SELECT (SELECT max(id) FROM orders) FROM org") ≡ none
unfolding classify_one codes equal sql_clause_words
subquery_in_front = refl

second_query :
    map
      (λ s. s.line)
      (statements_from_sql_file
        (codes "q.sql")
        (codes "-- name: A :one\nselect id from a;\n-- name: B :many\nselect id from b;\n"))
    ≡ 1 ∷ 3 ∷ []
unfolding statements_from_sql_file codes equal sql_clause_words
second_query = refl

abbrev ranked : List Suspicion
ranked = rank_suspicions (suspicions (classify_tables corpus) corpus)

suspected : map (λ s. s.line) ranked ≡ 20 ∷ 9 ∷ []
unfolding rank_suspicions suspicions classify_tables codes equal tenant_column_names lookup insert
    ranks_before
suspected = refl

abbrev queries : List SourceFile
queries =
    record {
      path = codes "queries/orders.sql";
      text = some (
          codes
            "-- name: A :one\nselect id from orders where org_id = $1;\n-- name: B :one\nselect id from orders;\n");
      literals = none;
    }
    ∷ []

one_found : map (λ s. s.line) (run_triage queries).found ≡ 3 ∷ []
unfolding run_triage codes equal sql_clause_words tenant_column_names lookup insert
one_found = refl

run_triage-Founded_example :
    AllFounded (scan_files queries).1 (run_triage queries).found
    × InOrder (run_triage queries).found
    × Numbered 1 (run_triage queries).found
run_triage-Founded_example = run_triage-Founded queries

rank_suspicions-Ranked_example :
    Perm (map unranked ranked) (map unranked (suspicions (classify_tables corpus) corpus))
    × InOrder ranked
    × Numbered 1 ranked
rank_suspicions-Ranked_example = rank_suspicions-Ranked (suspicions (classify_tables corpus) corpus)
