-- ===== src/Differ/Tests.antt =====
-- Concrete comparisons, and a server on which the differ's re-executions run: a table of one row that
-- a write empties, and a tenant that may not touch it.
use tenantguard.Base.{[], arith, false, inl, inr, map, refl, some, true, ◌++◌, ◌↔◌, ◌∷◌, ◌≡◌, ◌≢◌}
use tenantguard.Base.Bytes.{Bytes, codes, equal, starts_with}
use tenantguard.Base.Text.{trim_space}
use tenantguard.Differ.Contained.{is_contained}
use tenantguard.Differ.Extract.{
  alias_stop_words, all_decoded, attr_resolved, attr_unattributable, compared, compared_all,
  compared_relations, extract_tenant, from_scoped,
}
use tenantguard.Differ.Extract.Claims.{Claimed, extract_tenant-Claimed}
use tenantguard.Differ.Patterns.{tenant_compare_regex}
use tenantguard.Differ.Regex.{find, find_all, run}
use tenantguard.Differ.Rerun.{
  acquired_rerun, query_rolled_back, read_set, run_rolled_back, run_rolled_back_as_tenant,
  scan_rows, tenant_rerun,
}
use tenantguard.Differ.Rows.{collect_rows, join_cells}
use tenantguard.Differ.Rows.Multiset.{count}
use tenantguard.Differ.Rows.Render.{AllPlain, join_cells-injective}
use tenantguard.Differ.Samples.{
  a_row, b_row, delete_row, isolation, orders, server, tenant_params, tenant_query, write_event,
}
use tenantguard.Differ.Single.{
  check_tenant, collect_cte_names, cte_names, referenced_relation_names,
}
use tenantguard.Differ.Single.Enough.{collect_cte_names-fuel}
use tenantguard.Differ.Single.Resolved.{Judged, check_tenant-Judged}
use tenantguard.Differ.Statement.{is_write_statement, skip_space, statement_contains_write}
use tenantguard.Differ.Statement.Enough.{statement_contains_write-fuel}
use tenantguard.Differ.Verdict.{
  classify_write, compare_rows, diff, diff_read, leak, read_compared, read_second, safe,
  unattributable,
}
use tenantguard.Differ.Verdict.Durable.{Kept, diff-Kept}
use tenantguard.Differ.Verdict.Leaks.{safe_iff_same_rows, separator_collision, withheld_row_leaks}
use tenantguard.Differ.Verdict.Refused.{Ended, read_verdict-Ended, write_known-Refused}
use tenantguard.Differ.Write.{delete_conflicting_row, exec_rolled_back, flat, write_known}
use tenantguard.Differ.Write.Classify.{Paired, exec_rolled_back-Paired}
use tenantguard.Differ.Write.Conflict.{ConflictKey}
use tenantguard.Schema.{is_in}

safe_iff_same_rows_example :
    ((compare_rows []
        (collect_rows (a_row ∷ b_row ∷ []))
        (collect_rows (b_row ∷ a_row ∷ []))).verdict
      ≡ safe)
    ↔ ((k : Bytes)
        → count k (map join_cells (a_row ∷ b_row ∷ []))
          ≡ count k (map join_cells (b_row ∷ a_row ∷ [])))
safe_iff_same_rows_example = safe_iff_same_rows [] (a_row ∷ b_row ∷ []) (b_row ∷ a_row ∷ [])

b_row-AllPlain : AllPlain b_row
unfolding codes
b_row-AllPlain = (((omega arith, tt), ground arith), (tt, tt))

a_row-AllPlain : AllPlain a_row
unfolding codes
a_row-AllPlain = (((omega arith, tt), ground arith), (tt, tt))

rows_differ : b_row ≢ a_row
rows_differ = ground arith

withheld_row_leaks_example :
    (compare_rows [] (collect_rows (a_row ∷ b_row ∷ [])) (collect_rows (a_row ∷ []))).verdict ≡ leak
withheld_row_leaks_example =
    withheld_row_leaks [] 2 b_row (a_row ∷ b_row ∷ []) (a_row ∷ []) refl b_row-AllPlain
      (refl, a_row-AllPlain, tt) (inr (inl refl)) (rows_differ, tt)

join_cells-injective_example : a_row ≡ a_row
join_cells-injective_example =
    join_cells-injective a_row a_row refl a_row-AllPlain a_row-AllPlain refl

separator_collision_example :
    (compare_rows []
      (collect_rows ((some (b'x' ∷ 31 ∷ b'y' ∷ []) ∷ some (b'z' ∷ []) ∷ []) ∷ []))
      (collect_rows ((some (b'x' ∷ []) ∷ some (b'y' ∷ 31 ∷ b'z' ∷ []) ∷ []) ∷ []))).verdict
    ≡ safe
separator_collision_example = separator_collision [] (b'x' ∷ []) (b'y' ∷ []) (b'z' ∷ [])

-- A statement behind a comment, and texts that might end the transaction.
commented_test :
    is_contained (codes "-- name: Purge :exec\nDELETE FROM orders WHERE id = $1;\n") ≡ true
unfolding is_contained codes equal skip_space starts_with trim_space
commented_test = refl

commit_test : is_contained (codes "DELETE FROM orders; COMMIT") ≡ false
unfolding is_contained codes equal skip_space starts_with
commit_test = refl

call_test : is_contained (codes "CALL purge()") ≡ false
unfolding is_contained codes equal skip_space starts_with
call_test = refl

delete_row-contained : is_contained delete_row ≡ true
unfolding is_contained delete_row codes equal skip_space starts_with
delete_row-contained = refl

diff-Kept_example :
    Kept (server 1) isolation true true (diff (server 1) (orders ∷ []) true true write_event)
diff-Kept_example =
    diff-Kept (server 1) isolation (orders ∷ []) true true write_event delete_row-contained

extract_tenant_test :
    extract_tenant (orders ∷ []) tenant_query tenant_params ≡ attr_resolved (codes "t1")
unfolding extract_tenant codes equal is_in alias_stop_words from_scoped compared_relations find_all
    tenant_compare_regex find run compared_all compared starts_with
extract_tenant_test = refl

-- The comparison of another column, whose name ends in the tenant column's.
abbrev other_column : Bytes
other_column = codes "SELECT 1 FROM orders WHERE parent_tenant_id = $1"

other_column_test :
    extract_tenant (orders ∷ []) other_column tenant_params ≡ attr_resolved (codes "t1")
unfolding extract_tenant codes equal is_in alias_stop_words from_scoped compared_relations find_all
    tenant_compare_regex find run compared_all compared starts_with
other_column_test = refl

extract_tenant-Claimed_example :
    Claimed tenant_params (extract_tenant (orders ∷ []) tenant_query tenant_params)
    × (all_decoded tenant_params ≡ false
        → extract_tenant (orders ∷ []) tenant_query tenant_params ≡ attr_unattributable)
extract_tenant-Claimed_example = extract_tenant-Claimed tenant_params (orders ∷ []) tenant_query

exec_rolled_back-Paired_example : Paired (exec_rolled_back (server 1) true delete_row []).1
exec_rolled_back-Paired_example = exec_rolled_back-Paired (server 1) true delete_row []

abbrev collision : ConflictKey
collision = record {
  schema = codes "public";
  table = codes "orders";
  cols = codes "id" ∷ [];
  vals = codes "1" ∷ [];
}

write_known-Refused_example :
    (classify_write
      (codes "t1")
      1
      (write_known (server 0) delete_row [] collision (true, true)).0).verdict
    ≡ unattributable
unfolding delete_conflicting_row flat
write_known-Refused_example =
    write_known-Refused (server 0) (codes "t1") delete_row [] 1 collision (true, true)
      (ground arith) tt

verdict_reached :
    (diff_read (server 1) true true (codes "t1") delete_row []).0.verdict ≢ unattributable
unfolding diff_read read_second run_rolled_back query_rolled_back read_set scan_rows read_compared
    run_rolled_back_as_tenant acquired_rerun tenant_rerun
verdict_reached e = ground arith

read_verdict-Ended_example :
    Ended (server 1) (run_rolled_back (server 1) true delete_row []).0
    × Ended (server 1) (run_rolled_back_as_tenant (server 1) true (codes "t1") delete_row []).0
read_verdict-Ended_example =
    read_verdict-Ended (server 1) true true (codes "t1") delete_row [] verdict_reached

-- WITH d AS (DELETE FROM t) SELECT 1
abbrev nested_write : Bytes
nested_write = codes "WITH d AS (DELETE FROM t) SELECT 1"

statement_contains_write-fuel_example :
    statement_contains_write 35 nested_write ≡ statement_contains_write 100 nested_write
unfolding codes
statement_contains_write-fuel_example =
    statement_contains_write-fuel 35 100 nested_write (omega arith) (omega arith)

-- The body of the CTE reads the scoped relation itself.
abbrev shadowing : Bytes
shadowing = codes "WITH orders AS (SELECT id FROM orders) SELECT id FROM orders"

collect_cte_names-fuel_example : collect_cte_names 70 shadowing ≡ collect_cte_names 100 shadowing
unfolding codes
collect_cte_names-fuel_example = collect_cte_names-fuel 70 100 shadowing (omega arith) (omega arith)

-- Its tables' names are those of its CTEs, so that no tenant is asked for.
shadowing_test : check_tenant shadowing (orders ∷ []) [] (codes "t1") ≡ (safe, [])
unfolding check_tenant codes is_in equal starts_with skip_space
shadowing_test = refl

check_tenant-Judged_example :
    Judged
      (cte_names tenant_query)
      (orders ∷ [])
      (referenced_relation_names tenant_query)
      (extract_tenant (orders ∷ []) tenant_query tenant_params)
      (codes "t1")
      (check_tenant tenant_query (orders ∷ []) tenant_params (codes "t1")).0
check_tenant-Judged_example =
    check_tenant-Judged tenant_query (orders ∷ []) tenant_params (codes "t1")

-- A write behind a comment of the other form, and one in the body of a CTE whose quoted name has a
-- doubled quote, are not recognised.
block_comment_test : is_write_statement (codes "/* purge */ DELETE FROM orders") ≡ false
unfolding is_write_statement codes starts_with skip_space
block_comment_test = refl

doubled_quote_test :
    is_write_statement
      (codes "WITH " ++ 34 ∷ b'a' ∷ 34 ∷ 34 ∷ b'b' ∷ 34 ∷ codes " AS (DELETE FROM orders) SELECT 1")
    ≡ false
unfolding is_write_statement codes starts_with skip_space
doubled_quote_test = refl

nested_write_test : is_write_statement nested_write ≡ true
unfolding is_write_statement codes starts_with skip_space
nested_write_test = refl
