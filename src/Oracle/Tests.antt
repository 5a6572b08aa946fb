-- ===== src/Oracle/Tests.antt =====
-- Concrete runs of the seeding and of the checks of internal/oracle.
use tenantguard.Base.{List, [], arith, false, inr, none, refl, some, ◌++◌, ◌∷◌, ◌≡◌}
use tenantguard.Base.Assoc.{lookup}
use tenantguard.Base.Bytes.{codes, equal}
use tenantguard.Base.Text.{trim_space}
use tenantguard.Capture.Oid.Decimal.{digits_onto, format_uint}
use tenantguard.Differ.Extract.{to_lower}
use tenantguard.Differ.Rerun.{done}
use tenantguard.Differ.Write.{quote_ident}
use tenantguard.Oracle.Coverage.{Confirmed, enable_rls-Confirmed}
use tenantguard.Oracle.Grants.{Among, role_statements-Among}
use tenantguard.Oracle.Inserts.{copied, first_index, second_index}
use tenantguard.Oracle.Ledger.{Accounts, seed_canaries-Accounts}
use tenantguard.Oracle.Literal.{
  base_type, canary_a, canary_b, sample_value, samples, strip_array, uuid,
}
use tenantguard.Oracle.Plan.{Column, Planning, RowPlan, need_from, plan_row}
use tenantguard.Oracle.Rows.{is_left_out}
use tenantguard.Oracle.Seed.{planning}
use tenantguard.Oracle.SmallDatabase.{
  id_column, note_column, one_seeded, seeded_orders, seeded_test, small_database, small_probe,
  tenant_id_column,
}
use tenantguard.Oracle.Synthesis.{
  enable_rls, exec_all, rls_statements, role_statements, sequences_grant, tables_grant, usage_grant,
}
use tenantguard.Oracle.Unique.{Differ, IsKey, plan_row-Differ}
use tenantguard.Schema.{is_in}

abbrev plan_inputs : Planning
plan_inputs = planning small_probe 0 seeded_orders (codes "id" ∷ [])

abbrev the_columns : List Column
the_columns = id_column ∷ tenant_id_column ∷ note_column ∷ []

abbrev first_plan : RowPlan
first_plan = record {
  insert_cols =
      quote_ident (codes "id") ∷ quote_ident (codes "tenant_id") ∷ quote_ident (codes "note") ∷ [];
  exprs =
      codes "'00000000-0000-4000-8000-000000000000'::uuid"
      ∷ codes "'tgd-canary-aaaa'"
      ∷ quote_ident (codes "note")
      ∷ [];
}

abbrev second_plan : RowPlan
second_plan = record first_plan {
  exprs =
      codes "'00000000-0000-4000-8000-000000000001'::uuid"
      ∷ codes "'tgd-canary-bbbb'"
      ∷ quote_ident (codes "note")
      ∷ [];
}

first_plan_test :
    plan_row plan_inputs (copied canary_a first_index) 0 the_columns ≡ done (inr first_plan)
unfolding plan_row codes samples lookup equal format_uint digits_onto quote_ident
first_plan_test = refl

second_plan_test :
    plan_row plan_inputs (copied canary_b second_index) 0 the_columns ≡ done (inr second_plan)
unfolding plan_row codes samples lookup equal format_uint digits_onto quote_ident
second_plan_test = refl

id_needed : plan_inputs.need ≡ need_from (codes "tenant_id") ([] ++ (codes "id" ∷ []) ∷ [])
unfolding need_from is_in codes equal
id_needed = refl

id-IsKey : IsKey (codes "tenant_id") (codes "id" ∷ []) id_column
unfolding is_in codes equal base_type strip_array to_lower trim_space lookup samples
id-IsKey = record {
  inside = refl;
  tenant_column = λ h. ground arith;
  sampled_column = λ _. (refl, uuid, refl);
}

id_kept : is_left_out plan_inputs id_column ≡ false
unfolding codes equal
id_kept = refl

plan_row-Differ_example : Differ id_column first_plan second_plan
plan_row-Differ_example =
    plan_row-Differ plan_inputs id_column [] [] (codes "id" ∷ []) id_needed id-IsKey id_kept 0 []
      (tenant_id_column ∷ note_column ∷ []) first_plan second_plan (omega arith) first_plan_test
      second_plan_test

seed_canaries-Accounts_example : Accounts (seeded_orders ∷ []) one_seeded
seed_canaries-Accounts_example =
    seed_canaries-Accounts small_probe 0 (seeded_orders ∷ []) one_seeded seeded_test

-- The cut at the parenthesis takes the rest of the type's name along.
inner_modifier_test : sample_value (codes "timestamp(3) without time zone") 0 ≡ none
unfolding sample_value codes samples lookup equal
inner_modifier_test = refl

nested_array_test :
    sample_value (codes "integer[][]") 7 ≡ some (codes "ARRAY[ARRAY[1007]::integer[]]::integer[][]")
unfolding sample_value codes samples lookup equal format_uint digits_onto
nested_array_test = refl

enable_rls-Confirmed_example :
    let run = exec_all small_database 0 (rls_statements seeded_orders (codes "p0")) in
    (run.0 ≡ none)
    × ((enable_rls small_database 0 seeded_orders (codes "p0")).1 ≡ run.1)
    × Confirmed small_database run.1 seeded_orders
unfolding enable_rls
enable_rls-Confirmed_example = enable_rls-Confirmed small_database 0 seeded_orders (codes "p0") refl

role_statements-Among_example :
    let statements = role_statements (codes "r") (codes "pw") (seeded_orders ∷ []) in
    Among (usage_grant (codes "r") seeded_orders.schema) statements
    × Among (tables_grant (codes "r") seeded_orders.schema) statements
    × Among (sequences_grant (codes "r") seeded_orders.schema) statements
unfolding codes
role_statements-Among_example =
    role_statements-Among (codes "r") (codes "pw") [] [] seeded_orders (ground arith)
