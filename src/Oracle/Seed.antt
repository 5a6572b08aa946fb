-- ===== src/Oracle/Seed.antt =====
-- internal/oracle/probe.go: `SeedCanaries`, the two canary rows of each scoped relation.
use tenantguard.Base.{List, Option, [], inl, inr, length, none, some, ℕ, ◌++◌, ◌+◌, ◌∷◌, ◌⊎◌}
use tenantguard.Base.Assoc.{Assoc}
use tenantguard.Base.Bytes.{Bytes, codes}
use tenantguard.Capture.Oid.Decimal.{format_uint}
use tenantguard.Differ.Regex.{run}
use tenantguard.Differ.Rerun.{Answer, Failure, done, failed, wrap}
use tenantguard.Oracle.Inserts.{
  both_plans, copied, first_index, fixture_row, from_fixture, insert_copies, insert_values,
  second_index, sql_name,
}
use tenantguard.Oracle.Literal.{canary_a, canary_b}
use tenantguard.Oracle.Plan.{Column, Planning, RowPlan, columns_needing_synthetic_values, plan_row}
use tenantguard.Schema.{Relation, qualified}

-- database/sql on the probe database, by the calls that seeding makes, with strconv.Quote. `columns`
-- and `index_columns` are the catalog's answers for a schema and a name, `ctids` is a query of one
-- column of texts.
pub record Probe : Type 1 where
  pub Db : Type 0
  pub connect : Db → Option Failure
  pub exec : Db → Bytes → Option Failure × Db
  pub columns : Db → Bytes → Bytes → Answer (List Column)
  pub index_columns : Db → Bytes → Bytes → Answer (List (ℕ × Bytes))
  pub ctids : Db → Bytes → Answer (List Bytes)
  pub labels : Db → Bytes → Answer (List Bytes)
  pub quoted : Bytes → Bytes

-- How a relation's turn ends: skipped for a reason, or seeded from a source.
pub data Turn : Type 0 where
  skip : Bytes → Turn
  seed : Bytes → Turn

abbrev pub sampled : Bytes
sampled = codes "sampled"

abbrev pub from_fixtures : Bytes
from_fixtures = codes "fixture"

-- `SeededTable` and `SkippedTable`, each with its table first.
pub record Ledger : Type 0 where
  pub seeded : List (Bytes × Bytes)
  pub skipped : List (Bytes × Bytes)

abbrev pub empty_ledger : Ledger
empty_ledger = record { seeded = []; skipped = [] }

abbrev pub enter : Relation → Turn → Ledger → Ledger
enter r (skip reason) l = record l { skipped = (qualified r, reason) ∷ l.skipped }
enter r (seed source) l = record l { seeded = (qualified r, source) ∷ l.seeded }

-- By the error and the reason that the seeding returned.
abbrev pub turn_of : Bytes → Answer Bytes → Turn
turn_of source (failed f) = skip f.text
turn_of source (done []) = seed source
turn_of source (done (c ∷ cs)) = skip (c ∷ cs)

module _ (v : Probe) where
  abbrev pub inserted : Option Failure × v.Db → Answer Bytes × v.Db
  inserted (none, db) = (done [], db)
  inserted (some f, db) = (failed (wrap (codes "insert: ") f), db)

  abbrev run_copies :
      Relation → Bytes → Bytes → v.Db → Answer (Bytes ⊎ (RowPlan × RowPlan)) → Answer Bytes × v.Db
  run_copies r ctid_a ctid_b db (failed f) = (failed f, db)
  run_copies r ctid_a ctid_b db (done (inl reason)) = (done reason, db)
  run_copies r ctid_a ctid_b db (done (inr (a, b))) =
      inserted (v.exec db (insert_copies r a b ctid_a ctid_b))

  abbrev second_insert : Relation → RowPlan → Option Failure × v.Db → Answer Bytes × v.Db
  second_insert r b (some f, db) = (failed (wrap (codes "insert: ") f), db)
  second_insert r b (none, db) = inserted (v.exec db (insert_values r b))

  abbrev run_values : Relation → v.Db → Answer (Bytes ⊎ (RowPlan × RowPlan)) → Answer Bytes × v.Db
  run_values r db (failed f) = (failed f, db)
  run_values r db (done (inl reason)) = (done reason, db)
  run_values r db (done (inr (a, b))) = second_insert r b (v.exec db (insert_values r a))

  abbrev pub planning : v.Db → Relation → List Bytes → Planning
  planning db r need = record {
    labels = v.labels db;
    quoted = v.quoted;
    tenant = r.tenant_column;
    need = need;
  }

  -- `seedFromSample`
  unfoldable pub seed_from_sample :
      v.Db → Relation → List Column → List Bytes → Bytes → Bytes → Answer Bytes × v.Db
  unfolding plan_row insert_copies
  seed_from_sample db r cols need ctid_a ctid_b = run_copies r ctid_a ctid_b db (
      both_plans (plan_row (planning db r need) (copied canary_a first_index) 0 cols)
        (plan_row (planning db r need) (copied canary_b second_index) 0 cols))

  -- `seedFromFixture`
  unfoldable pub seed_from_fixture :
      v.Db → Relation → List Column → List Bytes → List (Assoc Bytes) → Answer Bytes × v.Db
  unfolding plan_row insert_values from_fixture
  seed_from_fixture db r cols need [] =
      (done (codes "no rows to sample (fewer than 2 exist) and no fixture supplied"), db)
  seed_from_fixture db r cols need (fx ∷ []) =
      (done (codes "fixture must supply exactly 2 rows, got 1"), db)
  seed_from_fixture db r cols need (fx_a ∷ fx_b ∷ []) = run_values r db (
      both_plans
        (plan_row (planning db r need) (fixture_row v.quoted canary_a first_index fx_a) 0 cols)
        (plan_row (planning db r need) (fixture_row v.quoted canary_b second_index fx_b) 0 cols))
  seed_from_fixture db r cols need (fx ∷ fy ∷ fz ∷ more) =
      (done (codes "fixture must supply exactly 2 rows, got " ++ format_uint (3 + length more)), db)

  abbrev finish : Bytes → Answer Bytes × v.Db → Turn × v.Db
  finish source (a, db) = (turn_of source a, db)

  -- By the rows that there are to sample.
  abbrev seed_by : v.Db → Relation → List Column → List Bytes → List Bytes → Turn × v.Db
  seed_by db r cols need (a ∷ b ∷ []) = finish sampled (seed_from_sample db r cols need a b)
  seed_by db r cols need _ = finish from_fixtures (seed_from_fixture db r cols need r.fixture)

  abbrev with_ctids : v.Db → Relation → List Column → List Bytes → Answer (List Bytes) → Turn × v.Db
  with_ctids db r cols need (failed f) = (skip (codes "sample rows: " ++ f.text), db)
  with_ctids db r cols need (done ctids) = seed_by db r cols need ctids

  abbrev pub sample_query : Relation → Bytes
  sample_query r = codes "SELECT ctid FROM " ++ sql_name r ++ codes " LIMIT 2"

  abbrev with_need : v.Db → Relation → List Column → Answer (List Bytes) → Turn × v.Db
  with_need db r cols (failed f) = (skip (codes "read unique indexes: " ++ f.text), db)
  with_need db r cols (done need) = with_ctids db r cols need (v.ctids db (sample_query r))

  abbrev with_columns : v.Db → Relation → Answer (List Column) → Turn × v.Db
  with_columns db r (failed f) = (skip (codes "read columns: " ++ f.text), db)
  with_columns db r (done cols) =
      with_need db r cols
        (columns_needing_synthetic_values r.tenant_column (v.index_columns db r.schema r.name))

  -- The loop's body.
  unfoldable pub seed_relation : v.Db → Relation → Turn × v.Db
  unfolding seed_from_sample seed_from_fixture columns_needing_synthetic_values sql_name
  seed_relation db r = with_columns db r (v.columns db r.schema r.name)

  unfoldable pub seed_all : v.Db → List Relation → Ledger × v.Db
  unfolding seed_relation
  seed_all db [] = (empty_ledger, db)
  seed_all db (r ∷ rs) =
      let turn = seed_relation db r in
      let rest = seed_all turn.1 rs in (enter r turn.0 rest.0, rest.1)

  abbrev pub after_connect : (Ledger × v.Db) → Option Failure × v.Db → Answer Ledger × v.Db
  after_connect run (some f, db) = (failed (wrap (codes "disable triggers on probe: ") f), db)
  after_connect run (none, db) = (done run.0, run.1)

  abbrev pub once_connected : v.Db → List Relation → Option Failure → Answer Ledger × v.Db
  once_connected db rels (some f) = (failed f, db)
  once_connected db rels none =
      let ready = v.exec db (codes "SET session_replication_role = replica") in
      after_connect (seed_all ready.1 rels) ready

  -- `SeedCanaries`
  unfoldable pub seed_canaries : v.Db → List Relation → Answer Ledger × v.Db
  unfolding seed_all
  seed_canaries db rels = once_connected db rels (v.connect db)
