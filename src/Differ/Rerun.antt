-- ===== src/Differ/Rerun.antt =====
-- internal/differ/differ.go: `runRolledBack`, `runRolledBackAsTenant` and `paramArgs`. The server and
-- database/sql are a parameter, a record of the calls that the differ makes of them.
use tenantguard.Base.{List, Option, [], none, some, ℕ, ◌++◌, ◌∷◌}
use tenantguard.Base.Bytes.{Bytes, codes}
use tenantguard.Differ.Rows.{Cell, collect_rows}

-- The fields of a `*pq.Error`, when an error wraps one.
pub record ServerError : Type 0 where
  pub code : Bytes
  pub schema : Bytes
  pub table : Bytes
  pub detail : Bytes

-- A Go error that is not nil: what `Error()` returns, and what `errors.As` finds in it.
pub record Failure : Type 0 where
  pub text : Bytes
  pub server : Option ServerError

pub data Answer {ℓ} (A : Type ℓ) : Type ℓ where
  failed : Failure → Answer A
  done : A → Answer A

-- fmt.Errorf("<prefix>%w", err)
abbrev pub wrap : Bytes → Failure → Failure
wrap prefix f = record f { text = prefix ++ f.text }

-- A query's result set: whether its columns can be read, what each `Scan` gives, and `rows.Err()`.
pub record RowSet : Type 0 where
  pub columns : Option Failure
  pub scans : List (Answer (List Cell))
  pub err : Option Failure

-- database/sql on a PostgreSQL server. `Db` is a `*sql.DB` or the `*sql.Conn` taken from it.
pub record Server : Type 1 where
  pub Db : Type 0
  pub Tx : Type 0
  pub acquire : Db → Answer Db
  pub release : Db → Db
  pub exec_on : Db → Bytes → List Cell → Option Failure × Db
  pub begin : Db → Answer Tx
  pub rollback : Tx → Db
  pub query : Tx → Bytes → List Cell → Answer RowSet × Tx
  pub exec : Tx → Bytes → List Cell → Answer (Answer ℕ) × Tx

-- The loop of `collectRows`, up to the first row that cannot be scanned.
unfoldable pub scan_rows : List (Answer (List Cell)) → Answer (List (List Cell))
scan_rows [] = done []
scan_rows (failed f ∷ scans) = failed (wrap (codes "scan: ") f)
scan_rows (done row ∷ scans) = elim (scan_rows scans) [
  | failed f ↦ failed f
  | done rows ↦ done (row ∷ rows)
]

sorted_rows : Answer (List (List Cell)) → Answer (List Bytes)
sorted_rows (failed f) = failed f
sorted_rows (done rows) = done (collect_rows rows)

collected : RowSet → Option Failure → Answer (List Bytes)
collected set (some f) = failed (wrap (codes "columns: ") f)
collected set none = sorted_rows (scan_rows set.scans)

-- `out, rows.Err()` after `collectRows` succeeded
finished : Option Failure → Answer (List Bytes) → Answer (List Bytes)
finished err (failed f) = failed f
finished (some f) (done rows) = failed f
finished none (done rows) = done rows

-- What a query's answer leaves, after `collectRows`.
unfoldable pub read_set : Answer RowSet → Answer (List Bytes)
unfolding collected finished sorted_rows
read_set (failed f) = failed (wrap (codes "query: ") f)
read_set (done set) = finished set.err (collected set set.columns)

-- The statement that sets the session's tenant: oracle.TenantSetting is "tenantguard.tenant".
abbrev pub set_tenant : Bytes
set_tenant = codes "SELECT set_config('tenantguard.tenant', $1, false)"

module _ (v : Server) where
  unfoldable pub query_rolled_back :
      v.Db → Bytes → List Cell → Answer v.Tx → Answer (List Bytes) × v.Db
  query_rolled_back db sql args (failed f) = (failed (wrap (codes "begin: ") f), db)
  query_rolled_back db sql args (done tx) =
      let (answer, tx') = v.query tx sql args in (read_set answer, v.rollback tx')

  -- `runRolledBack`
  unfoldable pub run_rolled_back : v.Db → Bytes → List Cell → Answer (List Bytes) × v.Db
  unfolding query_rolled_back
  run_rolled_back db sql args = query_rolled_back db sql args (v.begin db)

  unfoldable pub tenant_rerun :
      v.Db → Bytes → List Cell → Option Failure × v.Db → Answer (List Bytes) × v.Db
  unfolding query_rolled_back
  tenant_rerun db sql args (some f, conn) = (failed (wrap (codes "set tenant: ") f), v.release conn)
  tenant_rerun db sql args (none, conn) =
      let (answer, conn') = query_rolled_back conn sql args (v.begin conn) in
      (answer, v.release conn')

  unfoldable pub acquired_rerun :
      v.Db → Bytes → Bytes → List Cell → Answer v.Db → Answer (List Bytes) × v.Db
  unfolding tenant_rerun
  acquired_rerun db tenant sql args (failed f) =
      (failed (wrap (codes "acquire connection: ") f), db)
  acquired_rerun db tenant sql args (done conn) =
      tenant_rerun db sql args (v.exec_on conn set_tenant (some tenant ∷ []))

  -- `runRolledBackAsTenant`
  unfoldable pub run_rolled_back_as_tenant :
      v.Db → Bytes → Bytes → List Cell → Answer (List Bytes) × v.Db
  unfolding acquired_rerun
  run_rolled_back_as_tenant db tenant sql args = acquired_rerun db tenant sql args (v.acquire db)
