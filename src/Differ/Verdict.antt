-- ===== src/Differ/Verdict.antt =====
-- internal/differ/differ.go: `Result`, `diffWrite` and `Diff`. Reasons are not modelled, except that one tells a leak's or a failure's branch.
pub mod Leaks
pub mod Durable
pub mod Refused
pub mod Recorded
mod Tests
use tenantguard.Base.{
  Bool, List, Option, [], false, if◌then◌else◌, length, ltb, none, not, some, ℕ, ◌&&◌, ◌==◌, ◌||◌,
  ◌∷◌,
}
use tenantguard.Base.Bytes.{Bytes, codes, contains}
use tenantguard.Capture.Message.{Param}
use tenantguard.Capture.Session.{Event}
use tenantguard.Differ.Extract.{
  Attribution, attr_no_predicate, attr_resolved, attr_unattributable, extract_tenant,
}
use tenantguard.Differ.Rerun.{
  Answer, Failure, Server, done, failed, run_rolled_back, run_rolled_back_as_tenant,
}
use tenantguard.Differ.Rows.{Cell, distance, shortfall}
use tenantguard.Differ.Statement.{is_write_statement}
use tenantguard.Differ.Write.{exec_rolled_back, exec_rolled_back_as_tenant}
use tenantguard.Differ.Write.Conflict.{ConflictKey}
use tenantguard.Schema.{Relation}

-- `Verdict`
pub data Verdict : Type 0 where
  safe leak unattributable : Verdict

pub record Result : Type 0 where
  pub verdict : Verdict
  pub tenant : Bytes
  pub withheld_rows : ℕ
  pub vacuous : Bool

abbrev pub unattributed : Result
unattributed = record { verdict = unattributable; tenant = []; withheld_rows = 0; vacuous = false }

-- `isRowSecurityViolation`
unfoldable pub is_row_security_violation : Failure → Bool
is_row_security_violation e = contains e.text (codes "row-level security")

-- The switch of `diffWrite`, on the rows that the unrestricted write affected.
unfoldable pub classify_write : Bytes → ℕ → Answer ℕ → Result
unfolding is_row_security_violation
classify_write tenant unrestricted (done restricted) = record {
  verdict = safe;
  tenant = tenant;
  withheld_rows = 0;
  vacuous = unrestricted == 0 && restricted == 0;
}
classify_write tenant unrestricted (failed e) =
    if is_row_security_violation e
    then record { verdict = leak; tenant = tenant; withheld_rows = 1; vacuous = false }
    else unattributed

-- The comparison of `Diff` on the two lists of rendered rows.
unfoldable pub compare_rows : Bytes → List Bytes → List Bytes → Result
unfolding shortfall distance
compare_rows tenant unrestricted restricted =
    let withheld = shortfall unrestricted restricted in
    let delta = distance (length unrestricted) (length restricted) in
    if ltb 0 withheld || not (length unrestricted == length restricted)
    then record {
      verdict = leak;
      tenant = tenant;
      withheld_rows = if withheld == 0 then delta else withheld;
      vacuous = false;
    }
    else record {
      verdict = safe;
      tenant = tenant;
      withheld_rows = 0;
      vacuous = length unrestricted == 0;
    }

-- `paramArgs`, `none` for the error.
unfoldable pub param_args : List Param → Option (List Cell)
param_args [] = some []
param_args (p ∷ ps) = elim (param_args ps) [
  | none ↦ none
  | some args ↦
      if p.is_null then some (none ∷ args) else if p.known then some (some p.text ∷ args) else none
]

module _ (v : Server) where
  unfoldable pub write_second :
      v.Db → Bytes → Bytes → List Cell → Answer ℕ × ConflictKey × v.Db → Result × v.Db × v.Db
  unfolding classify_write
  write_second restricted tenant sql args (failed _, ck, probe') =
      (unattributed, probe', restricted)
  write_second restricted tenant sql args (done n, ck, probe') =
      let (answer, restricted') = exec_rolled_back_as_tenant v restricted tenant sql args ck in
      (classify_write tenant n answer, probe', restricted')

  -- `diffWrite`
  unfoldable pub diff_write : v.Db → v.Db → Bytes → Bytes → List Cell → Result × v.Db × v.Db
  unfolding write_second
  diff_write probe restricted tenant sql args =
      write_second restricted tenant sql args (exec_rolled_back v probe sql args)

  unfoldable pub read_compared : Bytes → List Bytes → Answer (List Bytes) → Result
  unfolding compare_rows
  read_compared tenant rows (failed _) = unattributed
  read_compared tenant rows (done restricted) = compare_rows tenant rows restricted

  unfoldable pub read_second :
      v.Db → Bytes → Bytes → List Cell → Answer (List Bytes) × v.Db → Result × v.Db × v.Db
  unfolding read_compared
  read_second restricted tenant sql args (failed _, probe') = (unattributed, probe', restricted)
  read_second restricted tenant sql args (done rows, probe') =
      let (answer, restricted') = run_rolled_back_as_tenant v restricted tenant sql args in
      (read_compared tenant rows answer, probe', restricted')

  -- The read path of `Diff`.
  unfoldable pub diff_read : v.Db → v.Db → Bytes → Bytes → List Cell → Result × v.Db × v.Db
  unfolding read_second
  diff_read probe restricted tenant sql args =
      read_second restricted tenant sql args (run_rolled_back v probe sql args)

  -- `Diff` with a tenant, empty where none is claimed, and the answer of `isWriteStatement`.
  unfoldable pub diff_as :
      Bool → Bytes → v.Db → v.Db → Bytes → Option (List Cell) → Result × v.Db × v.Db
  unfolding diff_write diff_read
  diff_as write tenant probe restricted sql none = (unattributed, probe, restricted)
  diff_as write tenant probe restricted sql (some args) =
      if write
      then diff_write probe restricted tenant sql args
      else diff_read probe restricted tenant sql args

  unfoldable pub diff_attributed : Attribution → v.Db → v.Db → Event → Result × v.Db × v.Db
  unfolding diff_as param_args is_write_statement
  diff_attributed (attr_resolved tenant) probe restricted ev =
      diff_as (is_write_statement ev.sql) tenant probe restricted ev.sql (param_args ev.params)
  diff_attributed attr_no_predicate probe restricted ev =
      diff_as (is_write_statement ev.sql) [] probe restricted ev.sql (param_args ev.params)
  diff_attributed attr_unattributable probe restricted ev = (unattributed, probe, restricted)

  -- `Diff`
  unfoldable pub diff : List Relation → v.Db → v.Db → Event → Result × v.Db × v.Db
  unfolding diff_attributed extract_tenant
  diff rels probe restricted ev =
      if ev.resolved
      then diff_attributed (extract_tenant rels ev.sql ev.params) probe restricted ev
      else (unattributed, probe, restricted)
