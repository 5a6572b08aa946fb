-- ===== src/Gate/State.antt =====
-- `ProofState` of internal/oracle/oracle.go, and what cmd/tenantguard/oracle_gate.go makes of it: the
-- aggregation of the tables' results, the naming of errors and the exit codes.
use tenantguard.Base.{
  Bool, List, Option, [], false, if◌then◌else◌, none, not, some, true, ℕ, ◌&&◌, ◌∷◌,
}
use tenantguard.Base.Bytes.{Bytes}

pub record ProofState : Type 0 where
  pub a1_checked : Bool
  pub a1_passed : Bool
  pub a2_checked : Bool
  pub a2_passed : Bool
  pub a3_checked : Bool
  pub a3_passed : Bool
  pub a4_checked : Bool
  pub a4_passed : Bool

-- `var ps oracle.ProofState`
abbrev pub nothing_run : ProofState
nothing_run = record {
  a1_checked = false;
  a1_passed = false;
  a2_checked = false;
  a2_passed = false;
  a3_checked = false;
  a3_passed = false;
  a4_checked = false;
  a4_passed = false;
}

-- What `errors.Is` finds in an error of the gate. `unwrapped` is for errors that wrap none.
pub data Sentinel : Type 0 where
  err_a1 err_a2 err_a3 err_a4 : Sentinel
  err_seeding_skipped err_no_scoped_relations err_no_row_key unwrapped : Sentinel

-- An error, with the table and the cause that its text names, if any.
pub record GateError : Type 0 where
  pub is : Sentinel
  pub named : Option (Bytes × Bytes)

abbrev pub bare : Sentinel → GateError
bare e = record { is = e; named = none }

-- `ProofState.PolicyProven`
unfoldable pub policy_proven : ProofState → Option GateError
policy_proven p =
    if not p.a1_checked
    then some (bare unwrapped)
    else if not p.a1_passed
    then some (bare err_a1)
    else if not p.a2_checked
    then some (bare unwrapped)
    else if not p.a2_passed
    then some (bare err_a2)
    else if not p.a3_checked
    then some (bare unwrapped)
    else if not p.a3_passed
    then some (bare err_a3)
    else if not p.a4_checked
    then some (bare unwrapped)
    else if not p.a4_passed
    then some (bare err_a4)
    else none

-- `tableProof`; an error is its text.
pub record TableProof : Type 0 where
  pub table : Bytes
  pub seeded : Bool
  pub skip_reason : Bytes
  pub seed_source : Bytes
  pub a1_passed : Bool
  pub a4_passed : Bool
  pub a1_err : Option Bytes
  pub a4_err : Option Bytes

-- The loop's body for a seeded table.
abbrev pub add_proof : TableProof → ProofState → ProofState
add_proof tp ps = record ps {
  a1_checked = true;
  a1_passed = (if ps.a1_checked then ps.a1_passed else true) && tp.a1_passed;
  a4_checked = true;
  a4_passed = (if ps.a4_checked then ps.a4_passed else true) && tp.a4_passed;
}

unfoldable pub aggregate_from : ProofState → List TableProof → ProofState
aggregate_from ps [] = ps
aggregate_from ps (tp ∷ tps) = aggregate_from (if tp.seeded then add_proof tp ps else ps) tps

-- `aggregateProof`
unfoldable pub aggregate_proof : List TableProof → ProofState
unfolding aggregate_from
aggregate_proof tps = aggregate_from nothing_run tps

abbrev pub name_by : GateError → (TableProof → Option Bytes) → List TableProof → GateError
name_by err cause [] = err
name_by err cause (tp ∷ tps) = elim (cause tp) [
  | none ↦ name_by err cause tps
  | some text ↦ record err { named = some (tp.table, text) }
]

-- `nameUnderlyingTableError`, of an error that is not nil.
unfoldable pub name_underlying_table_error : GateError → List TableProof → GateError
name_underlying_table_error err tps = elim err.is [
  | err_a1 ↦ name_by err (λ tp. tp.a1_err) tps
  | err_a4 ↦ name_by err (λ tp. tp.a4_err) tps
  | _ ↦ err
]

-- `exitCodeFor`
unfoldable pub exit_code_for : GateError → ℕ
exit_code_for err = elim err.is [ err_a1 ↦ 10 | err_a2 ↦ 11 | err_a3 ↦ 12 | err_a4 ↦ 13 | _ ↦ 2 ]
