-- ===== src/Gate.antt =====
-- cmd/tenantguard/oracle_gate.go: `runOracleGate`, which relations the differ may attribute. The
-- oracle's checks, which ask the server, are taken by what they answered.
pub mod State
pub mod Proof
pub mod Partition
pub mod Run
pub mod Evidence
pub mod Counted
pub mod Exit
pub mod Dsn
mod Tests
use tenantguard.Base.{
  Bool, List, Option, [], false, if◌then◌else◌, inl, inr, length, none, some, true, ◌+◌, ◌==◌, ◌∷◌,
  ◌⊎◌,
}
use tenantguard.Base.Assoc.{Assoc, insert, lookup}
use tenantguard.Base.Bytes.{Bytes}
use tenantguard.Gate.State.{
  GateError, ProofState, TableProof, aggregate_proof, bare, err_no_row_key, err_no_scoped_relations,
  err_seeding_skipped, name_underlying_table_error, policy_proven, unwrapped,
}
use tenantguard.Schema.{Relation, qualified, scoped_of}

-- `CheckA4`'s error, if it is `ErrA4NoRowKey` or not.
pub data A4Error : Type 0 where
  no_row_key a4_failed : Bytes → A4Error

-- What the oracle answered for a relation: skipped by `SeedCanaries` for a reason, or seeded from a
-- source, with the errors of `CheckA1` and of the A4 step.
pub data Probed : Type 0 where
  skipped : Bytes → Probed
  seeded_from : Bytes → Option Bytes → Option A4Error → Probed

abbrev pub is_nil {ℓ} : {A : Type ℓ} → Option A → Bool
is_nil none = true
is_nil (some a) = false

abbrev pub a4_text : Option A4Error → Option Bytes
a4_text none = none
a4_text (some (no_row_key t)) = some t
a4_text (some (a4_failed t)) = some t

-- The three lists of the gate's loop.
pub record Tables : Type 0 where
  pub proofs : List TableProof
  pub row_level : List Relation
  pub structural_only : List Relation

abbrev pub no_tables : Tables
no_tables = record { proofs = []; row_level = []; structural_only = [] }

abbrev skipped_proof : Relation → Bytes → TableProof
skipped_proof r reason = record {
  table = qualified r;
  seeded = false;
  skip_reason = reason;
  seed_source = [];
  a1_passed = false;
  a4_passed = false;
  a1_err = none;
  a4_err = none;
}

abbrev seeded_proof : Relation → Bytes → Option Bytes → Option A4Error → TableProof
seeded_proof r source a1 a4 = record {
  table = qualified r;
  seeded = true;
  skip_reason = [];
  seed_source = source;
  a1_passed = is_nil a1;
  a4_passed = is_nil a4;
  a1_err = a1;
  a4_err = a4_text a4;
}

abbrev pub add_skipped : Relation → Bytes → Tables → Tables
add_skipped r reason t = record t {
  proofs = skipped_proof r reason ∷ t.proofs;
  structural_only = r ∷ t.structural_only;
}

abbrev pub add_seeded : Relation → Bytes → Option Bytes → Option A4Error → Tables → Tables
add_seeded r source a1 a4 t = record t {
  proofs = seeded_proof r source a1 a4 ∷ t.proofs;
  row_level = r ∷ t.row_level;
}

-- A relation's turn in the loop, in front of the rest's outcome: the abort of `errNoRowKey` at this
-- relation is before any abort of a later one.
unfoldable pub probe_table : Relation → Probed → GateError ⊎ Tables → GateError ⊎ Tables
probe_table r (seeded_from source a1 (some (no_row_key cause))) rest =
    inl (record { is = err_no_row_key; named = some (qualified r, cause) })
probe_table r p (inl e) = inl e
probe_table r (skipped reason) (inr t) = inr (add_skipped r reason t)
probe_table r (seeded_from source a1 a4) (inr t) = inr (add_seeded r source a1 a4 t)

-- What the gate does at its end: it returns an error, or calls `onProven` with the relations that are
-- proven row by row and with those that are not.
pub data Decision : Type 0 where
  refused : GateError → Decision
  on_proven : List Relation → List Relation → Decision

abbrev pub gate_state : Bool → Bool → List TableProof → ProofState
gate_state a2 a3 tps =
    let a1a4 = aggregate_proof tps in
    record a1a4 { a2_checked = true; a2_passed = a2; a3_checked = true; a3_passed = a3 }

-- The error that the gate returns for one of `PolicyProven`: with the first table skipped, where no
-- relation was seeded at all.
unfoldable pub explain : GateError → Tables → List (Bytes × Bytes) → GateError
unfolding name_underlying_table_error
explain err t [] = name_underlying_table_error err t.proofs
explain err t (first ∷ _) = elim t.row_level [
  | [] ↦ record { is = err_seeding_skipped; named = some first }
  | _ ∷ _ ↦ name_underlying_table_error err t.proofs
]

unfoldable pub conclude : List (Bytes × Bytes) → Tables → Option GateError → Decision
unfolding explain
conclude skips t none = on_proven t.row_level t.structural_only
conclude skips t (some err) = refused (explain err t skips)

unfoldable pub decide_tables : Bool → Bool → List (Bytes × Bytes) → GateError ⊎ Tables → Decision
unfolding conclude policy_proven aggregate_proof
decide_tables a2 a3 skips (inl e) = refused e
decide_tables a2 a3 skips (inr t) = conclude skips t (policy_proven (gate_state a2 a3 t.proofs))

-- `for _, s := range list { m[s.Table] = s.Reason }`
unfoldable pub map_of : Assoc Bytes → List (Bytes × Bytes) → Assoc Bytes
map_of m [] = m
map_of m ((k, x) ∷ xs) = map_of (insert k x m) xs

abbrev pub probed_with : Option Bytes → Option Bytes → Option Bytes → Option A4Error → Probed
probed_with (some reason) source a1 a4 = skipped reason
probed_with none none a1 a4 = seeded_from [] a1 a4
probed_with none (some source) a1 a4 = seeded_from source a1 a4

-- What `SeedCanaries` returned, the sources of the tables seeded and the reasons of those skipped, and
-- what the checks of a seeded relation answer.
pub record Oracle : Type 0 where
  pub a2_passes : Bool
  pub a3_passes : Bool
  pub seeds : List (Bytes × Bytes)
  pub skips : List (Bytes × Bytes)
  pub check_a1 : Relation → Option Bytes
  pub check_a4 : Relation → Option A4Error

module _ (o : Oracle) where
  unfoldable pub probed : Relation → Probed
  unfolding map_of
  probed r =
      probed_with (lookup (qualified r) (map_of [] o.skips))
        (lookup (qualified r) (map_of [] o.seeds)) (o.check_a1 r) (o.check_a4 r)

  unfoldable pub probe_tables : List Relation → GateError ⊎ Tables
  unfolding probe_table
  probe_tables [] = inr no_tables
  probe_tables (r ∷ rs) = probe_table r (probed r) (probe_tables rs)

  unfoldable pub gate_scoped : List Relation → Decision
  unfolding decide_tables probe_tables
  gate_scoped [] = refused (bare err_no_scoped_relations)
  gate_scoped (r ∷ rs) =
      if length o.seeds + length o.skips == length (r ∷ rs)
      then decide_tables o.a2_passes o.a3_passes o.skips (probe_tables (r ∷ rs))
      else refused (bare unwrapped)

  -- `runOracleGate`, where no connection, statement or role that it makes fails.
  unfoldable pub run_oracle_gate : List Relation → Decision
  unfolding gate_scoped
  run_oracle_gate rels = gate_scoped (scoped_of rels)
