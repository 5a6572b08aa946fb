-- ===== src/Gate/Run.antt =====
-- cmd/tenantguard/oracle_gate.go: the steps of `runOracleGate` on the probe database, from its seeding on,
-- with the oracle's own functions.
use tenantguard.Gate
use tenantguard.Oracle.Checks
use tenantguard.Base.{List, Option, [], inl, inr, none, some, ℕ, ◌++◌, ◌+◌, ◌∷◌}
use tenantguard.Base.Bytes.{Bytes, codes}
use tenantguard.Capture.Oid.Decimal.{format_uint}
use tenantguard.Differ.Rerun.{Answer, done, failed}
use tenantguard.Gate.{A4Error, Decision, Oracle, gate_scoped, is_nil, no_row_key, refused}
use tenantguard.Gate.State.{bare, err_no_scoped_relations, unwrapped}
use tenantguard.Oracle.Checks.{CheckError, Checked, Database, a4_no_row_key, tenant_canary_text}
use tenantguard.Oracle.Literal.{canary_a}
use tenantguard.Oracle.Seed.{Ledger, seed_canaries}
use tenantguard.Oracle.Synthesis.{check_a2, check_a3, create_restricted_role, enable_rls}
use tenantguard.Schema.{Relation, scoped_of}

-- `oracle.ErrA4NoRowKey` is told from the other errors of A4.
abbrev pub a4_error : Option CheckError → Option A4Error
a4_error none = none
a4_error (some e) = elim e.mark [
  | a4_no_row_key ↦ some (no_row_key e.about)
  | _ ↦ some (Gate.a4_failed e.about)
]

abbrev pub error_text : Option CheckError → Option Bytes
error_text none = none
error_text (some e) = some e.about

abbrev policy_name : ℕ → Bytes
policy_name i = codes "tgd_cli_policy_" ++ format_uint i

module _ (d : Database) where
  -- A4 is asked about the canary's text, where there is one.
  abbrev pub a4_step : d.Db → Relation → Checked Bytes → Option A4Error
  a4_step db r (inl e) = some (Gate.a4_failed e.about)
  a4_step db r (inr tenant) = a4_error (Checks.check_a4 d db r tenant).2

  -- What the checks of the probe database answer, after SeedCanaries gave a ledger.
  abbrev pub answers_of : d.Db → Bytes → Ledger → List Relation → Oracle
  answers_of db role l scoped = record {
    a2_passes = is_nil (check_a2 d db scoped).1;
    a3_passes = is_nil (check_a3 d db scoped role);
    seeds = l.seeded;
    skips = l.skipped;
    check_a1 = λ r. error_text (Checks.check_a1 d db r).2;
    check_a4 = λ r. a4_step db r (tenant_canary_text d db r canary_a);
  }

  -- The policies, each under its relation's position.
  unfoldable pub enable_all : d.Db → ℕ → List Relation → Option CheckError × d.Db
  unfolding enable_rls
  enable_all db i [] = (none, db)
  enable_all db i (r ∷ rs) =
      let step = enable_rls d db r (policy_name i) in
      let rest = enable_all step.1 (i + 1) rs in
      elim step.0 [ some e ↦ (some e, step.1) | none ↦ rest ]

  module _ (role password : Bytes) (scoped : List Relation) where
    abbrev pub with_policies : Ledger → Option CheckError × d.Db → Decision
    with_policies l (some e, db) = refused (bare unwrapped)
    with_policies l (none, db) = gate_scoped (answers_of db role l scoped) scoped

    abbrev pub with_role : Ledger → Option CheckError × d.Db → Decision
    with_role l (some e, db) = refused (bare unwrapped)
    with_role l (none, db) = with_policies l (enable_all db 0 scoped)

    abbrev pub with_ledger : Answer Ledger × d.Db → Decision
    with_ledger (failed f, db) = refused (bare unwrapped)
    with_ledger (done l, db) = with_role l (create_restricted_role d db role password scoped)

  abbrev pub gate_steps : d.Db → Bytes → Bytes → List Relation → Decision
  gate_steps db role password [] = refused (bare err_no_scoped_relations)
  gate_steps db role password (r ∷ rs) =
      with_ledger role password (r ∷ rs) (seed_canaries d.probe db (r ∷ rs))

  -- `runOracleGate` on the probe database. The count of the ledger's entries is checked before the role
  -- is made there, here in `gate_scoped`; the difference does not show, since it always comes out.
  unfoldable pub run_gate : d.Db → Bytes → Bytes → List Relation → Decision
  unfolding seed_canaries create_restricted_role enable_all
  run_gate db role password rels = gate_steps db role password (scoped_of rels)
