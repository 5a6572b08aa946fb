-- ===== src/Gate/Tests.antt =====
-- Concrete runs of the gate and of the DSN surgery in cmd/tenantguard.
use tenantguard.Oracle.Checks
use tenantguard.Base.{[], false, none, refl, some, true, ◌∷◌, ◌≡◌}
use tenantguard.Base.Assoc.{insert, lookup}
use tenantguard.Base.Bytes.{codes, equal}
use tenantguard.Capture.Oid.Decimal.{digits_onto, format_uint}
use tenantguard.Differ.Write.{quote_ident}
use tenantguard.Gate.{
  Oracle, decide_tables, gate_scoped, gate_state, on_proven, probe_tables, probed, run_oracle_gate,
}
use tenantguard.Gate.Counted.{gate_scoped-counted}
use tenantguard.Gate.Evidence.{Evident, run_gate-Evident}
use tenantguard.Gate.Partition.{Sound, run_oracle_gate-Sound}
use tenantguard.Gate.Run.{answers_of, run_gate}
use tenantguard.Gate.State.{ProofState, TableProof, policy_proven}
use tenantguard.Oracle.Checks.{tenant_canary_text}
use tenantguard.Oracle.Literal.{samples}
use tenantguard.Oracle.SmallDatabase.{one_seeded, seeded_orders, seeded_test, small_database}
use tenantguard.Oracle.Synthesis.{check_a2, check_a3}
use tenantguard.Schema.{Relation, qualified, scoped, scoped_of}

-- Seeded, with A4 failing.
abbrev orders_proof : TableProof
orders_proof = record {
  table = codes "public.orders";
  seeded = true;
  skip_reason = [];
  seed_source = codes "sampled";
  a1_passed = true;
  a4_passed = false;
  a1_err = none;
  a4_err = some (codes "wrong column");
}

abbrev users_proof : TableProof
users_proof = record {
  table = codes "public.users";
  seeded = false;
  skip_reason = codes "no rows";
  seed_source = [];
  a1_passed = false;
  a4_passed = false;
  a1_err = none;
  a4_err = none;
}

abbrev all_run : ProofState
all_run = gate_state true true (orders_proof ∷ users_proof ∷ [])

abbrev orders : Relation
orders = record {
  schema = codes "public";
  name = codes "orders";
  kind = codes "BASE TABLE";
  class = scoped;
  tenant_column = codes "tenant_id";
  candidates = codes "tenant_id" ∷ [];
  fixture = [];
}

abbrev users : Relation
users = record orders { name = codes "users" }

-- Orders is seeded and passes; users is skipped.
abbrev oracle : Oracle
oracle = record {
  a2_passes = true;
  a3_passes = true;
  seeds = (codes "public.orders", codes "sampled") ∷ [];
  skips = (codes "public.users", codes "no rows") ∷ [];
  check_a1 = λ r. none;
  check_a4 = λ r. none;
}

run_oracle_gate-Sound_example :
    Sound oracle (scoped_of (orders ∷ users ∷ [])) (run_oracle_gate oracle (orders ∷ users ∷ []))
run_oracle_gate-Sound_example = run_oracle_gate-Sound oracle (orders ∷ users ∷ [])

-- The gate on the database of the oracle's tests, which hands the relation over.
run_gate_test :
    run_gate small_database 0 (codes "r") (codes "pw") (seeded_orders ∷ [])
    ≡ on_proven (seeded_orders ∷ []) []
unfolding run_gate gate_scoped codes samples lookup insert equal format_uint digits_onto quote_ident
    qualified scoped_of probed policy_proven tenant_canary_text Checks.check_a4 Checks.check_a1
    check_a2 check_a3
run_gate_test = refl

run_gate-Evident_example :
    Evident small_database
      (codes "r")
      (scoped_of (seeded_orders ∷ []))
      (run_gate small_database 0 (codes "r") (codes "pw") (seeded_orders ∷ []))
run_gate-Evident_example =
    run_gate-Evident small_database 0 (codes "r") (codes "pw") (seeded_orders ∷ [])

gate_scoped-counted_example :
    let o = answers_of small_database 0 (codes "r") one_seeded (seeded_orders ∷ []) in
    gate_scoped o (seeded_orders ∷ [])
    ≡ decide_tables o.a2_passes o.a3_passes o.skips (probe_tables o (seeded_orders ∷ []))
gate_scoped-counted_example =
    gate_scoped-counted small_database 0 0 (codes "r") one_seeded seeded_orders [] seeded_test
