-- ===== src/Gate/Counted.antt =====
-- cmd/tenantguard/oracle_gate.go: the count of the tables that SeedCanaries reports.
use tenantguard.Base.{==_iff, List, arith, length, length-map, refl, ◌+◌, ◌∷◌, ◌≡◌}
use tenantguard.Base.Bytes.{Bytes}
use tenantguard.Differ.Rerun.{done}
use tenantguard.Gate.{decide_tables, gate_scoped, probe_tables}
use tenantguard.Gate.Run.{answers_of}
use tenantguard.Oracle.Checks.{Database}
use tenantguard.Oracle.Ledger.{Accounts, length-Interleaved, seed_canaries-Accounts}
use tenantguard.Oracle.Seed.{Ledger, seed_canaries}
use tenantguard.Schema.{Relation, qualified}

entries :
    (l : Ledger) (rels : List Relation)
    → Accounts rels l
    → length l.seeded + length l.skipped ≡ length rels
entries l rels h = omega (
  arith,
  length-Interleaved h,
  length-map (λ (e : Bytes × Bytes). e.0) l.seeded,
  length-map (λ (e : Bytes × Bytes). e.0) l.skipped,
  length-map qualified rels,
)

-- On a ledger that SeedCanaries returned for the same relations, the gate never takes the branch that
-- reports relations neither seeded nor skipped: it decides by the checks of the tables.
pub gate_scoped-counted :
    (d : Database) (db checked : d.Db) (role : Bytes) (l : Ledger) (r : Relation)
    (rs : List Relation)
    → (seed_canaries d.probe db (r ∷ rs)).0 ≡ done l
    → let o = answers_of d checked role l (r ∷ rs) in
      gate_scoped o (r ∷ rs)
      ≡ decide_tables o.a2_passes o.a3_passes o.skips (probe_tables o (r ∷ rs))
unfolding gate_scoped
gate_scoped-counted d db checked role l r rs h =
    let all : length l.seeded + length l.skipped ≡ length (r ∷ rs) =
      entries l (r ∷ rs) (seed_canaries-Accounts d.probe db (r ∷ rs) l h) in
    rw ((==_iff (length l.seeded + length l.skipped) (length (r ∷ rs))).1 all) refl
