-- ===== src/Gate/Evidence.antt =====
-- cmd/tenantguard/oracle_gate.go: what the database showed where the gate calls `onProven`.
use tenantguard.Base.{
  List, Option, [], arith, false, inl, inr, none, refl, some, true, ◌∷◌, ◌≡◌, ◌≢◌,
}
use tenantguard.Base.Bytes.{Bytes}
use tenantguard.Differ.Rerun.{Answer, done, failed}
use tenantguard.Gate.{A4Error, Decision, is_nil, on_proven, probed, probed_with, refused}
use tenantguard.Gate.Partition.{AllOf, Merge, RowProven, Sound, gate_scoped-Sound}
use tenantguard.Gate.Run.{
  a4_error, a4_step, answers_of, enable_all, error_text, gate_steps, run_gate, with_ledger,
  with_policies, with_role,
}
use tenantguard.Oracle.Checks.{CheckError, Checked, Database, tenant_canary_text}
use tenantguard.Oracle.Controls.{Reproduced, Withheld, check_a1-Withheld, check_a4-Reproduced}
use tenantguard.Oracle.Coverage.{Covered, EachScoped, check_a2-Covered}
use tenantguard.Oracle.Literal.{canary_a}
use tenantguard.Oracle.Privilege.{Subjected, check_a3-Subjected}
use tenantguard.Oracle.Seed.{Ledger, seed_canaries}
use tenantguard.Oracle.Synthesis.{create_restricted_role}
use tenantguard.Schema.{Relation, scoped_of}

-- What stands behind a relation that is handed to the differ.
pub record Shown (d : Database) (db : d.Db) (r : Relation) : Type 0 where
  pub tenant : Bytes
  pub named : tenant_canary_text d db r canary_a ≡ inr tenant
  pub withheld : Withheld d db r
  pub reproduced : Reproduced d db r tenant

module _ (d : Database) where
  error_text-none : (e : Option CheckError) → error_text e ≡ none → e ≡ none
  error_text-none none h = refl
  error_text-none (some e) h = cc

  a4_error-none : (e : Option CheckError) → a4_error e ≡ none → e ≡ none
  a4_error-none none h = refl
  a4_error-none (some e) h = ground arith

  a4_step-none :
      (db : d.Db) (r : Relation) (c : Checked Bytes)
      → tenant_canary_text d db r canary_a ≡ c
      → a4_step d db r c ≡ none
      → (tenant : Bytes) × (tenant_canary_text d db r canary_a ≡ inr tenant)
        × Reproduced d db r tenant
  a4_step-none db r (inl e) p h = cc
  a4_step-none db r (inr tenant) p h =
      (tenant, p, check_a4-Reproduced d db r tenant (a4_error-none _ h))

  probed_with-RowProven :
      (skip : Option Bytes) (source : Option Bytes) (a1 : Option Bytes) (a4 : Option A4Error)
      → RowProven (probed_with skip source a1 a4)
      → (a1 ≡ none) × (a4 ≡ none)
  probed_with-RowProven (some reason) source a1 a4 h = absurd h
  probed_with-RowProven none none a1 a4 h = h
  probed_with-RowProven none (some source) a1 a4 h = h

  RowProven-Shown :
      (db : d.Db) (role : Bytes) (l : Ledger) (scoped : List Relation) (r : Relation)
      → RowProven (probed (answers_of d db role l scoped) r)
      → Shown d db r
  unfolding probed
  RowProven-Shown db role l scoped r h =
      let (p, q) = probed_with-RowProven _ _ _ _ h in
      let (tenant, named, again) = a4_step-none db r (tenant_canary_text d db r canary_a) refl q in
      record {
        tenant = tenant;
        named = named;
        withheld = check_a1-Withheld d db r (error_text-none _ p);
        reproduced = again;
      }

  -- The promise of the gate's answer, about the state that the policies' synthesis left.
  abbrev pub Evident : Bytes → List Relation → Decision → Type 0
  Evident role scoped (refused e) = Unit
  Evident role scoped (on_proven row_level structural_only) =
      (db : d.Db) × (row_level ≢ [])
      × AllOf (Shown d db) row_level
      × Merge row_level structural_only scoped
      × EachScoped (Covered d db) scoped
      × (d.privileges db role ≡ done (false, false))
      × EachScoped (Subjected d db role) scoped

  is_nil-none {ℓ} : {A : Type ℓ} (o : Option A) → is_nil o ≡ true → o ≡ none
  is_nil-none none h = refl
  is_nil-none (some a) h = cc

  All-Shown :
      (db : d.Db) (role : Bytes) (l : Ledger) (scoped rels : List Relation)
      → AllOf (λ r. RowProven (probed (answers_of d db role l scoped) r)) rels
      → AllOf (Shown d db) rels
  All-Shown db role l scoped [] h = tt
  All-Shown db role l scoped (r ∷ rs) (p, h) =
      (RowProven-Shown db role l scoped r p, All-Shown db role l scoped rs h)

  Sound-Evident :
      (db : d.Db) (role : Bytes) (l : Ledger) (scoped : List Relation) (x : Decision)
      → Sound (answers_of d db role l scoped) scoped x
      → Evident role scoped x
  Sound-Evident db role l scoped (refused e) h = tt
  Sound-Evident db role l scoped (on_proven row_level structural_only) (a2, a3, n, p, k, m) =
      let (privileges, subjected) = check_a3-Subjected d db scoped role (is_nil-none _ a3) in
      (
        db,
        n,
        All-Shown db role l scoped row_level p,
        m,
        check_a2-Covered d db scoped (is_nil-none _ a2),
        privileges,
        subjected,
      )

  module _ (role password : Bytes) (scoped : List Relation) where
    with_policies-Evident :
        (l : Ledger) (step : Option CheckError × d.Db)
        → Evident role scoped (with_policies d role password scoped l step)
    with_policies-Evident l (some e, db) = tt
    with_policies-Evident l (none, db) =
        Sound-Evident db role l scoped _ (gate_scoped-Sound (answers_of d db role l scoped) scoped)

    with_role-Evident :
        (l : Ledger) (step : Option CheckError × d.Db)
        → Evident role scoped (with_role d role password scoped l step)
    with_role-Evident l (some e, db) = tt
    with_role-Evident l (none, db) = with_policies-Evident l (enable_all d db 0 scoped)

    with_ledger-Evident :
        (a : Answer Ledger × d.Db) → Evident role scoped (with_ledger d role password scoped a)
    with_ledger-Evident (failed f, db) = tt
    with_ledger-Evident (done l, db) =
        with_role-Evident l (create_restricted_role d db role password scoped)

  gate_steps-Evident :
      (db : d.Db) (role password : Bytes) (scoped : List Relation)
      → Evident role scoped (gate_steps d db role password scoped)
  gate_steps-Evident db role password [] = tt
  gate_steps-Evident db role password (r ∷ rs) =
      with_ledger-Evident role password (r ∷ rs) (seed_canaries d.probe db (r ∷ rs))

  -- Where the gate, run with the oracle's own checks, lets the differ start, there is a state of the
  -- probe database that showed: strictly fewer rows in the restricted role's session than there are, for
  -- each relation handed over for attribution, and exactly the rows of the canary tenant; row security
  -- enabled with a policy on each scoped relation; a role that is no superuser, has no BYPASSRLS and owns
  -- no scoped relation on which row security is not forced. At least one relation is handed over, and the
  -- two lists together are the scoped relations in order.
  pub run_gate-Evident :
      (db : d.Db) (role password : Bytes) (rels : List Relation)
      → Evident role (scoped_of rels) (run_gate d db role password rels)
  unfolding run_gate
  run_gate-Evident db role password rels = gate_steps-Evident db role password (scoped_of rels)
