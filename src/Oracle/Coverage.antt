-- ===== src/Oracle/Coverage.antt =====
-- internal/oracle/oracle.go: what EnableRLS confirms, and what A2 accepts.
use tenantguard.Base.{
  Bool, Bool-cases, List, Option, [], ap, arith, false, inl, inr, none, refl, some, true, ℕ, ◌<◌,
  ◌∙◌, ◌∷◌, ◌≡◌,
}
use tenantguard.Base.Bytes.{Bytes}
use tenantguard.Differ.Rerun.{Failure, done}
use tenantguard.Oracle.Checks.{Checked, Database, answered}
use tenantguard.Oracle.Controls.{answered-inr, asked, bound_answer}
use tenantguard.Oracle.Synthesis.{
  a2_result, add_if, check_a2, confirmed, policies_counted, enable_rls, exec_all, rls_statements,
  uncovered, uncovered_at, verified, verify_synthesis,
}
use tenantguard.Schema.{Relation, is_scoped}

-- A property of each relation that is classified as scoped.
abbrev pub EachScoped : (Relation → Type 0) → List Relation → Type 0
EachScoped P [] = Unit
EachScoped P (r ∷ rs) = (is_scoped r.class ≡ true → P r) × EachScoped P rs

module _ (d : Database) where
  -- The catalog has row security enabled and forced on the relation, with a policy.
  pub record Confirmed (db : d.Db) (r : Relation) : Type 0 where
    pub enabled_forced : d.row_security db r.schema r.name ≡ done (true, true)
    pub number : ℕ
    pub policies : d.policies db r.schema r.name ≡ done number
    pub some_policy : 0 < number

  policies_counted-none :
      (r : Relation) (c : Checked ℕ)
      → policies_counted d r c ≡ none
      → (n : ℕ) × (c ≡ inr n) × (0 < n)
  policies_counted-none r (inl e) h = cc
  policies_counted-none r (inr n) h = (n, refl, ground arith)

  confirmed-Confirmed :
      (db : d.Db) (r : Relation) (c : Checked (Bool × Bool))
      → answered (d.row_security db r.schema r.name) ≡ c
      → confirmed d db r c ≡ none
      → Confirmed db r
  confirmed-Confirmed db r (inl e) p h = cc
  confirmed-Confirmed db r (inr (false, forced)) p h = cc
  confirmed-Confirmed db r (inr (true, false)) p h = cc
  confirmed-Confirmed db r (inr (true, true)) p h =
      let (n, e, pos) = policies_counted-none r (answered (d.policies db r.schema r.name)) h in
      record {
        enabled_forced = answered-inr _ _ p;
        number = n;
        policies = answered-inr _ _ e;
        some_policy = pos;
      }

  verified-Confirmed :
      (r : Relation) (step : Option Failure × d.Db)
      → (verified d r step).0 ≡ none
      → Confirmed step.1 r × (step.0 ≡ none)
  unfolding verify_synthesis
  verified-Confirmed r (some f, db) h = cc
  verified-Confirmed r (none, db) h = (confirmed-Confirmed db r _ refl h, refl)

  verified-state : (r : Relation) (step : Option Failure × d.Db) → (verified d r step).1 ≡ step.1
  verified-state r (some f, db) = refl
  verified-state r (none, db) = refl

  -- Where EnableRLS returns no error, all its statements were executed without one, and the catalog of
  -- the database that they left has row security enabled and forced on the relation, with a policy.
  pub enable_rls-Confirmed :
      (db : d.Db) (r : Relation) (policy : Bytes)
      → (enable_rls d db r policy).0 ≡ none
      → let run = exec_all d db (rls_statements r policy) in
        (run.0 ≡ none) × ((enable_rls d db r policy).1 ≡ run.1) × Confirmed run.1 r
  unfolding enable_rls
  enable_rls-Confirmed db r policy h =
      let run = exec_all d db (rls_statements r policy) in
      let (c, e) = verified-Confirmed r run h in (e, verified-state r run, c)

  -- Row security is enabled on the relation, and it has a policy.
  pub record Covered (db : d.Db) (r : Relation) : Type 0 where
    pub forced : Bool
    pub number : ℕ
    pub enabled : d.row_security db r.schema r.name ≡ done (true, forced)
    pub policies : d.policies db r.schema r.name ≡ done number
    pub some_policy : 0 < number

  pub add_if-nil :
      (r : Relation) (b : Bool) (rest : Checked (List Bytes))
      → add_if d r b rest ≡ inr []
      → (b ≡ false) × (rest ≡ inr [])
  add_if-nil r true (inl e) h = cc
  add_if-nil r true (inr names) h = cc
  add_if-nil r false rest h = (refl, h)

  uncovered_at-Covered : (db : d.Db) (r : Relation) → uncovered_at d db r ≡ inr false → Covered db r
  unfolding uncovered_at
  uncovered_at-Covered db r h =
      let ((enabled, forced), p, q) = asked (d.row_security db r.schema r.name) _ false h in
      let (n, p', q') = asked (d.policies db r.schema r.name) _ false q in
      record {
        forced = forced;
        number = n;
        enabled = ground (arith, p, q');
        policies = p';
        some_policy = ground (arith, q');
      }

  uncovered-Covered :
      (db : d.Db) (rels : List Relation)
      → uncovered d db rels ≡ inr []
      → EachScoped (Covered db) rels
  unfolding uncovered
  uncovered-Covered db [] h = tt
  uncovered-Covered db (r ∷ rs) h = elim (Bool-cases (is_scoped r.class)) [
    | inl yes_scoped ↦
        let (b, p, q) =
          bound_answer (uncovered_at d db r) (λ b. add_if d r b (uncovered d db rs)) []
            (rw yes_scoped at h) in
        let (e, rest) = add_if-nil r b (uncovered d db rs) q in
        ((λ _. uncovered_at-Covered db r (p ∙ ap inr e)), uncovered-Covered db rs rest)
    | inr not_scoped ↦ (
      (λ s. absurd (ground (arith, s, not_scoped))),
      uncovered-Covered db rs (rw not_scoped at h),
    )
  ]

  a2_result-none : (c : Checked (List Bytes)) → (a2_result d c).1 ≡ none → c ≡ inr []
  a2_result-none (inl e) h = cc
  a2_result-none (inr []) h = refl
  a2_result-none (inr (name ∷ names)) h = cc

  -- Where CheckA2 returns no error, each scoped relation has row security enabled and a policy.
  pub check_a2-Covered :
      (db : d.Db) (rels : List Relation)
      → (check_a2 d db rels).1 ≡ none
      → EachScoped (Covered db) rels
  unfolding check_a2
  check_a2-Covered db rels h = uncovered-Covered db rels (a2_result-none (uncovered d db rels) h)
