-- ===== src/Oracle/Privilege.antt =====
-- internal/oracle/oracle.go: what CheckA3 accepts of the restricted role.
use tenantguard.Base.{
  Bool, Bool-cases, List, [], ap, arith, false, inl, inr, none, refl, true, ◌∙◌, ◌∷◌, ◌≡◌,
}
use tenantguard.Base.Bytes.{Bytes, equal, equal_iff}
use tenantguard.Differ.Rerun.{done}
use tenantguard.Oracle.Checks.{Checked, Database, answered}
use tenantguard.Oracle.Controls.{answered-inr, asked, bound_answer}
use tenantguard.Oracle.Coverage.{EachScoped, add_if-nil}
use tenantguard.Oracle.Synthesis.{
  a3_result, add_if, check_a3, owned_unforced, role_checked, unforced, unforced_at,
}
use tenantguard.Schema.{Relation, is_scoped}

module _ (d : Database) where
  -- The relation's owner is known, and row security is forced on it if the role is the owner.
  pub record Subjected (db : d.Db) (role : Bytes) (r : Relation) : Type 0 where
    pub name : Bytes
    pub owned : d.owner db r.schema r.name ≡ done name
    pub forced :
        name ≡ role → (enabled : Bool) × (d.row_security db r.schema r.name ≡ done (enabled, true))

  owned_unforced-forced :
      (db : d.Db) (r : Relation) (b : Bool)
      → owned_unforced d db r b ≡ inr false
      → b ≡ true
      → (enabled : Bool) × (d.row_security db r.schema r.name ≡ done (enabled, true))
  owned_unforced-forced db r false h e = cc
  owned_unforced-forced db r true h e =
      let ((enabled, forced), p, q) = asked (d.row_security db r.schema r.name) _ false h in
      (enabled, ground (arith, p, q))

  unforced_at-Subjected :
      (db : d.Db) (role : Bytes) (r : Relation)
      → unforced_at d db role r ≡ inr false
      → Subjected db role r
  unfolding unforced_at
  unforced_at-Subjected db role r h =
      let (name, p, q) = asked (d.owner db r.schema r.name) _ false h in
      record {
        name = name;
        owned = p;
        forced = λ e. owned_unforced-forced db r (equal name role) q ((equal_iff name role).1 e);
      }

  unforced-Subjected :
      (db : d.Db) (role : Bytes) (rels : List Relation)
      → unforced d db role rels ≡ inr []
      → EachScoped (Subjected db role) rels
  unfolding unforced
  unforced-Subjected db role [] h = tt
  unforced-Subjected db role (r ∷ rs) h = elim (Bool-cases (is_scoped r.class)) [
    | inl yes_scoped ↦
        let (b, p, q) =
          bound_answer (unforced_at d db role r) (λ b. add_if d r b (unforced d db role rs)) []
            (rw yes_scoped at h) in
        let (e, rest) = add_if-nil d r b (unforced d db role rs) q in
        ((λ _. unforced_at-Subjected db role r (p ∙ ap inr e)), unforced-Subjected db role rs rest)
    | inr not_scoped ↦ (
      (λ s. absurd (ground (arith, s, not_scoped))),
      unforced-Subjected db role rs (rw not_scoped at h),
    )
  ]

  a3_result-none : (c : Checked (List Bytes)) → a3_result d c ≡ none → c ≡ inr []
  a3_result-none (inl e) h = cc
  a3_result-none (inr []) h = refl
  a3_result-none (inr (name ∷ names)) h = cc

  role_checked-Subjected :
      (db : d.Db) (rels : List Relation) (role : Bytes) (c : Checked (Bool × Bool))
      → answered (d.privileges db role) ≡ c
      → role_checked d db rels role c ≡ none
      → (d.privileges db role ≡ done (false, false)) × EachScoped (Subjected db role) rels
  role_checked-Subjected db rels role (inl e) p h = cc
  role_checked-Subjected db rels role (inr (true, bypass)) p h = cc
  role_checked-Subjected db rels role (inr (false, true)) p h = cc
  role_checked-Subjected db rels role (inr (false, false)) p h = (
    answered-inr _ _ p,
    unforced-Subjected db role rels (a3_result-none (unforced d db role rels) h),
  )

  -- Where CheckA3 returns no error, the role is no superuser and has no BYPASSRLS, and row security is
  -- forced on each scoped relation that it owns.
  pub check_a3-Subjected :
      (db : d.Db) (rels : List Relation) (role : Bytes)
      → check_a3 d db rels role ≡ none
      → (d.privileges db role ≡ done (false, false)) × EachScoped (Subjected db role) rels
  unfolding check_a3
  check_a3-Subjected db rels role h =
      role_checked-Subjected db rels role (answered (d.privileges db role)) refl h
