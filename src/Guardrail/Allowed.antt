-- ===== src/Guardrail/Allowed.antt =====
-- What reaches the wrapped database.
use tenantguard.Base.{
  Bool-cases, List, Option, [], inl, inr, none, refl, some, subst, ◌≡◌, ◌≢◌, ◌⊎◌,
}
use tenantguard.Base.Bytes.{Bytes, equal, equal_iff}
use tenantguard.Capture.Message.{Param}
use tenantguard.Differ.Extract.{extract_tenant}
use tenantguard.Differ.Single.{check_tenant, cte_names, referenced_relation_names}
use tenantguard.Differ.Single.Resolved.{Judged, check_tenant-Judged}
use tenantguard.Differ.Verdict.{Verdict, leak, safe, unattributable}
use tenantguard.Guardrail.{Arg, Refusal, check, checked, guarded, params_from_args, refusal_of}
use tenantguard.Schema.{Relation}

-- There is a tenant; every relation that the query mentions outside the names of its CTEs is one that
-- the policy classified; and if one of them is scoped, the query claims just that tenant.
pub record Admitted (rels : List Relation) (tenant query : Bytes) (args : List Arg) : Type 0 where
  pub has_tenant : tenant ≢ []
  pub params : List Param
  pub converted : params_from_args args ≡ some params
  pub judged :
      Judged
        (cte_names query)
        rels
        (referenced_relation_names query)
        (extract_tenant rels query params)
        tenant
        safe

refusal_of-safe : (r : Verdict × Bytes) → refusal_of r ≡ none → r.0 ≡ safe
unfolding refusal_of
refusal_of-safe (safe, tenant) h = refl
refusal_of-safe (leak, tenant) h = cc
refusal_of-safe (unattributable, tenant) h = cc

checked-Judged :
    (query : Bytes) (rels : List Relation) (tenant : Bytes) (o : Option (List Param))
    → checked query rels tenant o ≡ none
    → (ps : List Param) × (o ≡ some ps)
      × Judged
          (cte_names query)
          rels
          (referenced_relation_names query)
          (extract_tenant rels query ps)
          tenant
          safe
unfolding checked
checked-Judged query rels tenant none h = cc
checked-Judged query rels tenant (some ps) h = (
  ps,
  refl,
  subst
      (Judged (cte_names query) rels (referenced_relation_names query)
        (extract_tenant rels query ps) tenant)
      (refusal_of-safe (check_tenant query rels ps tenant) h)
      (check_tenant-Judged query rels ps tenant),
)

-- A query passes the check only where it is admitted.
check-Admitted :
    (rels : List Relation) (tenant query : Bytes) (args : List Arg)
    → check rels tenant query args ≡ none
    → Admitted rels tenant query args
unfolding check
check-Admitted rels tenant query args h = elim (Bool-cases (equal tenant [])) [
  | inl none_given ↦ let no = rw none_given at h in cc
  | inr given ↦
      let (ps, converted, judged) =
        checked-Judged query rels tenant (params_from_args args) (rw given at h) in
      record {
        has_tenant = λ e. let n = (equal_iff tenant []).1 e in cc;
        params = ps;
        converted = converted;
        judged = judged;
      }
]

module _ {S A : Type 0} (inner : S → Bytes → List Arg → A × S) where
  -- A refused call has not touched the database, and one that ran was admitted.
  abbrev pub Guarded : List Relation → Bytes → S → Bytes → List Arg → (Refusal ⊎ A) × S → Type 0
  Guarded rels tenant s query args (inl e, s') = s' ≡ s
  Guarded rels tenant s query args (inr a, s') =
      (inner s query args ≡ (a, s')) × Admitted rels tenant query args

  -- A call on the guarded database either is refused and leaves the wrapped one as it was, or is the
  -- wrapped database's own call, of a query that is admitted: the context has a tenant, the policy
  -- classified every relation that the query mentions, and none of these is scoped or the query claims
  -- just that tenant. A name that the query gives to one of its CTEs counts for no relation, not even
  -- inside that CTE, and not where a scoped relation has the same name.
  pub guarded-Guarded :
      (rels : List Relation) (tenant : Bytes) (s : S) (query : Bytes) (args : List Arg)
      → Guarded rels tenant s query args (guarded inner rels tenant s query args)
  unfolding guarded
  guarded-Guarded rels tenant s query args =
      step (check rels tenant query args) (check-Admitted rels tenant query args)
    where
      step :
          (o : Option Refusal)
          → (o ≡ none → Admitted rels tenant query args)
          → Guarded rels tenant s query args (elim o [
            | some e ↦ (inl e, s)
            | none ↦ (inr (inner s query args).0, (inner s query args).1)
          ])
      step (some e) k = refl
      step none k = (refl, k refl)
