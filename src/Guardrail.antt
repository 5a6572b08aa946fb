-- ===== src/Guardrail.antt =====
-- internal/guardrail: the wrapper of a database that checks each query before it runs.
pub mod Allowed
mod Tests
use tenantguard.Base.{List, Option, [], if◌then◌else◌, inl, inr, none, some, true, ◌∷◌, ◌⊎◌}
use tenantguard.Base.Bytes.{Bytes, equal}
use tenantguard.Capture.Message.{Param, zero_param}
use tenantguard.Differ.Single.{check_tenant}
use tenantguard.Differ.Verdict.{Verdict, leak, safe, unattributable}
use tenantguard.Schema.{Relation}

-- An argument, as `normalizeArg` and fmt.Sprint give it: a driver.Valuer may fail.
pub data Arg : Type 0 where
  arg_failed arg_nil : Arg
  arg_text : Bytes → Arg

-- `paramsFromArgs`, `none` for its error.
unfoldable pub params_from_args : List Arg → Option (List Param)
params_from_args [] = some []
params_from_args (a ∷ rest) = elim (params_from_args rest) [
  | none ↦ none
  | some ps ↦ elim a [
    | arg_failed ↦ none
    | arg_nil ↦ some (record zero_param { is_null = true; known = true } ∷ ps)
    | arg_text t ↦ some (record zero_param { known = true; text = t } ∷ ps)
  ]
]

-- The sentinels of the guardrail's errors.
pub data Refusal : Type 0 where
  err_no_tenant_context err_wrong_tenant err_unscoped_query err_unattributable : Refusal

-- The switch of `check`.
unfoldable pub refusal_of : Verdict × Bytes → Option Refusal
refusal_of (safe, tenant) = none
refusal_of (leak, tenant) = some (if equal tenant [] then err_unscoped_query else err_wrong_tenant)
refusal_of (unattributable, tenant) = some err_unattributable

-- `WithTenant` and `TenantFromContext`: what the context holds, empty where it holds no tenant.
abbrev pub Context : Type 0
Context = Bytes

pub checked : Bytes → List Relation → Context → Option (List Param) → Option Refusal
unfolding refusal_of check_tenant
checked query rels tenant none = some err_unattributable
checked query rels tenant (some params) = refusal_of (check_tenant query rels params tenant)

-- `DB.check`
unfoldable pub check : List Relation → Context → Bytes → List Arg → Option Refusal
unfolding checked params_from_args
check rels tenant query args =
    if equal tenant []
    then some err_no_tenant_context
    else checked query rels tenant (params_from_args args)

-- `QueryContext`, `ExecContext` and `QueryRowContext` with `Scan`, over the wrapped database's call.
module _ {S A : Type 0} (inner : S → Bytes → List Arg → A × S) where
  unfoldable pub guarded : List Relation → Context → S → Bytes → List Arg → (Refusal ⊎ A) × S
  unfolding check
  guarded rels tenant s query args = elim (check rels tenant query args) [
    | some e ↦ (inl e, s)
    | none ↦ let (answer, s') = inner s query args in (inr answer, s')
  ]
