-- ===== src/Differ/Single.antt =====
-- internal/differ/tier2.go: the check of a single query against the policy and a tenant, with no second
-- execution. A reason is not modelled.
pub mod Resolved
pub mod Enough
use tenantguard.Base.{
  Bool, List, Option, [], false, if◌then◌else◌, inl, inr, length, map, none, some, suc, take, true,
  zero, ℕ, ◌++◌, ◌+◌, ◌-◌, ◌==◌, ◌∷◌,
}
use tenantguard.Base.Bytes.{Bytes, codes, equal}
use tenantguard.Base.Text.{trim_space}
use tenantguard.Capture.Framer.{next}
use tenantguard.Capture.Message.{Param}
use tenantguard.Differ.Extract.{
  Attribution, attr_no_predicate, attr_resolved, attr_unattributable, extract_tenant, to_lower,
}
use tenantguard.Differ.Patterns.{table_ref}
use tenantguard.Differ.Regex.{find_all, group_of, or_else}
use tenantguard.Differ.Statement.{
  Cte, after_comments, after_with, keyword, one_cte, skip_identifier, skip_space,
}
use tenantguard.Differ.Verdict.{Verdict, leak, safe, unattributable}
use tenantguard.Schema.{Class, Relation, is_in, other_class, scoped, unclassifiable, unscoped}

unfoldable pub trim_quotes_left : Bytes → Bytes
trim_quotes_left [] = []
trim_quotes_left (c ∷ cs) = let rest = trim_quotes_left cs in if c == 34 then rest else c ∷ cs

abbrev keep_unquoted : ℕ → Bytes → Bytes
keep_unquoted c [] = if c == 34 then [] else c ∷ []
keep_unquoted c (d ∷ ds) = c ∷ d ∷ ds

unfoldable pub trim_quotes_right : Bytes → Bytes
trim_quotes_right [] = []
trim_quotes_right (c ∷ cs) = keep_unquoted c (trim_quotes_right cs)

-- The lower-case name that starts a definition, without its quotes, where `rest` follows it.
unfoldable pub cte_name : Bytes → Bytes → Bytes
unfolding trim_quotes_left trim_quotes_right to_lower
cte_name s rest = to_lower (trim_quotes_left (trim_quotes_right (take (length s - length rest) s)))

-- The names in the definition's body and in what follows it.
unfoldable pub names_after : (Bytes → List Bytes) → (Bytes → List Bytes) → Cte → List Bytes
unfolding trim_space
names_after inner next (inl rest) = []
names_after inner next (inr (body, [])) = inner (trim_space body)
names_after inner next (inr (body, c ∷ cs)) =
    let later = next cs in inner (trim_space body) ++ (if c == b',' then later else [])

unfoldable pub names_of_list : (Bytes → List Bytes) → ℕ → Bytes → List Bytes
unfolding names_after cte_name one_cte skip_identifier
names_of_list inner zero t = []
names_of_list inner (suc fuel) t =
    let s = skip_space t in
    let later = names_after inner (λ u. names_of_list inner fuel u) (one_cte t) in
    elim (skip_identifier s) [ none ↦ [] | some rest ↦ cte_name s rest ∷ later ]

-- `collectCTENames`, on texts below `fuel` bytes.
unfoldable pub collect_cte_names : ℕ → Bytes → List Bytes
unfolding names_of_list keyword after_with
collect_cte_names zero t = []
collect_cte_names (suc fuel) t = elim (keyword (codes "WITH") t) [
  | none ↦ []
  | some rest ↦
      let s = after_with (skip_space rest) in
      names_of_list (λ body. collect_cte_names fuel body) (length s) s
]

-- `cteNames`
unfoldable pub cte_names : Bytes → List Bytes
unfolding collect_cte_names after_comments
cte_names sql = let t = after_comments sql in collect_cte_names (length t + 1) t

-- `referencedRelationNames`
unfoldable pub referenced_relation_names : Bytes → List Bytes
unfolding find_all table_ref to_lower group_of
referenced_relation_names sql =
    map (λ m. to_lower (group_of 1 m)) (find_all table_ref (length sql) none sql)

-- `byName[name]`: of relations with one name, the last.
unfoldable pub by_name : Bytes → List Relation → Option Class
unfolding to_lower or_else
by_name name [] = none
by_name name (r ∷ rs) =
    or_else (by_name name rs) (if equal (to_lower r.name) name then some r.class else none)

-- `referenceResolution`: blocked, or whether a scoped relation is referenced.
pub data Resolution : Type 0 where
  blocked : Resolution
  any_scoped : Bool → Resolution

abbrev pub also_scoped : Resolution → Resolution
also_scoped blocked = blocked
also_scoped (any_scoped b) = any_scoped true

-- A referenced name that is no CTE, in front of the other names' resolution.
unfoldable pub resolve_class : Option Class → Resolution → Resolution
resolve_class none rest = blocked
resolve_class (some unclassifiable) rest = blocked
resolve_class (some scoped) rest = also_scoped rest
resolve_class (some unscoped) rest = rest
resolve_class (some (other_class c)) rest = rest

unfoldable pub resolve_names : List Bytes → List Relation → List Bytes → Resolution
unfolding resolve_class by_name
resolve_names ctes rels [] = any_scoped false
resolve_names ctes rels (name ∷ names) =
    let rest = resolve_names ctes rels names in
    if is_in name ctes then rest else resolve_class (by_name name rels) rest

-- `resolveReferences`: the names are met in any order, on which only the reason of a block depends.
unfoldable pub resolve_references : Bytes → List Relation → Resolution
unfolding resolve_names cte_names referenced_relation_names
resolve_references sql rels = resolve_names (cte_names sql) rels (referenced_relation_names sql)

-- The verdict with its tenant.
unfoldable pub judge : Bytes → Attribution → Verdict × Bytes
judge intended attr_unattributable = (unattributable, [])
judge intended attr_no_predicate = (leak, [])
judge intended (attr_resolved v) = if equal v intended then (safe, v) else (leak, v)

abbrev pub judge_resolved : Attribution → Bytes → Resolution → Verdict × Bytes
judge_resolved attr intended blocked = (unattributable, [])
judge_resolved attr intended (any_scoped false) = (safe, [])
judge_resolved attr intended (any_scoped true) = judge intended attr

-- `CheckTenant`
unfoldable pub check_tenant : Bytes → List Relation → List Param → Bytes → Verdict × Bytes
unfolding judge resolve_references extract_tenant
check_tenant sql rels params intended =
    judge_resolved (extract_tenant rels sql params) intended (resolve_references sql rels)
