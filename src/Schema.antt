-- ===== src/Schema.antt =====
-- internal/schema/schema.go: what a relation is classified as, from its kind and its columns. The
-- reason, a text for the reader of a policy, is not modelled, nor is the JSON codec.
pub mod Array
pub mod Tenancy
pub mod Infer
mod Tests
use tenantguard.Base.{Bool, List, [], false, if◌then◌else◌, true, ℕ, ◌++◌, ◌+◌, ◌∷◌}
use tenantguard.Base.Assoc.{Assoc}
use tenantguard.Base.Bytes.{Bytes, codes, equal}
use tenantguard.Differ.Rows.{sort}

-- `Class`: a string, of which a policy file may hold any.
pub data Class : Type 0 where
  scoped unscoped unclassifiable : Class
  other_class : Bytes → Class

-- `Relation`. `fixture` maps column names to literals, once for each of two rows.
pub record Relation : Type 0 where
  pub schema : Bytes
  pub name : Bytes
  pub kind : Bytes
  pub class : Class
  pub tenant_column : Bytes
  pub candidates : List Bytes
  pub fixture : List (Assoc Bytes)

-- `Relation.Qualified`
unfoldable pub qualified : Relation → Bytes
qualified r = r.schema ++ b'.' ∷ r.name

abbrev pub is_scoped : Class → Bool
is_scoped scoped = true
is_scoped _ = false

abbrev pub is_unclassifiable : Class → Bool
is_unclassifiable unclassifiable = true
is_unclassifiable _ = false

-- `Policy.Scoped`
unfoldable pub scoped_of : List Relation → List Relation
scoped_of [] = []
scoped_of (r ∷ rs) = let rest = scoped_of rs in if is_scoped r.class then r ∷ rest else rest

-- `Policy.Unclassifiable`
unfoldable pub unclassifiable_of : List Relation → List Relation
unclassifiable_of [] = []
unclassifiable_of (r ∷ rs) =
    let rest = unclassifiable_of rs in if is_unclassifiable r.class then r ∷ rest else rest

-- The counts of scoped, unscoped and unclassifiable relations.
abbrev pub add_class : Class → ℕ × ℕ × ℕ → ℕ × ℕ × ℕ
add_class scoped (s, u, n) = (s + 1, u, n)
add_class unscoped (s, u, n) = (s, u + 1, n)
add_class _ (s, u, n) = (s, u, n + 1)

unfoldable pub counts_from : ℕ × ℕ × ℕ → List Relation → ℕ × ℕ × ℕ
counts_from acc [] = acc
counts_from acc (r ∷ rs) = counts_from (add_class r.class acc) rs

-- `Policy.Counts`
unfoldable pub counts : List Relation → ℕ × ℕ × ℕ
unfolding counts_from
counts rs = counts_from (0, 0, 0) rs

unfoldable pub candidate_columns : List Bytes
candidate_columns =
    codes "tenant_id"
    ∷ codes "org_id"
    ∷ codes "organization_id"
    ∷ codes "workspace_id"
    ∷ codes "account_id"
    ∷ codes "owner"
    ∷ codes "instance_id"
    ∷ []

unfoldable pub is_in : Bytes → List Bytes → Bool
is_in col [] = false
is_in col (c ∷ cs) = if equal col c then true else is_in col cs

-- `IsCandidate`
unfoldable pub is_candidate : Bytes → Bool
unfolding is_in candidate_columns
is_candidate col = is_in col candidate_columns

unfoldable pub select_candidates : List Bytes → List Bytes
select_candidates [] = []
select_candidates (c ∷ cs) =
    let rest = select_candidates cs in if is_candidate c then c ∷ rest else rest

-- `Candidates`
unfoldable pub candidates : List Bytes → List Bytes
unfolding select_candidates
candidates cols = sort (select_candidates cols)

-- Class, tenant column and candidates.
abbrev pub Classification : Type 0
Classification = Class × Bytes × List Bytes

-- By the number of candidates.
abbrev pub by_candidates : List Bytes → Classification
by_candidates [] = (unscoped, [], [])
by_candidates (c ∷ []) = (scoped, c, c ∷ [])
by_candidates (c ∷ d ∷ cs) = (unclassifiable, [], c ∷ d ∷ cs)

abbrev pub views : List Bytes
views = codes "VIEW" ∷ codes "MATERIALIZED VIEW" ∷ codes "FOREIGN TABLE" ∷ []

-- `Classify`. A partitioned table with one candidate is classified as any other table is; only the
-- reason differs.
unfoldable pub classify : Bytes → List Bytes → Classification
unfolding is_in
classify kind cols =
    let cands = candidates cols in
    if is_in kind views then (unclassifiable, [], cands) else by_candidates cands
