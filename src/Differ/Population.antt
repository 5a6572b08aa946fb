-- ===== src/Differ/Population.antt =====
-- internal/differ/population.go: what kind of query it is that got no verdict.
use tenantguard.Base.{Bool, List, [], ap, arith, false, refl, true, ◌||◌, ◌∷◌, ◌≡◌, ◌≢◌}
use tenantguard.Base.Bytes.{Bytes}
use tenantguard.Capture.Message.{Param}
use tenantguard.Differ.Extract.{
  attr_unattributable, from_scoped, named_scoped, referenced_tables, to_lower,
}
use tenantguard.Differ.Statement.{is_non_query_text}
use tenantguard.Schema.{Relation, is_in}

-- `Population`, and the empty one of a query that has a verdict.
pub data Population : Type 0 where
  no_population : Population
  pop_no_declared_table : Population
  pop_structural_only : Population
  pop_row_level_unattributed : Population
  pop_non_query : Population

-- `relationsTouch`
unfoldable pub relations_touch : List Bytes → List Relation → Bool
unfolding to_lower
relations_touch names [] = false
relations_touch names (r ∷ rs) = is_in (to_lower r.name) names || relations_touch names rs

-- By whether it is no query, touches a row-level relation, touches a structural-only one.
abbrev pub population_of : Bool → Bool → Bool → Population
population_of true row structural = pop_non_query
population_of false true structural = pop_row_level_unattributed
population_of false false true = pop_structural_only
population_of false false false = pop_no_declared_table

-- `ClassifyUnattributable`
unfoldable pub classify_unattributable : Bytes → List Relation → List Relation → Population
unfolding relations_touch is_non_query_text referenced_tables
classify_unattributable sql row_level structural_only =
    let names = referenced_tables sql in
    population_of (is_non_query_text sql) (relations_touch names row_level)
      (relations_touch names structural_only)

untouched :
    (names : List Bytes) (rs : List Relation)
    → relations_touch names rs ≡ false
    → named_scoped names rs ≡ []
unfolding relations_touch named_scoped
untouched names [] h = refl
untouched names (r ∷ rs) h = ground (arith, untouched names rs)

not_row_level :
    (q r s : Bool) → q ≡ false → population_of q r s ≢ pop_row_level_unattributed → r ≡ false
not_row_level q r s e h = ground arith

-- A query that is put into a population other than that of row-level relations has, unless it is no
-- query at all, no tenant that its comparisons could give: they are UNATTRIBUTABLE for the relations
-- that the gate hands over, whatever the parameters.
pub population_explains :
    (sql : Bytes) (row_level structural_only : List Relation) (ps : List Param)
    → is_non_query_text sql ≡ false
    → classify_unattributable sql row_level structural_only ≢ pop_row_level_unattributed
    → from_scoped sql ps (named_scoped (referenced_tables sql) row_level) ≡ attr_unattributable
unfolding classify_unattributable from_scoped
population_explains sql row_level structural_only ps q h =
    let names = referenced_tables sql in
    ap (from_scoped sql ps) (
      untouched names row_level (
        not_row_level (is_non_query_text sql) (relations_touch names row_level)
          (relations_touch names structural_only) q h))
