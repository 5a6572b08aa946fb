-- ===== src/Differ/Extract.antt =====
-- internal/differ/extract.go: the tenant that a captured query claims, from its text and its parameters.
pub mod Claims
pub mod Nulls
pub mod Recalled
use mathlib.Core.Option
use tenantguard.Base.{
  Bool, List, Option, [], get_elem?, if◌then◌else◌, inl, inr, length, map, none, some, suc, true,
  zero, ℕ, ◌%◌, ◌&&◌, ◌*◌, ◌++◌, ◌+◌, ◌-◌, ◌==◌, ◌^◌, ◌||◌, ◌∷◌, ◌⊎◌,
}
use tenantguard.Base.Bytes.{Bytes, codes, equal, starts_with}
use tenantguard.Base.Text.{trim_space}
use tenantguard.Capture.Message.{Param}
use tenantguard.Differ.Patterns.{
  insert_prefix, lower_case, param_ref_cast_chain, param_ref_cast_func, table_ref,
  tenant_compare_regex, values_prefix,
}
use tenantguard.Differ.Regex.{Cursor, find, find_all, group_of, match_whole, or_else}
use tenantguard.Differ.Statement.{balanced_paren_span}
use tenantguard.Schema.{Relation, is_in, is_scoped}

-- `TenantAttribution`, without its reason.
pub data Attribution : Type 0 where
  attr_resolved : Bytes → Attribution
  attr_no_predicate attr_unattributable : Attribution

-- strings.ToLower on ASCII
unfoldable pub to_lower : Bytes → Bytes
to_lower s = map lower_case s

-- `atoiSafe` of digits, on a 64-bit int.
unfoldable pub atoi_safe : ℕ → Bytes → ℕ
atoi_safe n [] = n
atoi_safe n (c ∷ cs) = atoi_safe ((n * 10 + (c - 48)) % 2 ^ 64) cs

-- `resolveParamRef`
unfoldable pub resolve_param_ref : Bytes → Option ℕ
unfolding param_ref_cast_func atoi_safe match_whole group_of or_else
resolve_param_ref s =
    Option.map (λ groups. atoi_safe 0 (group_of 1 groups))
      (or_else (match_whole param_ref_cast_chain s) (match_whole param_ref_cast_func s))

-- `params[paramNumber - 1]`, `none` out of range; a number whose sign bit is set is negative.
unfoldable pub param_at : ℕ → List Param → Option Param
param_at zero params = none
param_at (suc i) params = get_elem? params i

unfoldable pub alias_stop_words : List Bytes
alias_stop_words = map codes (
    "where" ∷ "on" ∷ "using" ∷ "set" ∷ "as" ∷ "join" ∷ "inner" ∷ "left" ∷ "right" ∷ "full" ∷ "outer"
    ∷ "cross" ∷ "natural" ∷ "order" ∷ "group" ∷ "limit" ∷ "offset" ∷ "returning" ∷ "values" ∷ "for"
    ∷ [])

abbrev names_of : Bytes → Bytes → List Bytes
names_of name alias =
    if equal alias [] || is_in alias alias_stop_words then name ∷ [] else name ∷ alias ∷ []

unfoldable pub table_names : List (List (ℕ × Bytes)) → List Bytes
unfolding to_lower group_of
table_names [] = []
table_names (m ∷ ms) =
    names_of (to_lower (group_of 1 m)) (to_lower (group_of 2 m)) ++ table_names ms

-- `referencedTables`: the names of the set.
unfoldable pub referenced_tables : Bytes → List Bytes
unfolding table_names find_all table_ref
referenced_tables sql = table_names (find_all table_ref (length sql) none sql)

-- `splitTopLevel`: the depth is the difference of the parentheses opened and closed so far.
unfoldable pub split_top_level : ℕ → ℕ → Bytes → Bytes → List Bytes
split_top_level opened closed cur [] = cur ∷ []
split_top_level opened closed cur (c ∷ cs) =
    let ends = c == b',' && opened == closed in
    let rest =
      split_top_level (if c == b'(' then opened + 1 else opened)
        (if c == b')' then closed + 1 else closed) (if ends then [] else cur ++ c ∷ []) cs in
    if ends then cur ∷ rest else rest

-- The value that a parameter's number stands for.
unfoldable pub from_param : Option Param → Attribution
from_param none = attr_unattributable
from_param (some p) = attr_resolved p.text

unfoldable pub from_number : List Param → Option ℕ → Attribution
unfolding from_param param_at
from_number params none = attr_no_predicate
from_number params (some n) = from_param (param_at n params)

unfoldable pub from_value : List Param → Bytes → Attribution
unfolding from_number resolve_param_ref
from_value params rhs =
    if starts_with rhs (b'(' ∷ [])
    then attr_unattributable
    else from_number params (resolve_param_ref rhs)

-- The loop of `extractFromInsert` over the columns, with the values beside them.
unfoldable pub from_columns : Bytes → List Param → List Bytes → List Bytes → Attribution
unfolding from_value trim_space to_lower
from_columns column params [] vals = attr_no_predicate
from_columns column params (c ∷ cs) [] = attr_no_predicate
from_columns column params (c ∷ cs) (v ∷ vs) =
    if equal (to_lower (trim_space c)) (to_lower column)
    then from_value params (trim_space v)
    else from_columns column params cs vs

unfoldable pub scoped_named : Bytes → List Relation → Option Relation
unfolding to_lower
scoped_named table [] = none
scoped_named table (r ∷ rs) =
    if is_scoped r.class && equal (to_lower r.name) table then some r else scoped_named table rs

pub from_lists : Relation → List Param → List Bytes → List Bytes → Attribution
unfolding from_columns
from_lists rel params cols vals =
    if length cols == length vals
    then from_columns rel.tenant_column params cols vals
    else attr_unattributable

pub from_values : Relation → List Param → Bytes → Option Cursor → Option Attribution
unfolding from_lists split_top_level
from_values rel params cols none = none
from_values rel params cols (some c) =
    Option.map
      (λ span. from_lists rel params (split_top_level 0 0 [] cols) (split_top_level 0 0 [] span.0))
      (balanced_paren_span (b'(' ∷ c.rest))

pub from_columns_span : Relation → List Param → Option (Bytes × Bytes) → Option Attribution
unfolding from_values find values_prefix
from_columns_span rel params none = none
from_columns_span rel params (some span) =
    from_values rel params span.0 (find values_prefix none span.1)

pub from_relation : List Param → Bytes → Option Relation → Option Attribution
unfolding from_columns_span
from_relation params rest none = none
from_relation params rest (some rel) =
    from_columns_span rel params (balanced_paren_span (b'(' ∷ rest))

pub from_insert_match : List Relation → List Param → Option Cursor → Option Attribution
unfolding from_relation scoped_named group_of
from_insert_match rels params none = none
from_insert_match rels params (some c) =
    from_relation params c.rest (scoped_named (to_lower (group_of 1 c.groups)) rels)

-- `extractFromInsert`
unfoldable pub extract_from_insert : Bytes → List Relation → List Param → Option Attribution
unfolding from_insert_match find insert_prefix
extract_from_insert sql rels params = from_insert_match rels params (find insert_prefix none sql)

-- One comparison, after those that gave the value `seen`: `inl` stops as unattributable.
unfoldable pub merge_value : Option Bytes → Bytes → Unit {0} ⊎ Option Bytes
merge_value none v = inr (some v)
merge_value (some w) v = if equal v w then inr (some w) else inl tt

unfoldable pub compared : List Param → Option Bytes → Bytes → Unit {0} ⊎ Option Bytes
unfolding merge_value from_value
compared params seen rhs = elim (from_value params rhs) [
  | attr_unattributable ↦ inl tt
  | attr_no_predicate ↦ inr seen
  | attr_resolved v ↦ merge_value seen v
]

unfoldable pub compared_all :
    List Param → Option Bytes → List (List (ℕ × Bytes)) → Unit {0} ⊎ Option Bytes
unfolding compared group_of
compared_all params seen [] = inr seen
compared_all params seen (m ∷ ms) = elim (compared params seen (group_of 1 m)) [
  | inl u ↦ inl u
  | inr now ↦ compared_all params now ms
]

-- The loop over the scoped relations that the text names.
unfoldable pub compared_relations :
    Bytes → List Param → Option Bytes → List Relation → Unit {0} ⊎ Option Bytes
unfolding compared_all find_all tenant_compare_regex
compared_relations sql params seen [] = inr seen
compared_relations sql params seen (r ∷ rs) =
    elim (compared_all params seen
      (find_all (tenant_compare_regex r.tenant_column) (length sql) none sql)) [
        | inl u ↦ inl u
        | inr now ↦ compared_relations sql params now rs
      ]

unfoldable pub named_scoped : List Bytes → List Relation → List Relation
unfolding to_lower
named_scoped names [] = []
named_scoped names (r ∷ rs) =
    let rest = named_scoped names rs in
    if is_scoped r.class && is_in (to_lower r.name) names then r ∷ rest else rest

unfoldable pub concluded : Unit {0} ⊎ Option Bytes → Attribution
concluded (inl u) = attr_unattributable
concluded (inr none) = attr_no_predicate
concluded (inr (some v)) = attr_resolved v

unfoldable pub from_scoped : Bytes → List Param → List Relation → Attribution
unfolding concluded compared_relations
from_scoped sql params [] = attr_unattributable
from_scoped sql params (r ∷ rs) = concluded (compared_relations sql params none (r ∷ rs))

-- Every parameter is NULL or known.
unfoldable pub all_decoded : List Param → Bool
all_decoded [] = true
all_decoded (p ∷ ps) = (p.is_null || p.known) && all_decoded ps

abbrev pub or_where : Option Attribution → Attribution → Attribution
or_where none a = a
or_where (some b) a = b

-- `ExtractTenant`
unfoldable pub extract_tenant : List Relation → Bytes → List Param → Attribution
unfolding extract_from_insert from_scoped named_scoped referenced_tables all_decoded
extract_tenant rels sql params =
    if all_decoded params
    then or_where (extract_from_insert sql rels params)
        (from_scoped sql params (named_scoped (referenced_tables sql) rels))
    else attr_unattributable
