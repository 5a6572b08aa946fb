-- ===== src/Differ/Extract/Claims.antt =====
-- Where an attributed tenant comes from.
use mathlib.Core.Option
use tenantguard.Base.{
  Bool, List, Option, [], ap, false, get_elem?, if◌then◌else◌, inl, inr, length, none, refl, some,
  suc, true, zero, ℕ, ◌==◌, ◌∷◌, ◌≡◌, ◌⊎◌,
}
use tenantguard.Base.Bytes.{Bytes, equal, starts_with}
use tenantguard.Base.Text.{trim_space}
use tenantguard.Capture.Message.{Param}
use tenantguard.Differ.Extract.{
  Attribution, all_decoded, attr_no_predicate, attr_resolved, attr_unattributable, compared,
  compared_all, compared_relations, concluded, extract_from_insert, extract_tenant, from_columns,
  from_columns_span, from_insert_match, from_lists, from_number, from_param, from_relation,
  from_scoped, from_value, from_values, merge_value, named_scoped, or_where, param_at,
  referenced_tables, resolve_param_ref, split_top_level, to_lower,
}
use tenantguard.Differ.Patterns.{insert_prefix, tenant_compare_regex, values_prefix}
use tenantguard.Differ.Regex.{Cursor, find, find_all, group_of}
use tenantguard.Differ.Statement.{balanced_paren_span}
use tenantguard.Schema.{Relation}

-- The value is the text of one of the parameters.
abbrev pub TextOf : List Param → Bytes → Type 0
TextOf [] v = ⊥
TextOf (p ∷ ps) v = (p.text ≡ v) ⊎ TextOf ps v

-- An attributed tenant, if there is one, is the text of a parameter.
abbrev pub Claimed : List Param → Attribution → Type 0
Claimed ps (attr_resolved v) = TextOf ps v
Claimed ps _ = Unit

abbrev ClaimedIf : List Param → Option Attribution → Type 0
ClaimedIf ps none = Unit
ClaimedIf ps (some a) = Claimed ps a

abbrev ValueIf : List Param → Unit {0} ⊎ Option Bytes → Type 0
ValueIf ps (inr (some v)) = TextOf ps v
ValueIf ps _ = Unit

get_elem?-TextOf : (ps : List Param) (n : ℕ) → Claimed ps (from_param (get_elem? ps n))
unfolding from_param
get_elem?-TextOf [] n = tt
get_elem?-TextOf (p ∷ ps) zero = inl refl
get_elem?-TextOf (p ∷ ps) (suc n) = later (get_elem? ps n) (get_elem?-TextOf ps n)
  where
    later : (o : Option Param) → Claimed ps (from_param o) → Claimed (p ∷ ps) (from_param o)
    later none h = tt
    later (some q) h = inr h

module _ (ps : List Param) where
  from_number-Claimed : (o : Option ℕ) → Claimed ps (from_number ps o)
  unfolding from_number param_at from_param
  from_number-Claimed none = tt
  from_number-Claimed (some zero) = tt
  from_number-Claimed (some (suc n)) = get_elem?-TextOf ps n

  from_value-Claimed : (rhs : Bytes) → Claimed ps (from_value ps rhs)
  unfolding from_value
  from_value-Claimed rhs = step (starts_with rhs (b'(' ∷ []))
    where
      step :
          (b : Bool)
          → Claimed ps (if b then attr_unattributable else from_number ps (resolve_param_ref rhs))
      step true = tt
      step false = from_number-Claimed (resolve_param_ref rhs)

  from_columns-Claimed :
      (column : Bytes) (cs vs : List Bytes) → Claimed ps (from_columns column ps cs vs)
  unfolding from_columns
  from_columns-Claimed column [] vs = tt
  from_columns-Claimed column (c ∷ cs) [] = tt
  from_columns-Claimed column (c ∷ cs) (v ∷ vs) =
      step (equal (to_lower (trim_space c)) (to_lower column)) (from_columns-Claimed column cs vs)
    where
      step :
          (b : Bool)
          → Claimed ps (from_columns column ps cs vs)
          → Claimed ps (if b then from_value ps (trim_space v) else from_columns column ps cs vs)
      step true h = from_value-Claimed (trim_space v)
      step false h = h

  from_lists-Claimed : (rel : Relation) (cs vs : List Bytes) → Claimed ps (from_lists rel ps cs vs)
  unfolding from_lists
  from_lists-Claimed rel cs vs = step (length cs == length vs)
    where
      step :
          (b : Bool)
          → Claimed ps (if b then from_columns rel.tenant_column ps cs vs else attr_unattributable)
      step true = from_columns-Claimed rel.tenant_column cs vs
      step false = tt

  from_values-Claimed :
      (rel : Relation) (cols : Bytes) (o : Option Cursor) → ClaimedIf ps (from_values rel ps cols o)
  unfolding from_values
  from_values-Claimed rel cols none = tt
  from_values-Claimed rel cols (some c) = step (balanced_paren_span (b'(' ∷ c.rest))
    where
      step :
          (o : Option (Bytes × Bytes))
          → ClaimedIf ps (
              Option.map
                (λ span.
                  from_lists rel ps (split_top_level 0 0 [] cols) (split_top_level 0 0 [] span.0))
                o)
      step none = tt
      step (some span) = from_lists-Claimed rel _ _

  from_columns_span-Claimed :
      (rel : Relation) (o : Option (Bytes × Bytes)) → ClaimedIf ps (from_columns_span rel ps o)
  unfolding from_columns_span
  from_columns_span-Claimed rel none = tt
  from_columns_span-Claimed rel (some span) =
      from_values-Claimed rel span.0 (find values_prefix none span.1)

  from_relation-Claimed :
      (rest : Bytes) (o : Option Relation) → ClaimedIf ps (from_relation ps rest o)
  unfolding from_relation
  from_relation-Claimed rest none = tt
  from_relation-Claimed rest (some rel) =
      from_columns_span-Claimed rel (balanced_paren_span (b'(' ∷ rest))

  from_insert_match-Claimed :
      (rels : List Relation) (o : Option Cursor) → ClaimedIf ps (from_insert_match rels ps o)
  unfolding from_insert_match
  from_insert_match-Claimed rels none = tt
  from_insert_match-Claimed rels (some c) = from_relation-Claimed c.rest _

  merge_value-ValueIf :
      (seen : Option Bytes) (v : Bytes)
      → ValueIf ps (inr seen)
      → TextOf ps v
      → ValueIf ps (merge_value seen v)
  unfolding merge_value
  merge_value-ValueIf none v s t = t
  merge_value-ValueIf (some w) v s t = step (equal v w)
    where
      step : (b : Bool) → ValueIf ps (if b then inr (some w) else inl tt)
      step true = s
      step false = tt

  compared-ValueIf :
      (seen : Option Bytes) (rhs : Bytes)
      → ValueIf ps (inr seen)
      → ValueIf ps (compared ps seen rhs)
  unfolding compared
  compared-ValueIf seen rhs s = step (from_value ps rhs) (from_value-Claimed rhs)
    where
      step :
          (a : Attribution)
          → Claimed ps a
          → ValueIf ps (elim a [
            | attr_unattributable ↦ inl tt
            | attr_no_predicate ↦ inr seen
            | attr_resolved v ↦ merge_value seen v
          ])
      step (attr_resolved v) h = merge_value-ValueIf seen v s h
      step attr_no_predicate h = s
      step attr_unattributable h = tt

  compared_all-ValueIf :
      (ms : List (List (ℕ × Bytes))) (seen : Option Bytes)
      → ValueIf ps (inr seen)
      → ValueIf ps (compared_all ps seen ms)
  unfolding compared_all
  compared_all-ValueIf [] seen s = s
  compared_all-ValueIf (m ∷ ms) seen s =
      step (compared ps seen (group_of 1 m)) (compared-ValueIf seen (group_of 1 m) s)
        (λ now. compared_all-ValueIf ms now)
    where
      step :
          (r : Unit {0} ⊎ Option Bytes)
          → ValueIf ps r
          → ((now : Option Bytes) → ValueIf ps (inr now) → ValueIf ps (compared_all ps now ms))
          → ValueIf ps (elim r [ inl u ↦ inl u | inr now ↦ compared_all ps now ms ])
      step (inl u) h k = tt
      step (inr now) h k = k now h

  compared_relations-ValueIf :
      (sql : Bytes) (rs : List Relation) (seen : Option Bytes)
      → ValueIf ps (inr seen)
      → ValueIf ps (compared_relations sql ps seen rs)
  unfolding compared_relations
  compared_relations-ValueIf sql [] seen s = s
  compared_relations-ValueIf sql (r ∷ rs) seen s =
      step
        (compared_all ps seen
          (find_all (tenant_compare_regex r.tenant_column) (length sql) none sql))
        (compared_all-ValueIf _ seen s) (λ now. compared_relations-ValueIf sql rs now)
    where
      step :
          (o : Unit {0} ⊎ Option Bytes)
          → ValueIf ps o
          → ((now : Option Bytes)
              → ValueIf ps (inr now)
              → ValueIf ps (compared_relations sql ps now rs))
          → ValueIf ps (elim o [ inl u ↦ inl u | inr now ↦ compared_relations sql ps now rs ])
      step (inl u) h k = tt
      step (inr now) h k = k now h

  concluded-Claimed : (o : Unit {0} ⊎ Option Bytes) → ValueIf ps o → Claimed ps (concluded o)
  unfolding concluded
  concluded-Claimed (inl u) h = tt
  concluded-Claimed (inr none) h = tt
  concluded-Claimed (inr (some v)) h = h

  from_scoped-Claimed : (sql : Bytes) (rs : List Relation) → Claimed ps (from_scoped sql ps rs)
  unfolding from_scoped
  from_scoped-Claimed sql [] = tt
  from_scoped-Claimed sql (r ∷ rs) =
      concluded-Claimed _ (compared_relations-ValueIf sql (r ∷ rs) none tt)

  or_where-Claimed :
      (o : Option Attribution) (a : Attribution)
      → ClaimedIf ps o
      → Claimed ps a
      → Claimed ps (or_where o a)
  or_where-Claimed none a h k = k
  or_where-Claimed (some b) a h k = h

  -- A tenant is attributed to a query only as the text of one of the query's parameters, all of which
  -- are then known or NULL: a value is neither guessed nor taken from the text of the query.
  pub extract_tenant-Claimed :
      (rels : List Relation) (sql : Bytes)
      → Claimed ps (extract_tenant rels sql ps)
        × (all_decoded ps ≡ false → extract_tenant rels sql ps ≡ attr_unattributable)
  unfolding extract_tenant extract_from_insert
  extract_tenant-Claimed rels sql =
      (step (all_decoded ps), λ e. ap (λ b. if b then found else attr_unattributable) e)
    where
      found : Attribution
      found =
          or_where (extract_from_insert sql rels ps)
            (from_scoped sql ps (named_scoped (referenced_tables sql) rels))

      step : (b : Bool) → Claimed ps (if b then found else attr_unattributable)
      step true =
          or_where-Claimed (extract_from_insert sql rels ps)
            (from_scoped sql ps (named_scoped (referenced_tables sql) rels))
            (from_insert_match-Claimed rels (find insert_prefix none sql))
            (from_scoped-Claimed sql (named_scoped (referenced_tables sql) rels))
      step false = tt
