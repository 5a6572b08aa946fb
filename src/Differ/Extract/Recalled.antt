-- ===== src/Differ/Extract/Recalled.antt =====
-- internal/differ/extract.go: the tenant of an event that was recorded and decoded again, where decoding
-- moves the texts of its parameters and keeps which of them are equal.
use mathlib.Core.Option
use tenantguard.Base.{
  Bool-cases, List, Option, [], ap, arith, get_elem?, inl, inr, length, map, none, refl, some, suc,
  true, zero, ℕ, ◌&&◌, ◌||◌, ◌∙◌, ◌∷◌, ◌≡◌, ◌⊎◌,
}
use tenantguard.Base.Bytes.{Bytes, equal}
use tenantguard.Base.Text.{trim_space}
use tenantguard.Capture.Message.{Param}
use tenantguard.Capture.Recorder.RoundTrip.{recalled_param}
use tenantguard.Differ.Extract.{
  Attribution, all_decoded, attr_no_predicate, attr_resolved, attr_unattributable, compared,
  compared_all, compared_relations, concluded, extract_from_insert, extract_tenant, from_columns,
  from_columns_span, from_insert_match, from_lists, from_number, from_param, from_relation,
  from_scoped, from_value, from_values, merge_value, named_scoped, or_where, param_at,
  referenced_tables, resolve_param_ref, scoped_named, split_top_level, to_lower,
}
use tenantguard.Differ.Patterns.{insert_prefix, tenant_compare_regex, values_prefix}
use tenantguard.Differ.Regex.{Cursor, find, find_all, group_of}
use tenantguard.Differ.Statement.{balanced_paren_span}
use tenantguard.Schema.{Relation}

-- Each parameter has the text that `move` gives it, once it is decoded.
abbrev pub AllMoved : (Bytes → Bytes) → List Param → Type 0
AllMoved move [] = Unit
AllMoved move (p ∷ ps) = ((recalled_param p).text ≡ move p.text) × AllMoved move ps

unfoldable pub moved : (Bytes → Bytes) → Attribution → Attribution
moved move (attr_resolved t) = attr_resolved (move t)
moved move attr_no_predicate = attr_no_predicate
moved move attr_unattributable = attr_unattributable

unfoldable moved_on : (Bytes → Bytes) → Unit {0} ⊎ Option Bytes → Unit {0} ⊎ Option Bytes
moved_on move (inl u) = inl u
moved_on move (inr none) = inr none
moved_on move (inr (some t)) = inr (some (move t))

all_decoded-recalled : (ps : List Param) → all_decoded (map recalled_param ps) ≡ all_decoded ps
unfolding all_decoded recalled_param
all_decoded-recalled [] = refl
all_decoded-recalled (p ∷ ps) = ap (λ b. (p.is_null || p.known) && b) (all_decoded-recalled ps)

from_element :
    (move : Bytes → Bytes) (ps : List Param) (i : ℕ)
    → AllMoved move ps
    → from_param (get_elem? (map recalled_param ps) i) ≡ moved move (from_param (get_elem? ps i))
unfolding from_param moved
from_element move [] i h = refl
from_element move (p ∷ ps) zero (h, _) = ap attr_resolved h
from_element move (p ∷ ps) (suc i) (_, h) = from_element move ps i h

map-moved :
    {A : Type 0}
    → (move : Bytes → Bytes) (f g : A → Attribution) (o : Option A)
    → ((x : A) → f x ≡ moved move (g x))
    → Option.map f o ≡ Option.map (moved move) (Option.map g o)
map-moved move f g none h = refl
map-moved move f g (some x) h = ap some (h x)

abbrev step : Option Bytes → Attribution → Unit {0} ⊎ Option Bytes
step seen a = elim a [
  | attr_unattributable ↦ inl tt
  | attr_no_predicate ↦ inr seen
  | attr_resolved v ↦ merge_value seen v
]

compared-split :
    (x : Unit {0} ⊎ Option Bytes)
    → ((u : Unit {0}) × (x ≡ inl u)) ⊎ ((now : Option Bytes) × (x ≡ inr now))
compared-split (inl u) = inl (u, refl)
compared-split (inr now) = inr (now, refl)

module _ (move : Bytes → Bytes) (keeps : (a b : Bytes) → equal (move a) (move b) ≡ equal a b)
    (ps : List Param) (texts : AllMoved move ps) where
  from_number-recalled :
      (n : Option ℕ) → from_number (map recalled_param ps) n ≡ moved move (from_number ps n)
  unfolding from_number param_at moved from_param
  from_number-recalled none = refl
  from_number-recalled (some zero) = refl
  from_number-recalled (some (suc i)) = from_element move ps i texts

  from_value-recalled :
      (rhs : Bytes) → from_value (map recalled_param ps) rhs ≡ moved move (from_value ps rhs)
  unfolding from_value moved
  from_value-recalled rhs = ground (arith, from_number-recalled (resolve_param_ref rhs))

  from_columns-recalled :
      (column : Bytes) (cols vals : List Bytes)
      → from_columns column (map recalled_param ps) cols vals
        ≡ moved move (from_columns column ps cols vals)
  unfolding from_columns moved
  from_columns-recalled column [] vals = refl
  from_columns-recalled column (c ∷ cols) [] = refl
  from_columns-recalled column (c ∷ cols) (v ∷ vals) =
      ground (arith, from_value-recalled (trim_space v), from_columns-recalled column cols vals)

  from_lists-recalled :
      (rel : Relation) (cols vals : List Bytes)
      → from_lists rel (map recalled_param ps) cols vals ≡ moved move (from_lists rel ps cols vals)
  unfolding from_lists moved
  from_lists-recalled rel cols vals =
      ground (arith, from_columns-recalled rel.tenant_column cols vals)

  from_values-recalled :
      (rel : Relation) (cols : Bytes) (c : Option Cursor)
      → from_values rel (map recalled_param ps) cols c
        ≡ Option.map (moved move) (from_values rel ps cols c)
  unfolding from_values
  from_values-recalled rel cols none = refl
  from_values-recalled rel cols (some c) =
      map-moved move _ _ (balanced_paren_span (b'(' ∷ c.rest)) λ span.
        from_lists-recalled rel (split_top_level 0 0 [] cols) (split_top_level 0 0 [] span.0)

  from_columns_span-recalled :
      (rel : Relation) (o : Option (Bytes × Bytes))
      → from_columns_span rel (map recalled_param ps) o
        ≡ Option.map (moved move) (from_columns_span rel ps o)
  unfolding from_columns_span
  from_columns_span-recalled rel none = refl
  from_columns_span-recalled rel (some span) =
      from_values-recalled rel span.0 (find values_prefix none span.1)

  from_relation-recalled :
      (rest : Bytes) (o : Option Relation)
      → from_relation (map recalled_param ps) rest o
        ≡ Option.map (moved move) (from_relation ps rest o)
  unfolding from_relation
  from_relation-recalled rest none = refl
  from_relation-recalled rest (some rel) =
      from_columns_span-recalled rel (balanced_paren_span (b'(' ∷ rest))

  from_insert_match-recalled :
      (rels : List Relation) (o : Option Cursor)
      → from_insert_match rels (map recalled_param ps) o
        ≡ Option.map (moved move) (from_insert_match rels ps o)
  unfolding from_insert_match
  from_insert_match-recalled rels none = refl
  from_insert_match-recalled rels (some c) =
      from_relation-recalled c.rest (scoped_named (to_lower (group_of 1 c.groups)) rels)

  merge_value-moved :
      (seen : Option Bytes) (v : Bytes)
      → merge_value (Option.map move seen) (move v) ≡ moved_on move (merge_value seen v)
  unfolding merge_value moved_on
  merge_value-moved none v = refl
  merge_value-moved (some w) v = ground (arith, keeps v w)

  step-moved :
      (seen : Option Bytes) (a : Attribution)
      → step (Option.map move seen) (moved move a) ≡ moved_on move (step seen a)
  unfolding moved moved_on
  step-moved seen (attr_resolved t) = merge_value-moved seen t
  step-moved none attr_no_predicate = refl
  step-moved (some w) attr_no_predicate = refl
  step-moved seen attr_unattributable = refl

  compared-recalled :
      (seen : Option Bytes) (rhs : Bytes)
      → compared (map recalled_param ps) (Option.map move seen) rhs
        ≡ moved_on move (compared ps seen rhs)
  unfolding compared
  compared-recalled seen rhs =
      ap (step (Option.map move seen)) (from_value-recalled rhs)
      ∙ step-moved seen (from_value ps rhs)

  compared_all-recalled :
      (seen : Option Bytes) (ms : List (List (ℕ × Bytes)))
      → compared_all (map recalled_param ps) (Option.map move seen) ms
        ≡ moved_on move (compared_all ps seen ms)
  unfolding compared_all moved_on
  compared_all-recalled none [] = refl
  compared_all-recalled (some w) [] = refl
  compared_all-recalled seen (m ∷ ms) = elim (compared-split (compared ps seen (group_of 1 m))) [
    | inl (u, e) ↦ ground (arith, compared-recalled seen (group_of 1 m), e)
    | inr (now, e) ↦
        ground (arith, compared-recalled seen (group_of 1 m), e, compared_all-recalled now ms)
  ]

  compared_relations-recalled :
      (sql : Bytes) (seen : Option Bytes) (rs : List Relation)
      → compared_relations sql (map recalled_param ps) (Option.map move seen) rs
        ≡ moved_on move (compared_relations sql ps seen rs)
  unfolding compared_relations moved_on
  compared_relations-recalled sql none [] = refl
  compared_relations-recalled sql (some w) [] = refl
  compared_relations-recalled sql seen (r ∷ rs) =
      let found = find_all (tenant_compare_regex r.tenant_column) (length sql) none sql in
      elim (compared-split (compared_all ps seen found)) [
        | inl (u, e) ↦ ground (arith, compared_all-recalled seen found, e)
        | inr (now, e) ↦
            ground
              (arith, compared_all-recalled seen found, e, compared_relations-recalled sql now rs)
      ]

  concluded-moved :
      (x : Unit {0} ⊎ Option Bytes) → concluded (moved_on move x) ≡ moved move (concluded x)
  unfolding concluded moved moved_on
  concluded-moved (inl u) = refl
  concluded-moved (inr none) = refl
  concluded-moved (inr (some v)) = refl

  from_scoped-recalled :
      (sql : Bytes) (rs : List Relation)
      → from_scoped sql (map recalled_param ps) rs ≡ moved move (from_scoped sql ps rs)
  unfolding from_scoped moved
  from_scoped-recalled sql [] = refl
  from_scoped-recalled sql (r ∷ rs) =
      ap concluded (compared_relations-recalled sql none (r ∷ rs))
      ∙ concluded-moved (compared_relations sql ps none (r ∷ rs))

  or_where-moved :
      (o : Option Attribution) (a : Attribution)
      → or_where (Option.map (moved move) o) (moved move a) ≡ moved move (or_where o a)
  or_where-moved none a = refl
  or_where-moved (some b) a = refl

  found-recalled :
      (rels : List Relation) (sql : Bytes)
      → or_where
          (extract_from_insert sql rels (map recalled_param ps))
          (from_scoped sql (map recalled_param ps) (named_scoped (referenced_tables sql) rels))
        ≡ moved move (
            or_where
              (extract_from_insert sql rels ps)
              (from_scoped sql ps (named_scoped (referenced_tables sql) rels)))
  unfolding extract_from_insert
  found-recalled rels sql =
      rw
        (
          from_insert_match-recalled rels (find insert_prefix none sql),
          from_scoped-recalled sql (named_scoped (referenced_tables sql) rels),
        )
        (or_where-moved (from_insert_match rels ps (find insert_prefix none sql))
          (from_scoped sql ps (named_scoped (referenced_tables sql) rels)))

pub extract_tenant-moved :
    (move : Bytes → Bytes)
    → ((a b : Bytes) → equal (move a) (move b) ≡ equal a b)
    → (ps : List Param) → (all_decoded ps ≡ true → AllMoved move ps)
    → (rels : List Relation) (sql : Bytes)
    → extract_tenant rels sql (map recalled_param ps) ≡ moved move (extract_tenant rels sql ps)
unfolding extract_tenant moved
extract_tenant-moved move keeps ps texts rels sql = elim (Bool-cases (all_decoded ps)) [
  | inl e ↦
      ground (arith, all_decoded-recalled ps, found-recalled move keeps ps (texts e) rels sql, e)
  | inr e ↦ ground (arith, all_decoded-recalled ps, e)
]
