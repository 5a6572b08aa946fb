-- ===== src/Schema/Infer.antt =====
-- internal/schema/schema.go: `Infer`, on what the catalog's query returns.
use tenantguard.Base.{
  Bool, List, Option, Option-cases, [], false, inl, inr, length, none, refl, some, subst, true, ◌↔◌,
  ◌∷◌, ◌≡◌,
}
use tenantguard.Base.Bytes.{Bytes}
use tenantguard.Schema.{Classification, Relation, classify, is_in, scoped, select_candidates, views}
use tenantguard.Schema.Array.{scan_array}
use tenantguard.Schema.Tenancy.{classify-scoped_iff}

-- The value of the array of columns that `Scan` gets.
pub data Source : Type 0 where
  text_value : Bytes → Source
  null_value other_value : Source

-- `pqStringArray.Scan`
unfoldable pub scan_source : Source → Option (List Bytes)
unfolding scan_array
scan_source (text_value s) = scan_array s
scan_source null_value = some []
scan_source other_value = none

pub record CatalogRow : Type 0 where
  pub schema : Bytes
  pub name : Bytes
  pub kind : Bytes
  pub cols : Source

abbrev pub classified_as : CatalogRow → Classification → Relation
classified_as row (class, tenant_column, candidates) = record {
  schema = row.schema;
  name = row.name;
  kind = row.kind;
  class = class;
  tenant_column = tenant_column;
  candidates = candidates;
  fixture = [];
}

abbrev pub relation_of : CatalogRow → Option (List Bytes) → Option Relation
relation_of row none = none
relation_of row (some cols) = some (classified_as row (classify row.kind cols))

abbrev pub put_first : Option Relation → Option (List Relation) → Option (List Relation)
put_first none rest = none
put_first (some r) none = none
put_first (some r) (some rs) = some (r ∷ rs)

-- The loop over the rows; `none` for a row that cannot be scanned.
unfoldable pub infer_rows : List (Option CatalogRow) → Option (List Relation)
unfolding classify scan_source
infer_rows [] = some []
infer_rows (none ∷ rows) = none
infer_rows (some row ∷ rows) = put_first (relation_of row (scan_source row.cols)) (infer_rows rows)

-- `rows.Err` after the loop
abbrev pub iterated : Bool → Option (List Relation) → Option (List Relation)
iterated complete none = none
iterated false (some rels) = none
iterated true (some rels) = some rels

-- `Infer`: the rows, or an error of the query, and whether the iteration ended well.
unfoldable pub infer : Option (List (Option CatalogRow) × Bool) → Option (List Relation)
unfolding infer_rows
infer none = none
infer (some (rows, complete)) = iterated complete (infer_rows rows)

-- A relation of the policy for a row of the catalog.
pub record Describes (row : CatalogRow) (r : Relation) : Type 0 where
  pub cols : List Bytes
  pub scanned : scan_source row.cols ≡ some cols
  pub same_name : (r.schema ≡ row.schema) × (r.name ≡ row.name) × (r.kind ≡ row.kind)
  pub no_fixture : r.fixture ≡ []
  pub scoped_iff :
      (r.class ≡ scoped) ↔ ((is_in row.kind views ≡ false) × (length (select_candidates cols) ≡ 1))

abbrev pub DescribesAll : List (Option CatalogRow) → List Relation → Type 0
DescribesAll [] [] = Unit
DescribesAll [] (r ∷ rs) = ⊥
DescribesAll (none ∷ rows) rs = ⊥
DescribesAll (some row ∷ rows) [] = ⊥
DescribesAll (some row ∷ rows) (r ∷ rs) = Describes row r × DescribesAll rows rs

classified-Describes :
    (row : CatalogRow) (cols : List Bytes)
    → scan_source row.cols ≡ some cols
    → Describes row (classified_as row (classify row.kind cols))
classified-Describes row cols e = record {
  cols = cols;
  scanned = e;
  same_name = (refl, refl, refl);
  no_fixture = refl;
  scoped_iff = classify-scoped_iff row.kind cols;
}

infer_rows-DescribesAll :
    (rows : List (Option CatalogRow)) (rels : List Relation)
    → infer_rows rows ≡ some rels
    → DescribesAll rows rels
unfolding infer_rows
infer_rows-DescribesAll [] [] e = tt
infer_rows-DescribesAll [] (r ∷ rs) e = cc
infer_rows-DescribesAll (none ∷ rows) rels e = cc
infer_rows-DescribesAll (some row ∷ rows) rels e = elim (Option-cases (scan_source row.cols)) [
  | inl none_read ↦ let h = rw none_read at e in cc
  | inr (cols, read) ↦ elim (Option-cases (infer_rows rows)) [
    | inl none_left ↦ let h = rw (read, none_left) at e in cc
    | inr (rest, left) ↦
        let h : some (classified_as row (classify row.kind cols) ∷ rest) ≡ some rels =
          rw (read, left) at e in
        let same : classified_as row (classify row.kind cols) ∷ rest ≡ rels = cc in
        subst (DescribesAll (some row ∷ rows)) same
          (classified-Describes row cols read, infer_rows-DescribesAll rows rest left)
  ]
]

iterated-some :
    (complete : Bool) (o : Option (List Relation)) (rels : List Relation)
    → iterated complete o ≡ some rels
    → o ≡ some rels
iterated-some complete none rels e = e
iterated-some false (some found) rels e = cc
iterated-some true (some found) rels e = e

-- Where Infer gives a policy, it has one relation for each row of the catalog, in order, with the row's
-- names and kind and no fixture, and a relation is scoped exactly when it is no view, materialized view
-- or foreign table and exactly one of the columns that the row lists has the name of a tenant column.
pub infer-DescribesAll :
    (rows : List (Option CatalogRow)) (complete : Bool) (rels : List Relation)
    → infer (some (rows, complete)) ≡ some rels
    → DescribesAll rows rels
unfolding infer
infer-DescribesAll rows complete rels e =
    infer_rows-DescribesAll rows rels (iterated-some complete (infer_rows rows) rels e)
