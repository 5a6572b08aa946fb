-- ===== src/Schema/Tests.antt =====
-- Concrete runs of internal/schema.
use tenantguard.Schema
use tenantguard.Base.{List, Option, [], refl, some, true, ◌∷◌, ◌≡◌}
use tenantguard.Base.Bytes.{Bytes, codes, equal}
use tenantguard.Base.Text.{trim_space}
use tenantguard.Differ.Rows.{sort}
use tenantguard.Schema.{
  Class, Relation, is_candidate, other_class, scoped, unclassifiable, unscoped,
}
use tenantguard.Schema.Array.{print_array, scan_array, scan_array-print_array, split_last}
use tenantguard.Schema.Infer.{
  CatalogRow, DescribesAll, infer, infer-DescribesAll, null_value, text_value,
}

-- An element with a comma, a quote and a backslash.
abbrev odd_columns : List Bytes
odd_columns = (b'a' ∷ b',' ∷ 34 ∷ 92 ∷ []) ∷ [] ∷ codes "id" ∷ []

-- Plain names are not in quotes.
plain_test : print_array (codes "id" ∷ codes "tenant_id" ∷ []) ≡ codes "{id,tenant_id}"
unfolding print_array codes equal
plain_test = refl

scan_array-print_array_example : scan_array (print_array odd_columns) ≡ some odd_columns
scan_array-print_array_example = scan_array-print_array odd_columns

abbrev relation : Class → Relation
relation class = record {
  schema = codes "public";
  name = codes "orders";
  kind = codes "BASE TABLE";
  class = class;
  tenant_column = [];
  candidates = [];
  fixture = [];
}

abbrev policy : List Relation
policy = relation scoped ∷ relation unscoped ∷ relation (other_class (codes "maybe")) ∷ []

abbrev catalog : List (Option CatalogRow)
catalog =
    some (record {
      schema = codes "public";
      name = codes "orders";
      kind = codes "BASE TABLE";
      cols = text_value (codes "{id,tenant_id}");
    })
    ∷ some (record {
      schema = codes "public";
      name = codes "totals";
      kind = codes "MATERIALIZED VIEW";
      cols = null_value;
    })
    ∷ []

abbrev inferred : List Relation
inferred =
    record (relation scoped) {
      tenant_column = codes "tenant_id";
      candidates = codes "tenant_id" ∷ [];
    }
    ∷ record (relation unclassifiable) { name = codes "totals"; kind = codes "MATERIALIZED VIEW" }
    ∷ []

infer_test : infer (some (catalog, true)) ≡ some inferred
unfolding infer codes trim_space split_last equal Schema.candidates sort is_candidate
infer_test = refl

infer-DescribesAll_example : DescribesAll catalog inferred
infer-DescribesAll_example = infer-DescribesAll catalog true inferred infer_test
