-- ===== src/Guardrail/Tests.antt =====
-- A guarded database that counts the calls which reach it.
use tenantguard.Base.{List, [], inl, inr, refl, ℕ, ◌+◌, ◌∷◌, ◌≡◌}
use tenantguard.Base.Bytes.{Bytes, codes, equal, starts_with}
use tenantguard.Differ.Extract.{alias_stop_words}
use tenantguard.Differ.Single.{check_tenant}
use tenantguard.Guardrail.{Arg, arg_text, check, checked, err_unscoped_query, guarded}
use tenantguard.Guardrail.Allowed.{Guarded, guarded-Guarded}
use tenantguard.Schema.{Relation, is_in, scoped}

abbrev counting : ℕ → Bytes → List Arg → ℕ × ℕ
counting n query args = (n, n + 1)

abbrev orders : Relation
orders = record {
  schema = codes "public";
  name = codes "orders";
  kind = codes "BASE TABLE";
  class = scoped;
  tenant_column = codes "tenant_id";
  candidates = codes "tenant_id" ∷ [];
  fixture = [];
}

abbrev scoped_query : Bytes
scoped_query = codes "SELECT 1 FROM orders WHERE tenant_id = $1"

guarded-Guarded_example :
    Guarded counting
      (orders ∷ [])
      (codes "t1")
      0
      scoped_query
      (arg_text (codes "t1") ∷ [])
      (guarded counting (orders ∷ []) (codes "t1") 0 scoped_query (arg_text (codes "t1") ∷ []))
guarded-Guarded_example =
    guarded-Guarded counting (orders ∷ []) (codes "t1") 0 scoped_query (arg_text (codes "t1") ∷ [])

-- It runs, and the count goes up.
runs_test :
    guarded counting (orders ∷ []) (codes "t1") 0 scoped_query (arg_text (codes "t1") ∷ [])
    ≡ (inr 0, 1)
unfolding guarded check checked check_tenant equal codes is_in starts_with alias_stop_words
runs_test = refl

-- Refused, for it mentions the scoped relation and claims no tenant.
unscoped_test :
    guarded counting (orders ∷ []) (codes "t1") 0 (codes "SELECT 1 FROM orders") []
    ≡ (inl err_unscoped_query, 0)
unfolding guarded check checked check_tenant equal codes is_in starts_with alias_stop_words
unscoped_test = refl
