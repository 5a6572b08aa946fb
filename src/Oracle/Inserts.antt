-- ===== src/Oracle/Inserts.antt =====
-- internal/oracle/probe.go: the texts of the INSERTs of both canary rows, by their plans.
use tenantguard.Base.{
  List, Option, [], if◌then◌else◌, inl, inr, none, not, some, ℕ, ◌*◌, ◌++◌, ◌+◌, ◌∷◌, ◌⊎◌,
}
use tenantguard.Base.Assoc.{Assoc, lookup}
use tenantguard.Base.Bytes.{Bytes, codes}
use tenantguard.Differ.Rerun.{Answer, done, failed}
use tenantguard.Differ.Write.{quote_ident}
use tenantguard.Oracle.Plan.{Column, Row, RowPlan}
use tenantguard.Schema.{Relation}

-- `qualified` of oracle.go
unfoldable pub sql_name : Relation → Bytes
unfolding quote_ident
sql_name r = quote_ident r.schema ++ b'.' ∷ quote_ident r.name

-- strings.Join
unfoldable pub join : Bytes → List Bytes → Bytes
join sep [] = []
join sep (x ∷ []) = x
join sep (x ∷ y ∷ ys) = x ++ sep ++ join sep (y ∷ ys)

-- The column indices of the two rows.
abbrev pub first_index : ℕ → ℕ
first_index i = 2 * i

abbrev pub second_index : ℕ → ℕ
second_index i = 2 * i + 1

-- The two rows of `seedFromSample`, which copy a column by its name.
abbrev pub copied : Bytes → (ℕ → ℕ) → Row
copied canary idx = record {
  canary = canary;
  col_idx = idx;
  borrow = λ c. done (some (quote_ident c.name));
}

abbrev pub ctid_literal : Bytes → Bytes
ctid_literal ctid = b'\'' ∷ ctid ++ codes "'::tid"

abbrev pub comma : Bytes
comma = codes ", "

unfoldable pub insert_copies : Relation → RowPlan → RowPlan → Bytes → Bytes → Bytes
unfolding sql_name join
insert_copies r a b ctid_a ctid_b =
    codes "INSERT INTO "
    ++ sql_name r
    ++ codes " ("
    ++ join comma a.insert_cols
    ++ codes ") SELECT "
    ++ join comma a.exprs
    ++ codes " FROM "
    ++ sql_name r
    ++ codes " WHERE ctid = "
    ++ ctid_literal ctid_a
    ++ codes " UNION ALL SELECT "
    ++ join comma b.exprs
    ++ codes " FROM "
    ++ sql_name r
    ++ codes " WHERE ctid = "
    ++ ctid_literal ctid_b

unfoldable pub insert_values : Relation → RowPlan → Bytes
unfolding sql_name join
insert_values r plan =
    codes "INSERT INTO "
    ++ sql_name r
    ++ codes " ("
    ++ join comma plan.insert_cols
    ++ codes ") VALUES ("
    ++ join comma plan.exprs
    ++ codes ")"

-- The plans of both rows, or the first error or reason.
abbrev pub both_plans :
    Answer (Bytes ⊎ RowPlan) → Answer (Bytes ⊎ RowPlan) → Answer (Bytes ⊎ (RowPlan × RowPlan))
both_plans (failed f) b = failed f
both_plans (done (inl reason)) b = done (inl reason)
both_plans (done (inr a)) (failed f) = failed f
both_plans (done (inr a)) (done (inl reason)) = done (inl reason)
both_plans (done (inr a)) (done (inr b)) = done (inr (a, b))

-- `borrow` of `seedFromFixture`, in a row of the fixture.
unfoldable pub from_fixture : (Bytes → Bytes) → Assoc Bytes → Column → Answer (Option Bytes)
from_fixture quoted fx c = elim (lookup c.name fx) [
  | some v ↦ done (some v)
  | none ↦
      if not c.not_null
      then done none
      else failed (record {
        text = codes "fixture missing required column " ++ quoted c.name;
        server = none;
      })
]

abbrev pub fixture_row : (Bytes → Bytes) → Bytes → (ℕ → ℕ) → Assoc Bytes → Row
fixture_row quoted canary idx fx = record {
  canary = canary;
  col_idx = idx;
  borrow = from_fixture quoted fx;
}
