-- ===== src/Oracle/Plan.antt =====
-- internal/oracle/probe.go: which columns need values of their own, and the plan of one canary row.
use mathlib.Core.Option
use tenantguard.Base.{
  Bool, List, Option, [], get_elem?, if◌then◌else◌, inl, inr, length, map, none, some, ℕ, ◌%◌, ◌++◌,
  ◌+◌, ◌==◌, ◌||◌, ◌∷◌, ◌⊎◌,
}
use tenantguard.Base.Bytes.{Bytes, codes, equal}
use tenantguard.Differ.Rerun.{Answer, done, failed, wrap}
use tenantguard.Differ.Write.{quote_ident}
use tenantguard.Oracle.Literal.{base_type, canary_literal, sample_value}
use tenantguard.Schema.{is_in}

pub record Column : Type 0 where
  pub name : Bytes
  pub type : Bytes
  pub not_null : Bool
  pub has_default : Bool
  pub is_identity : Bool

-- The loop of `uniqueIndexColumnSets` over (index, column), with `order` and `sets` in one list.
unfoldable pub add_column : ℕ → Bytes → List (ℕ × List Bytes) → List (ℕ × List Bytes)
add_column idx col [] = (idx, col ∷ []) ∷ []
add_column idx col ((k, cols) ∷ sets) =
    let rest = add_column idx col sets in
    if k == idx then (k, cols ++ col ∷ []) ∷ sets else (k, cols) ∷ rest

unfoldable pub column_sets : List (ℕ × List Bytes) → List (ℕ × Bytes) → List (List Bytes)
unfolding add_column
column_sets sets [] = map (λ s. s.1) sets
column_sets sets ((idx, col) ∷ rows) = column_sets (add_column idx col sets) rows

-- The loop of `columnsNeedingSyntheticValues` over the sets; the map `need` is the list of its keys.
unfoldable pub need_from : Bytes → List (List Bytes) → List Bytes
unfolding is_in
need_from tenant [] = []
need_from tenant (set ∷ sets) =
    let rest = need_from tenant sets in if is_in tenant set then rest else set ++ rest

-- `columnsNeedingSyntheticValues`, from the rows that the catalog gives.
unfoldable pub columns_needing_synthetic_values :
    Bytes → Answer (List (ℕ × Bytes)) → Answer (List Bytes)
unfolding need_from column_sets
columns_needing_synthetic_values tenant (failed f) = failed f
columns_needing_synthetic_values tenant (done rows) = done (need_from tenant (column_sets [] rows))

-- strings.ReplaceAll(s, "'", "''")
unfoldable pub double_quotes : Bytes → Bytes
double_quotes [] = []
double_quotes (c ∷ cs) =
    let rest = double_quotes cs in if c == b'\'' then b'\'' ∷ b'\'' ∷ rest else c ∷ rest

-- `labels[i % len(labels)]`, none where there are none.
abbrev label_at : ℕ → List Bytes → Option Bytes
label_at i [] = none
label_at i (l ∷ ls) = get_elem? (l ∷ ls) (i % length (l ∷ ls))

abbrev enum_literal : Bytes → Bytes → Bytes
enum_literal pg_type label = b'\'' ∷ double_quotes label ++ codes "'::" ++ quote_ident pg_type

abbrev pub map_answer {ℓ κ} : {A : Type ℓ} {B : Type κ} → (A → B) → Answer A → Answer B
map_answer f (failed e) = failed e
map_answer f (done a) = done (f a)

-- `enumSampleValue`, on the labels that the catalog has for a type's name.
unfoldable pub enum_sample_value : (Bytes → Answer (List Bytes)) → Bytes → ℕ → Answer (Option Bytes)
unfolding base_type double_quotes quote_ident
enum_sample_value labels pg_type i =
    let (base, is_array) = base_type pg_type in
    if is_array
    then done none
    else map_answer (λ ls. Option.map (enum_literal pg_type) (label_at i ls)) (labels base)

-- `columnSampleValue`
unfoldable pub column_sample_value :
    (Bytes → Answer (List Bytes)) → Bytes → ℕ → Answer (Option Bytes)
unfolding sample_value enum_sample_value
column_sample_value labels pg_type i = elim (sample_value pg_type i) [
  | some v ↦ done (some v)
  | none ↦ enum_sample_value labels pg_type i
]

-- `rowPlan`
pub record RowPlan : Type 0 where
  pub insert_cols : List Bytes
  pub exprs : List Bytes

abbrev pub no_columns : RowPlan
no_columns = record { insert_cols = []; exprs = [] }

abbrev pub add_expr : Bytes → Bytes → RowPlan → RowPlan
add_expr col expr p = record {
  insert_cols = quote_ident col ∷ p.insert_cols;
  exprs = expr ∷ p.exprs;
}

-- What the switch of `planRow` does with a column: refuse the relation for a reason, leave the column
-- out, or give it an expression.
pub data Choice : Type 0 where
  refuse : Bytes → Choice
  leave_out : Choice
  give : Bytes → Choice

-- %q is strconv.Quote, a parameter.
abbrev pub unsupported_type : (Bytes → Bytes) → Bytes → Column → Bytes → Bytes
unsupported_type quoted prefix c suffix =
    prefix ++ quoted c.name ++ codes " has unsupported type " ++ quoted c.type ++ suffix

abbrev pub given_or : Choice → Option Bytes → Choice
given_or otherwise none = otherwise
given_or otherwise (some expr) = give expr

-- The errors of an enum's lookup are wrapped, those of `borrowExpr` are not.
abbrev pub enum_failed : (Bytes → Bytes) → Column → Answer Choice → Answer Choice
enum_failed quoted c (failed f) =
    failed (wrap (codes "column " ++ quoted c.name ++ codes ": enum lookup failed: ") f)
enum_failed quoted c (done x) = done x

-- The arguments of `planRow` that the two canary rows share: the labels of enums, strconv.Quote, the
-- name of the tenant column, and `needSynthetic`.
pub record Planning : Type 0 where
  pub labels : Bytes → Answer (List Bytes)
  pub quoted : Bytes → Bytes
  pub tenant : Bytes
  pub need : List Bytes

-- Those that are a row's own: the canary, `colIdx` and `borrowExpr`.
pub record Row : Type 0 where
  pub canary : Bytes
  pub col_idx : ℕ → ℕ
  pub borrow : Column → Answer (Option Bytes)

module _ (p : Planning) (row : Row) where
  -- The switch, at a column and its position.
  unfoldable pub choose : ℕ → Column → Answer Choice
  unfolding canary_literal column_sample_value is_in
  choose i c =
      if equal c.name p.tenant
      then done (
          given_or
            (refuse
              (unsupported_type p.quoted (codes "tenant column ") c (codes " for canary seeding")))
            (canary_literal c.type row.canary))
      else if c.is_identity || c.has_default
      then done leave_out
      else if is_in c.name p.need
      then enum_failed p.quoted c (
          map_answer (given_or (refuse (unsupported_type p.quoted (codes "column ") c [])))
            (column_sample_value p.labels c.type (row.col_idx i)))
      else map_answer (given_or leave_out) (row.borrow c)

-- A choice in front of what the rest of the loop returns: an error, a reason, or a plan.
abbrev pub planned : Column → Answer Choice → Answer (Bytes ⊎ RowPlan) → Answer (Bytes ⊎ RowPlan)
planned c (failed f) rest = failed f
planned c (done (refuse reason)) rest = done (inl reason)
planned c (done leave_out) rest = rest
planned c (done (give expr)) (failed f) = failed f
planned c (done (give expr)) (done (inl reason)) = done (inl reason)
planned c (done (give expr)) (done (inr plan)) = done (inr (add_expr c.name expr plan))

-- `planRow`, from a position on.
unfoldable pub plan_row : Planning → Row → ℕ → List Column → Answer (Bytes ⊎ RowPlan)
unfolding choose
plan_row p row i [] = done (inr no_columns)
plan_row p row i (c ∷ cols) = planned c (choose p row i c) (plan_row p row (i + 1) cols)
