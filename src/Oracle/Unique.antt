-- ===== src/Oracle/Unique.antt =====
-- internal/oracle/probe.go: the two canary rows do not collide in a unique index.
use tenantguard.Base.{
  Bool-cases, List, [], arith, false, get_elem?, inl, inr, length, refl, some, suc, sym, true, ℕ,
  ◌*◌, ◌++◌, ◌+◌, ◌<◌, ◌||◌, ◌∙◌, ◌∷◌, ◌≡◌, ◌≢◌,
}
use tenantguard.Base.Assoc.{lookup}
use tenantguard.Base.Bytes.{Bytes, equal, equal_iff}
use tenantguard.Differ.Rerun.{Answer, done}
use tenantguard.Differ.Write.{quote_ident}
use tenantguard.Oracle.Distinct.{canary_literal-apart, literal_of-apart, sample_value_flat}
use tenantguard.Oracle.Inserts.{copied, first_index, second_index}
use tenantguard.Oracle.Literal.{
  Sample, base_type, canary_a, canary_b, literal_of, sample_base, samples,
}
use tenantguard.Oracle.Plan.{
  Column, Planning, RowPlan, add_expr, choose, column_sample_value, give, need_from, plan_row,
}
use tenantguard.Oracle.Rows.{choose-out, is_left_out, mixed, split, true-ne-false}
use tenantguard.Schema.{is_in}

-- A type that `sampleValue` has a case for, and no array type.
abbrev pub IsSampled : Bytes → Type 0
IsSampled t = ((base_type t).1 ≡ false) × (s : Sample) × (lookup (base_type t).0 samples ≡ some s)

column_sample_value-sampled :
    (labels : Bytes → Answer (List Bytes)) (t : Bytes) (j : ℕ) (m : IsSampled t)
    → column_sample_value labels t j ≡ done (some (literal_of m.1 (base_type t).0 j))
unfolding column_sample_value sample_base
column_sample_value-sampled labels t j m =
    let found : sample_base (base_type t).0 j ≡ some (literal_of m.1 (base_type t).0 j) =
      rw (m.2) refl in
    ground (arith, sample_value_flat t j m.0, found)

-- A column of a unique index, with two rows' values that the index tells apart: the tenant column, if
-- the index has it, or a column of a type that `sampleValue` has a case for.
pub record IsKey (tenant : Bytes) (set : List Bytes) (c : Column) : Type 0 where
  pub inside : is_in c.name set ≡ true
  pub tenant_column : is_in tenant set ≡ true → c.name ≡ tenant
  pub sampled_column : is_in tenant set ≡ false → IsSampled c.type

is_in-append : (x : Bytes) (xs ys : List Bytes) → is_in x (xs ++ ys) ≡ (is_in x xs || is_in x ys)
unfolding is_in
is_in-append x [] ys = refl
is_in-append x (y ∷ xs) ys = ground (arith, is_in-append x xs ys)

is_in-need :
    (tenant name : Bytes) (before after : List (List Bytes)) (set : List Bytes)
    → is_in tenant set ≡ false
    → is_in name set ≡ true
    → is_in name (need_from tenant (before ++ set ∷ after)) ≡ true
unfolding need_from
is_in-need tenant name [] after set h k =
    ground (arith, is_in-append name set (need_from tenant after))
is_in-need tenant name (s ∷ before) after set h k = ground (
  arith,
  is_in-need tenant name before after set h k,
  is_in-append name s (need_from tenant (before ++ set ∷ after)),
)

module _ (p : Planning) (c : Column) (i : ℕ) (small : 2 * i + 1 < 1000000000) where
  tenant_choices-apart :
      (x y : Bytes)
      → c.name ≡ p.tenant
      → choose p (copied canary_a first_index) i c ≡ done (give x)
      → choose p (copied canary_b second_index) i c ≡ done (give y)
      → x ≢ y
  unfolding choose
  tenant_choices-apart x y e h k =
      ground (arith, equal_iff c.name p.tenant, canary_literal-apart c.type x y)

  sampled_choices-apart :
      (x y : Bytes)
      → equal c.name p.tenant ≡ false
      → is_in c.name p.need ≡ true
      → IsSampled c.type
      → choose p (copied canary_a first_index) i c ≡ done (give x)
      → choose p (copied canary_b second_index) i c ≡ done (give y)
      → x ≢ y
  unfolding choose
  sampled_choices-apart x y e n m h k = ground (
    arith,
    column_sample_value-sampled p.labels c.type (first_index i) m,
    column_sample_value-sampled p.labels c.type (second_index i) m,
    literal_of-apart i small m.1 (base_type c.type).0,
  )

  choices-apart :
      (before after : List (List Bytes)) (set : List Bytes) (x y : Bytes)
      → p.need ≡ need_from p.tenant (before ++ set ∷ after)
      → IsKey p.tenant set c
      → choose p (copied canary_a first_index) i c ≡ done (give x)
      → choose p (copied canary_b second_index) i c ≡ done (give y)
      → x ≢ y
  choices-apart before after set x y e key h k = elim (Bool-cases (is_in p.tenant set)) [
    | inl has ↦ tenant_choices-apart x y (key.tenant_column has) h k
    | inr lacks ↦ elim (Bool-cases (equal c.name p.tenant)) [
      | inl same ↦ tenant_choices-apart x y ((equal_iff c.name p.tenant).0 same) h k
      | inr differs ↦
          let needed : is_in c.name p.need ≡ true =
            rw e (is_in-need p.tenant c.name before after set lacks key.inside) in
          sampled_choices-apart x y differs needed (key.sampled_column lacks) h k
    ]
  ]

-- Both rows have an expression for the column, in the same place, and not the same one.
pub record Differ (c : Column) (a b : RowPlan) : Type 0 where
  pub place : ℕ
  pub first : Bytes
  pub second : Bytes
  pub first_named : get_elem? a.insert_cols place ≡ some (quote_ident c.name)
  pub second_named : get_elem? b.insert_cols place ≡ some (quote_ident c.name)
  pub first_there : get_elem? a.exprs place ≡ some first
  pub second_there : get_elem? b.exprs place ≡ some second
  pub apart : first ≢ second

Differ-add :
    (c : Column) (col e e' : Bytes) (a b : RowPlan)
    → Differ c a b
    → Differ c (add_expr col e a) (add_expr col e' b)
Differ-add c col e e' a b d = record {
  place = suc d.place;
  first = d.first;
  second = d.second;
  first_named = d.first_named;
  second_named = d.second_named;
  first_there = d.first_there;
  second_there = d.second_there;
  apart = d.apart;
}

Differ-head :
    (c : Column) (x y : Bytes) (a b a' b' : RowPlan)
    → x ≢ y
    → a ≡ add_expr c.name x a'
    → b ≡ add_expr c.name y b'
    → Differ c a b
Differ-head c x y a b a' b' n p q = record {
  place = 0;
  first = x;
  second = y;
  first_named = rw p;
  second_named = rw q;
  first_there = rw p;
  second_there = rw q;
  apart = n;
}

Differ-tail :
    (c : Column) (col x y : Bytes) (a b a' b' : RowPlan)
    → Differ c a' b'
    → a ≡ add_expr col x a'
    → b ≡ add_expr col y b'
    → Differ c a b
Differ-tail c col x y a b a' b' d p q = rw (p, q) (Differ-add c col x y a' b' d)

module _ (p : Planning) (c : Column) (before after : List (List Bytes)) (set : List Bytes)
    (e : p.need ≡ need_from p.tenant (before ++ set ∷ after)) (key : IsKey p.tenant set c)
    (kept : is_left_out p c ≡ false) where
  -- `c` is a column that the database does not fill in itself, and one by which a unique index tells
  -- two rows apart: the tenant column if the index has it, else a column of a type that sampleValue has
  -- a case for. Where the plans of the two sampled rows treat the columns that need values of their
  -- own, both have an expression for `c` in the same place, and the expressions differ.
  pub plan_row-Differ :
      (i : ℕ) (cols ds : List Column) (a b : RowPlan)
      → 2 * (i + length cols) + 1 < 1000000000
      → plan_row p (copied canary_a first_index) i (cols ++ c ∷ ds) ≡ done (inr a)
      → plan_row p (copied canary_b second_index) i (cols ++ c ∷ ds) ≡ done (inr b)
      → Differ c a b
  plan_row-Differ i [] ds a b small h k = elim (split p canary_a first_index i c ds a h) [
    | inl (out, _) ↦ absurd (true-ne-false (sym (choose-out p canary_a first_index i c out) ∙ kept))
    | inr (x, a', ch, _, eq) ↦ elim (split p canary_b second_index i c ds b k) [
      | inl (out, _) ↦
          absurd (true-ne-false (sym (choose-out p canary_b second_index i c out) ∙ kept))
      | inr (y, b', ch', _, eq') ↦
          Differ-head c x y a b a' b'
            (choices-apart p c i (omega arith) before after set x y e key ch ch') eq eq'
    ]
  ]
  plan_row-Differ i (d ∷ cols) ds a b small h k =
      elim (split p canary_a first_index i d (cols ++ c ∷ ds) a h) [
        | inl (out, rest) ↦ elim (split p canary_b second_index i d (cols ++ c ∷ ds) b k) [
          | inl (_, rest') ↦ plan_row-Differ (i + 1) cols ds a b (omega arith) rest rest'
          | inr (y, _, ch, _, _) ↦
              absurd (mixed p canary_a canary_b first_index second_index i d y out ch)
        ]
        | inr (x, a', ch, rest, eq) ↦
            elim (split p canary_b second_index i d (cols ++ c ∷ ds) b k) [
              | inl (out, _) ↦
                  absurd (mixed p canary_b canary_a second_index first_index i d x out ch)
              | inr (y, b', _, rest', eq') ↦
                  Differ-tail c d.name x y a b a' b'
                    (plan_row-Differ (i + 1) cols ds a' b' (omega arith) rest rest') eq eq'
            ]
      ]
