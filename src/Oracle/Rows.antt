-- ===== src/Oracle/Rows.antt =====
-- internal/oracle/probe.go: what the plans of a relation's two canary rows have to do with each other.
use tenantguard.Base.{
  Bool, List, Option, [], arith, false, inl, inr, length, none, not, refl, some, sym, true, ℕ, ◌&&◌,
  ◌+◌, ◌||◌, ◌∙◌, ◌∷◌, ◌≡◌, ◌≢◌, ◌⊎◌,
}
use tenantguard.Base.Bytes.{Bytes, codes, equal}
use tenantguard.Differ.Rerun.{Answer, done, failed}
use tenantguard.Oracle.Inserts.{copied, first_index, second_index}
use tenantguard.Oracle.Literal.{canary_a, canary_b}
use tenantguard.Oracle.Plan.{
  Choice, Column, Planning, RowPlan, add_expr, choose, column_sample_value, enum_failed, give,
  given_or, leave_out, map_answer, plan_row, planned, refuse, unsupported_type,
}

pub true-ne-false : true ≢ false
true-ne-false h = cc

-- A plan from a column on, taken apart.
planned-inr :
    (c : Column) (ch : Answer Choice) (rest : Answer (Bytes ⊎ RowPlan)) (plan : RowPlan)
    → planned c ch rest ≡ done (inr plan)
    → ((ch ≡ done leave_out) × (rest ≡ done (inr plan)))
      ⊎ ((expr : Bytes) × (p : RowPlan) × (ch ≡ done (give expr))
          × (rest ≡ done (inr p))
          × (plan ≡ add_expr c.name expr p))
planned-inr c (failed f) rest plan h = cc
planned-inr c (done (refuse reason)) rest plan h = cc
planned-inr c (done leave_out) rest plan h = inl (refl, h)
planned-inr c (done (give e)) (failed f) plan h = cc
planned-inr c (done (give e)) (done (inl reason)) plan h = cc
planned-inr c (done (give e)) (done (inr p)) plan h = inr (e, p, refl, refl, cc)

-- The columns that the database itself gives values, left out of both rows.
abbrev pub is_left_out : Planning → Column → Bool
is_left_out p c = not (equal c.name p.tenant) && (c.is_identity || c.has_default)

module _ (p : Planning) where
  given_or-ne :
      (reason : Bytes) (a : Answer (Option Bytes))
      → map_answer (given_or (refuse reason)) a ≢ done leave_out
  given_or-ne reason (failed f) h = cc
  given_or-ne reason (done none) h = cc
  given_or-ne reason (done (some e)) h = cc

  enum_failed-ne :
      (c : Column) (a : Answer Choice)
      → a ≢ done leave_out
      → enum_failed p.quoted c a ≢ done leave_out
  enum_failed-ne c (failed f) h k = cc
  enum_failed-ne c (done x) h k = h (k)

  pub choose-out :
      (canary : Bytes) (idx : ℕ → ℕ) (i : ℕ) (c : Column)
      → choose p (copied canary idx) i c ≡ done leave_out
      → is_left_out p c ≡ true
  unfolding choose
  choose-out canary idx i c h = ground (
    arith,
    given_or-ne (unsupported_type p.quoted (codes "column ") c [])
        (column_sample_value p.labels c.type (idx i)),
    enum_failed-ne c (
        map_answer (given_or (refuse (unsupported_type p.quoted (codes "column ") c [])))
          (column_sample_value p.labels c.type (idx i))),
  )

  pub choose-given :
      (canary : Bytes) (idx : ℕ → ℕ) (i : ℕ) (c : Column) (e : Bytes)
      → choose p (copied canary idx) i c ≡ done (give e)
      → is_left_out p c ≡ false
  unfolding choose
  choose-given canary idx i c e h = ground arith

  pub mixed :
      (canary other : Bytes) (idx other_idx : ℕ → ℕ) (i : ℕ) (c : Column) (e : Bytes)
      → choose p (copied canary idx) i c ≡ done leave_out
      → choose p (copied other other_idx) i c ≢ done (give e)
  mixed canary other idx other_idx i c e h k =
      true-ne-false (sym (choose-out canary idx i c h) ∙ choose-given other other_idx i c e k)

  pub split :
      (canary : Bytes) (idx : ℕ → ℕ) (i : ℕ) (c : Column) (cols : List Column) (plan : RowPlan)
      → plan_row p (copied canary idx) i (c ∷ cols) ≡ done (inr plan)
      → ((choose p (copied canary idx) i c ≡ done leave_out)
          × (plan_row p (copied canary idx) (i + 1) cols ≡ done (inr plan)))
        ⊎ ((expr : Bytes) × (rest : RowPlan) × (choose p (copied canary idx) i c ≡ done (give expr))
            × (plan_row p (copied canary idx) (i + 1) cols ≡ done (inr rest))
            × (plan ≡ add_expr c.name expr rest))
  unfolding plan_row
  split canary idx i c cols plan h =
      planned-inr c (choose p (copied canary idx) i c) (plan_row p (copied canary idx) (i + 1) cols)
        plan h

  -- The two rows of a relation that is seeded from sampled rows have expressions for the same columns
  -- in the same order, one for each, so that the two halves of the UNION ALL line up.
  pub plan_row-aligned :
      (i : ℕ) (cols : List Column) (a b : RowPlan)
      → plan_row p (copied canary_a first_index) i cols ≡ done (inr a)
      → plan_row p (copied canary_b second_index) i cols ≡ done (inr b)
      → (a.insert_cols ≡ b.insert_cols)
        × (length a.exprs ≡ length a.insert_cols)
        × (length b.exprs ≡ length b.insert_cols)
  unfolding plan_row
  plan_row-aligned i [] a b h k = ground arith
  plan_row-aligned i (c ∷ cols) a b h k = elim (split canary_a first_index i c cols a h) [
    | inl (out, rest) ↦ elim (split canary_b second_index i c cols b k) [
      | inl (out', rest') ↦ plan_row-aligned (i + 1) cols a b rest rest'
      | inr (e, b', ch, rest', eq) ↦
          absurd (mixed canary_a canary_b first_index second_index i c e out ch)
    ]
    | inr (e, a', ch, rest, eq) ↦ elim (split canary_b second_index i c cols b k) [
      | inl (out, rest') ↦ absurd (mixed canary_b canary_a second_index first_index i c e out ch)
      | inr (e', b', ch', rest', eq') ↦
          ground (arith, eq, eq', plan_row-aligned (i + 1) cols a' b' rest rest')
    ]
  ]
