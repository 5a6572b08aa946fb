-- ===== src/Differ/Verdict/Leaks.antt =====
-- What a verdict on a read means for the rows of the two re-executions.
use tenantguard.Base.{
  List, [], ap, append_assoc, arith, inl, inr, length, map, refl, some, sym, ℕ, ◌++◌, ◌<◌, ◌↔◌, ◌∙◌,
  ◌∷◌, ◌≡◌, ◌≢◌, ◌⊎◌,
}
use tenantguard.Base.Bytes.{Bytes, equal_iff}
use tenantguard.Differ.Rows.{Cell, collect_rows, join_cells, shortfall}
use tenantguard.Differ.Rows.Multiset.{count, shortfall_iff}
use tenantguard.Differ.Rows.Render.{AllPlain, join_cells-injective}
use tenantguard.Differ.Rows.Sort.{count-sort}
use tenantguard.Differ.Verdict.{compare_rows, leak, safe}

abbrev rendered : List (List Cell) → List Bytes
rendered rows = map join_cells rows

compare_rows_iff :
    (tenant : Bytes) (us rs : List Bytes)
    → ((compare_rows tenant us rs).verdict ≡ safe)
      ↔ ((shortfall us rs ≡ 0) × (length us ≡ length rs))
unfolding compare_rows
compare_rows_iff tenant us rs = ground arith

counts_sorted :
    (us rs : List (List Cell))
    → ((k : Bytes) → count k (collect_rows us) ≡ count k (collect_rows rs))
      ↔ ((k : Bytes) → count k (rendered us) ≡ count k (rendered rs))
unfolding collect_rows
counts_sorted us rs = (
  λ h k. sym (count-sort k (rendered us)) ∙ h k ∙ count-sort k (rendered rs),
  λ h k. count-sort k (rendered us) ∙ h k ∙ sym (count-sort k (rendered rs)),
)

-- A read is SAFE exactly when every rendered row occurs as often in the unrestricted result as in
-- the restricted one, whatever the order of the two.
pub safe_iff_same_rows :
    (tenant : Bytes) (us rs : List (List Cell))
    → ((compare_rows tenant (collect_rows us) (collect_rows rs)).verdict ≡ safe)
      ↔ ((k : Bytes) → count k (map join_cells us) ≡ count k (map join_cells rs))
safe_iff_same_rows tenant us rs =
    let agree = compare_rows_iff tenant (collect_rows us) (collect_rows rs) in
    let counted = shortfall_iff (collect_rows us) (collect_rows rs) in
    let sorted = counts_sorted us rs in
    (λ h. sorted.0 (counted.0 (agree.0 h)), λ h. agree.1 (counted.1 (sorted.1 h)))

safe_or_leak :
    (tenant : Bytes) (us rs : List Bytes)
    → (compare_rows tenant us rs).verdict ≢ safe
    → (compare_rows tenant us rs).verdict ≡ leak
unfolding compare_rows
safe_or_leak tenant us rs h = ground arith

-- Rows of one width whose values render without ambiguity.
abbrev pub AllRows : ℕ → List (List Cell) → Type 0
AllRows w [] = Unit
AllRows w (r ∷ rs) = (length r ≡ w) × AllPlain r × AllRows w rs

abbrev pub Absent : List Cell → List (List Cell) → Type 0
Absent row [] = Unit
Absent row (r ∷ rs) = (row ≢ r) × Absent row rs

abbrev pub Present : List Cell → List (List Cell) → Type 0
Present row [] = ⊥
Present row (r ∷ rs) = (row ≡ r) ⊎ Present row rs

count-Absent :
    (w : ℕ) (row : List Cell) (rs : List (List Cell))
    → length row ≡ w
    → AllPlain row
    → AllRows w rs
    → Absent row rs
    → count (join_cells row) (rendered rs) ≡ 0
unfolding count
count-Absent w row [] l p q a = refl
count-Absent w row (r ∷ rs) l p q a =
    ground
      (arith, count-Absent w row rs l p q.2 a.1, equal_iff (join_cells r) (join_cells row), differs)
  where
    differs : join_cells r ≢ join_cells row
    differs e = a.0 (join_cells-injective row r (l ∙ sym q.0) p q.1 (sym e))

count-Present :
    (row : List Cell) (rs : List (List Cell))
    → Present row rs
    → 0 < count (join_cells row) (rendered rs)
unfolding count
count-Present row [] m = elim m [ ]
count-Present row (r ∷ rs) (inl e) =
    ground (arith, equal_iff (join_cells r) (join_cells row), ap join_cells e)
count-Present row (r ∷ rs) (inr m) = ground (arith, count-Present row rs m)

-- A row that the unrestricted re-execution returns and the restricted one does not makes the
-- verdict LEAK, where the rows have one width and no value contains the separator 0x1f or is the
-- marker of NULL.
pub withheld_row_leaks :
    (tenant : Bytes) (w : ℕ) (row : List Cell) (us rs : List (List Cell))
    → length row ≡ w
    → AllPlain row
    → AllRows w rs
    → Present row us
    → Absent row rs
    → (compare_rows tenant (collect_rows us) (collect_rows rs)).verdict ≡ leak
withheld_row_leaks tenant w row us rs l p q m a = safe_or_leak _ _ _ (λ s. ground (
  arith,
  (safe_iff_same_rows tenant us rs).0 s (join_cells row),
  count-Present row us m,
  count-Absent w row rs l p q a,
))

-- Two rows that differ only in which of two neighbouring values a separator byte 0x1f belongs to
-- are compared as one row: the verdict is SAFE.
pub separator_collision :
    (tenant x y z : Bytes)
    → (compare_rows tenant
        (collect_rows ((some (x ++ (31 ∷ y)) ∷ some z ∷ []) ∷ []))
        (collect_rows ((some x ∷ some (y ++ (31 ∷ z)) ∷ []) ∷ []))).verdict
      ≡ safe
unfolding join_cells
separator_collision tenant x y z =
    (safe_iff_same_rows tenant _ _).1
      (λ k. ap (λ row. count k (row ∷ [])) (append_assoc x (31 ∷ y) (31 ∷ z)))
