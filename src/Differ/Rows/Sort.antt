-- ===== src/Differ/Rows/Sort.antt =====
-- Sorting and counting rendered rows.
use tenantguard.Base.{List, [], arith, length, length-map, map, refl, ◌∙◌, ◌∷◌, ◌≡◌}
use tenantguard.Base.Bytes.{Bytes}
use tenantguard.Differ.Rows.{Cell, collect_rows, insert_sorted, join_cells, sort}
use tenantguard.Differ.Rows.Multiset.{count}

count-insert_sorted :
    (k x : Bytes) (ys : List Bytes) → count k (insert_sorted x ys) ≡ count k (x ∷ ys)
unfolding count insert_sorted
count-insert_sorted k x [] = refl
count-insert_sorted k x (y ∷ ys) = ground (arith, count-insert_sorted k x ys)

pub count-sort : (k : Bytes) (xs : List Bytes) → count k (sort xs) ≡ count k xs
unfolding count sort
count-sort k [] = refl
count-sort k (x ∷ xs) = ground (arith, count-insert_sorted k x (sort xs), count-sort k xs)

length-insert_sorted : (x : Bytes) (ys : List Bytes) → length (insert_sorted x ys) ≡ length (x ∷ ys)
unfolding insert_sorted
length-insert_sorted x [] = refl
length-insert_sorted x (y ∷ ys) = ground (arith, length-insert_sorted x ys)

pub length-sort : (xs : List Bytes) → length (sort xs) ≡ length xs
unfolding sort
length-sort [] = refl
length-sort (x ∷ xs) = ground (arith, length-insert_sorted x (sort xs), length-sort xs)

pub length-collect_rows : (rows : List (List Cell)) → length (collect_rows rows) ≡ length rows
unfolding collect_rows
length-collect_rows rows = length-sort (map join_cells rows) ∙ length-map join_cells rows
