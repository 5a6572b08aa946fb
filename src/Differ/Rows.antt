-- ===== src/Differ/Rows.antt =====
-- internal/differ/differ.go: `collectRows`, `multisetShortfall` and the comparison of `Diff`.
pub mod Multiset
pub mod Sort
pub mod Render
use tenantguard.Base.{
  Bool, List, Option, [], false, if◌then◌else◌, ltb, map, none, some, true, ℕ, ◌&&◌, ◌++◌, ◌+◌, ◌-◌,
  ◌==◌, ◌||◌, ◌∷◌,
}
use tenantguard.Base.Bytes.{Bytes, codes, equal}

-- A column value as scanned, `none` for NULL.
abbrev pub Cell : Type 0
Cell = Option Bytes

abbrev pub part : Cell → Bytes
part none = 0 ∷ codes "NULL"
part (some s) = s

-- strings.Join(parts, "\x1f")
unfoldable pub join_cells : List Cell → Bytes
join_cells [] = []
join_cells (c ∷ []) = part c
join_cells (c ∷ d ∷ cs) = part c ++ (31 ∷ join_cells (d ∷ cs))

-- The order of Go strings: byte by byte, a prefix first.
unfoldable pub less_eq : Bytes → Bytes → Bool
less_eq [] ys = true
less_eq (x ∷ xs) [] = false
less_eq (x ∷ xs) (y ∷ ys) = ltb x y || (x == y && less_eq xs ys)

unfoldable pub insert_sorted : Bytes → List Bytes → List Bytes
insert_sorted x [] = x ∷ []
insert_sorted x (y ∷ ys) =
    let later = y ∷ insert_sorted x ys in if less_eq x y then x ∷ y ∷ ys else later

-- sort.Strings
unfoldable pub sort : List Bytes → List Bytes
unfolding insert_sorted less_eq
sort [] = []
sort (x ∷ xs) = insert_sorted x (sort xs)

-- `collectRows` on the rows of a result.
unfoldable pub collect_rows : List (List Cell) → List Bytes
unfolding sort join_cells
collect_rows rows = sort (map join_cells rows)

-- A count for each key: `remaining[w]++` and `remaining[h]--`, where a missing key counts 0.
abbrev pub Counts : Type 0
Counts = Bytes → ℕ

unfoldable pub bump : Bytes → Counts → Counts
bump k m j = if equal k j then m j + 1 else m j

unfoldable pub lower : Bytes → Counts → Counts
lower k m j = if equal k j then m j - 1 else m j

unfoldable pub tally : Counts → List Bytes → Counts
unfolding bump
tally m [] = m
tally m (w ∷ ws) = tally (bump w m) ws

unfoldable pub shortfall_from : Counts → ℕ → List Bytes → ℕ
unfolding lower
shortfall_from m n [] = n
shortfall_from m n (h ∷ hs) =
    shortfall_from (if ltb 0 (m h) then lower h m else m) (if ltb 0 (m h) then n else n + 1) hs

-- `multisetShortfall`
unfoldable pub shortfall : List Bytes → List Bytes → ℕ
unfolding shortfall_from tally
shortfall have want = shortfall_from (tally (λ k. 0) want) 0 have

-- `abs(len(u) - len(r))`
unfoldable pub distance : ℕ → ℕ → ℕ
distance a b = if ltb a b then b - a else a - b
