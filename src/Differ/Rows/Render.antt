-- ===== src/Differ/Rows/Render.antt =====
-- When the text of a row determines the row.
use tenantguard.Base.{List, [], ap, arith, length, none, refl, some, sym, ◌++◌, ◌∷◌, ◌≡◌, ◌≢◌}
use tenantguard.Base.Bytes.{Bytes, codes}
use tenantguard.Differ.Rows.{Cell, join_cells, part}

-- No separator in the text.
abbrev pub NoSeparator : Bytes → Type 0
NoSeparator [] = Unit
NoSeparator (x ∷ xs) = (x ≢ 31) × NoSeparator xs

-- A value that `collectRows` renders without ambiguity.
abbrev pub Plain : Cell → Type 0
Plain none = Unit
Plain (some s) = NoSeparator s × (s ≢ 0 ∷ codes "NULL")

abbrev pub AllPlain : List Cell → Type 0
AllPlain [] = Unit
AllPlain (c ∷ cs) = Plain c × AllPlain cs

NoSeparator-part : (c : Cell) → Plain c → NoSeparator (part c)
unfolding codes
NoSeparator-part none p = ground arith
NoSeparator-part (some s) p = p.0

part-injective : (c d : Cell) → Plain c → Plain d → part c ≡ part d → c ≡ d
part-injective none none p q e = refl
part-injective none (some t) p q e = elim (q.1 (sym e)) [ ]
part-injective (some s) none p q e = elim (p.1 e) [ ]
part-injective (some s) (some t) p q e = ap some e

split_at_separator :
    (x y r s : Bytes)
    → NoSeparator x
    → NoSeparator y
    → x ++ (31 ∷ r) ≡ y ++ (31 ∷ s)
    → (x ≡ y) × (r ≡ s)
split_at_separator [] [] r s p q e = ground arith
split_at_separator [] (y ∷ ys) r s p q e = ground arith
split_at_separator (x ∷ xs) [] r s p q e = ground arith
split_at_separator (x ∷ xs) (y ∷ ys) r s p q e = ground (arith, split_at_separator xs ys r s)

-- Two rows of one width, no value of which contains the separator 0x1f or is the marker written
-- for NULL, have the same rendering only if they are the same row.
pub join_cells-injective :
    (cs ds : List Cell)
    → length cs ≡ length ds
    → AllPlain cs
    → AllPlain ds
    → join_cells cs ≡ join_cells ds
    → cs ≡ ds
unfolding join_cells
join_cells-injective [] [] l p q e = refl
join_cells-injective [] (d ∷ ds) l p q e = ground arith
join_cells-injective (c ∷ cs) [] l p q e = ground arith
join_cells-injective (c ∷ []) (d ∷ []) l p q e = ap (◌∷ []) (part-injective c d p.0 q.0 e)
join_cells-injective (c ∷ []) (d ∷ d' ∷ ds) l p q e = ground arith
join_cells-injective (c ∷ c' ∷ cs) (d ∷ []) l p q e = ground arith
join_cells-injective (c ∷ c' ∷ cs) (d ∷ d' ∷ ds) l p q e =
    let parts =
      split_at_separator (part c) (part d) _ _ (NoSeparator-part c p.0) (NoSeparator-part d q.0)
        e in
    let rest = join_cells-injective (c' ∷ cs) (d' ∷ ds) (ground arith) p.1 q.1 parts.1 in
    cc (part-injective c d p.0 q.0 parts.0, rest)
