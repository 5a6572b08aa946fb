-- ===== src/Schema/Tenancy.antt =====
-- When a relation is scoped, and by which column; the totals of a policy.
use tenantguard.Base.{
  Bool, List, [], arith, false, if◌then◌else◌, length, refl, true, ℕ, ◌+◌, ◌↔◌, ◌∷◌, ◌≡◌, ◌≤◌,
}
use tenantguard.Base.Bytes.{Bytes, equal_refl}
use tenantguard.Differ.Rows.{insert_sorted, sort}
use tenantguard.Differ.Rows.Sort.{length-sort}
use tenantguard.Schema.{
  Class, Relation, add_class, by_candidates, candidates, classify, counts, counts_from,
  is_candidate, is_in, other_class, scoped, scoped_of, select_candidates, unclassifiable,
  unclassifiable_of, unscoped, views,
}

by_candidates_iff : (cs : List Bytes) → ((by_candidates cs).0 ≡ scoped) ↔ (length cs ≡ 1)
by_candidates_iff [] = ground arith
by_candidates_iff (c ∷ []) = ground arith
by_candidates_iff (c ∷ d ∷ cs) = ground arith

-- A relation is classified scoped exactly when it is no view, materialized view or foreign table
-- and exactly one of its columns has the name of a tenant column.
pub classify-scoped_iff :
    (kind : Bytes) (cols : List Bytes)
    → ((classify kind cols).0 ≡ scoped)
      ↔ ((is_in kind views ≡ false) × (length (select_candidates cols) ≡ 1))
unfolding classify candidates
classify-scoped_iff kind cols =
    ground (
      arith,
      by_candidates_iff (sort (select_candidates cols)),
      length-sort (select_candidates cols),
    )

-- The column is one of the relation's, with a tenant column's name.
abbrev Tenant : List Bytes → Bytes → Type 0
Tenant cols c = (is_in c cols ≡ true) × (is_candidate c ≡ true)

abbrev AllTenant : List Bytes → List Bytes → Type 0
AllTenant cols [] = Unit
AllTenant cols (c ∷ cs) = Tenant cols c × AllTenant cols cs

is_in_later : (x c : Bytes) (cols : List Bytes) → is_in c cols ≡ true → is_in c (x ∷ cols) ≡ true
unfolding is_in
is_in_later x c cols h = ground arith

is_in_here : (c : Bytes) (cols : List Bytes) → is_in c (c ∷ cols) ≡ true
unfolding is_in
is_in_here c cols = ground (arith, equal_refl c)

AllTenant-later : (x : Bytes) (cols cs : List Bytes) → AllTenant cols cs → AllTenant (x ∷ cols) cs
AllTenant-later x cols [] h = tt
AllTenant-later x cols (c ∷ cs) h =
    ((is_in_later x c cols h.0.0, h.0.1), AllTenant-later x cols cs h.1)

candidate_added :
    (c : Bytes) (cs chosen : List Bytes) (b : Bool)
    → is_candidate c ≡ b
    → AllTenant cs chosen
    → AllTenant (c ∷ cs) (if b then c ∷ chosen else chosen)
candidate_added c cs chosen true e h = ((is_in_here c cs, e), AllTenant-later c cs chosen h)
candidate_added c cs chosen false e h = AllTenant-later c cs chosen h

select_candidates-AllTenant : (cols : List Bytes) → AllTenant cols (select_candidates cols)
unfolding select_candidates
select_candidates-AllTenant [] = tt
select_candidates-AllTenant (c ∷ cs) =
    candidate_added c cs (select_candidates cs) (is_candidate c) refl
      (select_candidates-AllTenant cs)

by_one :
    (cols cs : List Bytes)
    → AllTenant cols cs
    → (by_candidates (sort cs)).0 ≡ scoped
    → Tenant cols (by_candidates (sort cs)).1
unfolding sort insert_sorted
by_one cols [] h e = ground arith
by_one cols (c ∷ []) h e = h.0
by_one cols (c ∷ d ∷ cs) h e =
    ground (arith, (by_candidates_iff (sort (c ∷ d ∷ cs))).0 e, length-sort (c ∷ d ∷ cs))

-- The tenant column of a relation that is classified scoped is one of its columns, with the name of a
-- tenant column.
pub classify-Tenant :
    (kind : Bytes) (cols : List Bytes)
    → (classify kind cols).0 ≡ scoped
    → (is_in (classify kind cols).1 cols ≡ true) × (is_candidate (classify kind cols).1 ≡ true)
unfolding classify candidates
classify-Tenant kind cols = by_view (is_in kind views)
  where
    by_view :
        (b : Bool)
        → (if b
            then (unclassifiable, [], sort (select_candidates cols))
            else by_candidates (sort (select_candidates cols))).0
          ≡ scoped
        → Tenant cols
            (if b
              then (unclassifiable, [], sort (select_candidates cols))
              else by_candidates (sort (select_candidates cols))).1
    by_view true e = ground arith
    by_view false e = by_one cols (select_candidates cols) (select_candidates-AllTenant cols) e

-- What the totals say of the lists.
abbrev Totals : ℕ × ℕ × ℕ → ℕ × ℕ × ℕ → List Relation → Type 0
Totals (s, u, n) (s', u', n') rs =
    (s' ≡ s + length (scoped_of rs))
    × (s' + u' + n' ≡ s + u + n + length rs)
    × (n + length (unclassifiable_of rs) ≤ n')

counts_from-Totals : (acc : ℕ × ℕ × ℕ) (rs : List Relation) → Totals acc (counts_from acc rs) rs
unfolding counts_from scoped_of unclassifiable_of
counts_from-Totals (s, u, n) [] = ground arith
counts_from-Totals (s, u, n) (r ∷ rs) =
    added r.class (counts_from-Totals (add_class r.class (s, u, n)) rs)
  where
    added :
        (k : Class)
        → Totals (add_class k (s, u, n)) (counts_from (add_class k (s, u, n)) rs) rs
        → Totals (s, u, n) (counts_from (add_class k (s, u, n)) rs) (record r { class = k } ∷ rs)
    added scoped t = ground arith
    added unscoped t = ground arith
    added unclassifiable t = ground arith
    added (other_class name) t = ground arith

-- The totals of a policy add up to its relations; the scoped total is the number of relations that
-- `Policy.Scoped` lists, and the unclassifiable one is no less than what `Policy.Unclassifiable` does.
pub counts-add_up :
    (rs : List Relation)
    → ((counts rs).0 ≡ length (scoped_of rs))
      × ((counts rs).0 + (counts rs).1 + (counts rs).2 ≡ length rs)
      × (length (unclassifiable_of rs) ≤ (counts rs).2)
unfolding counts
counts-add_up rs = ground (arith, counts_from-Totals (0, 0, 0) rs)
