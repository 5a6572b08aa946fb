-- ===== src/Triage/Order.antt =====
-- internal/triage/triage.go: what `rankSuspicions` does to the list.
use mathlib.Core.List.{Perm}
use mathlib.Core.List.Perm
use tenantguard.Base.{
  Bool-cases, List, [], ap, arith, false, inl, inr, map, refl, true, ℕ, ◌*◌, ◌+◌, ◌<◌, ◌∷◌, ◌≡◌,
  ◌≤◌, ◌⊎◌,
}
use tenantguard.Base.Bytes.{Bytes, equal, equal_iff}
use tenantguard.Capture.Framer.{next}
use tenantguard.Differ.Rows.{less_eq}
use tenantguard.Triage.Rank.{
  Suspicion, insert_ranked, less, number_from, rank_suspicions, ranks_before, sort_stable,
  with_rank,
}

-- The fields without the rank.
abbrev pub unranked : Suspicion → Suspicion
unranked s = with_rank 0 s

-- By file, and in a file by line.
abbrev pub AtMostPlace : Suspicion → Suspicion → Type 0
AtMostPlace x y = (less x.file y.file ≡ true) ⊎ ((x.file ≡ y.file) × (x.line ≤ y.line))

-- The confidence of x is above that of y, or it is the same and its place is not behind that of y.
abbrev pub AtLeastAsSure : Suspicion → Suspicion → Type 0
AtLeastAsSure x y =
    (y.evidence * x.total < x.evidence * y.total)
    ⊎ ((x.evidence * y.total ≡ y.evidence * x.total) × AtMostPlace x y)

-- x may stand in front of y: it writes and y only reads, or both do the same and x is as sure.
abbrev pub InFront : Suspicion → Suspicion → Type 0
InFront x y = ((x.writes ≡ true) × (y.writes ≡ false)) ⊎ ((x.writes ≡ y.writes) × AtLeastAsSure x y)

-- Each element may stand in front of the next.
abbrev pub InOrder : List Suspicion → Type 0
InOrder [] = Unit
InOrder (x ∷ []) = Unit
InOrder (x ∷ y ∷ ys) = InFront x y × InOrder (y ∷ ys)

less_eq_antisym : (a b : Bytes) → less_eq a b ≡ true → less_eq b a ≡ true → equal b a ≡ true
unfolding less_eq equal
less_eq_antisym [] [] h k = refl
less_eq_antisym [] (y ∷ b) h k = ground arith
less_eq_antisym (x ∷ a) [] h k = ground arith
less_eq_antisym (x ∷ a) (y ∷ b) h k = ground (arith, less_eq_antisym a b)

before-InFront : (x y : Suspicion) → ranks_before y x ≡ true → InFront y x
unfolding ranks_before
before-InFront x y h = ground (arith, equal_iff y.file x.file)

behind-InFront : (x y : Suspicion) → ranks_before y x ≡ false → InFront x y
unfolding ranks_before
behind-InFront x y h = ground (arith, equal_iff y.file x.file, less_eq_antisym x.file y.file)

insert_ranked-perm : (x : Suspicion) (xs : List Suspicion) → Perm (insert_ranked x xs) (x ∷ xs)
unfolding insert_ranked
insert_ranked-perm x [] = Perm.refl (x ∷ [])
insert_ranked-perm x (y ∷ ys) = elim (Bool-cases (ranks_before y x)) [
  | inl later ↦ rw later (Perm.trans (Perm.cons y (insert_ranked-perm x ys)) (Perm.swap x y ys))
  | inr here ↦ rw here (Perm.refl (x ∷ y ∷ ys))
]

sort_stable-perm : (xs : List Suspicion) → Perm (sort_stable xs) xs
unfolding sort_stable
sort_stable-perm [] = Perm.refl []
sort_stable-perm (x ∷ xs) =
    Perm.trans (insert_ranked-perm x (sort_stable xs)) (Perm.cons x (sort_stable-perm xs))

insert_ranked-InOrder :
    (x : Suspicion) (xs : List Suspicion) → InOrder xs → InOrder (insert_ranked x xs)
unfolding insert_ranked
insert_ranked-InOrder x [] h = tt
insert_ranked-InOrder x (y ∷ []) h = elim (Bool-cases (ranks_before y x)) [
  | inl later ↦ rw later (before-InFront x y later, tt)
  | inr here ↦ rw here (behind-InFront x y here, tt)
]
insert_ranked-InOrder x (y ∷ z ∷ zs) (p, h) = elim (Bool-cases (ranks_before y x)) [
  | inr here ↦ rw here (behind-InFront x y here, (p, h))
  | inl later ↦ elim (Bool-cases (ranks_before z x)) [
    | inl deeper ↦ rw (later, deeper) (p, rw deeper at (insert_ranked-InOrder x (z ∷ zs) h))
    | inr next ↦ rw (later, next) (before-InFront x y later, (behind-InFront x z next, h))
  ]
]

sort_stable-InOrder : (xs : List Suspicion) → InOrder (sort_stable xs)
unfolding sort_stable
sort_stable-InOrder [] = tt
sort_stable-InOrder (x ∷ xs) = insert_ranked-InOrder x (sort_stable xs) (sort_stable-InOrder xs)

-- The ranks are the numbers from n on.
abbrev pub Numbered : ℕ → List Suspicion → Type 0
Numbered n [] = Unit
Numbered n (s ∷ ss) = (s.rank ≡ n) × Numbered (n + 1) ss

number_from-Numbered : (n : ℕ) (ss : List Suspicion) → Numbered n (number_from n ss)
unfolding number_from
number_from-Numbered n [] = tt
number_from-Numbered n (s ∷ ss) = (refl, number_from-Numbered (n + 1) ss)

number_from-InOrder : (n : ℕ) (ss : List Suspicion) → InOrder ss → InOrder (number_from n ss)
unfolding number_from
number_from-InOrder n [] h = tt
number_from-InOrder n (s ∷ []) h = tt
number_from-InOrder n (s ∷ t ∷ ss) (p, h) = (p, number_from-InOrder (n + 1) (t ∷ ss) h)

map-unranked : (n : ℕ) (ss : List Suspicion) → map unranked (number_from n ss) ≡ map unranked ss
unfolding number_from
map-unranked n [] = refl
map-unranked n (s ∷ ss) = ap (◌∷◌ (unranked s)) (map-unranked (n + 1) ss)

-- rankSuspicions gives the same suspicions, but for their ranks, each in front of the next by the
-- documented order: those that write before those that only read, of these the higher confidence first,
-- and with the same confidence by file and then by line; the ranks are 1, 2, 3 and so on.
pub rank_suspicions-Ranked :
    (ss : List Suspicion)
    → Perm (map unranked (rank_suspicions ss)) (map unranked ss)
      × InOrder (rank_suspicions ss)
      × Numbered 1 (rank_suspicions ss)
unfolding rank_suspicions
rank_suspicions-Ranked ss = (
  rw (map-unranked 1 (sort_stable ss)) (Perm.map unranked (sort_stable-perm ss)),
  number_from-InOrder 1 (sort_stable ss) (sort_stable-InOrder ss),
  number_from-Numbered 1 (sort_stable ss),
)
