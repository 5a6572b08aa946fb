-- ===== src/Differ/Rows/Multiset.antt =====
-- `multisetShortfall` against counting: how often each rendered row occurs on each side.
use tenantguard.Base.{
  Bool-cases, List, [], ap, arith, false, if◌then◌else◌, inl, inr, length, ltb, lt→ltb, refl, sym,
  true, ℕ, ◌+◌, ◌<◌, ◌↔◌, ◌∙◌, ◌∷◌, ◌≡◌, ◌≤◌,
}
use tenantguard.Base.Bytes.{Bytes, equal, equal_iff, equal_refl}
use tenantguard.Differ.Rows.{Counts, bump, lower, shortfall, shortfall_from, tally}

unfoldable pub count : Bytes → List Bytes → ℕ
count k [] = 0
count k (x ∷ xs) = (if equal x k then 1 else 0) + count k xs

-- One occurrence of `k` taken away.
unfoldable without : Bytes → List Bytes → List Bytes
without k [] = []
without k (x ∷ xs) = let rest = x ∷ without k xs in if equal x k then xs else rest

pub count-tally : (m : Counts) (ws : List Bytes) (k : Bytes) → tally m ws k ≡ m k + count k ws
unfolding tally count
count-tally m [] k = omega arith
count-tally m (w ∷ ws) k = ground (arith, count-tally (bump w m) ws k)

module _ (k j : Bytes) where
  count-without :
      (xs : List Bytes)
      → 0 < count k xs
      → count j xs ≡ (if equal k j then 1 else 0) + count j (without k xs)
  unfolding count without
  count-without [] h = ground arith
  count-without (x ∷ xs) h =
      ground (arith, count-without xs, equal_iff x k, equal_iff x j, equal_iff k j)

length-without :
    (k : Bytes) (xs : List Bytes) → 0 < count k xs → length xs ≡ 1 + length (without k xs)
unfolding count without
length-without k [] h = ground arith
length-without k (x ∷ xs) h = ground (arith, length-without k xs)

count_self : (x : Bytes) (xs : List Bytes) → count x (x ∷ xs) ≡ 1 + count x xs
unfolding count
count_self x xs = ground (arith, equal_refl x)

-- Lists of one length, the first within the second, have the same counts.
within_same_length :
    (xs ys : List Bytes)
    → ((k : Bytes) → count k xs ≤ count k ys)
    → length xs ≡ length ys
    → (k : Bytes) → count k xs ≡ count k ys
unfolding count
within_same_length [] [] h e k = refl
within_same_length [] (y ∷ ys) h e k = ground arith
within_same_length (x ∷ xs) ys h e k =
    let some_x : 0 < count x ys = omega (arith, count_self x xs, h x) in
    let rest =
      within_same_length xs (without x ys) (λ j. omega (arith, h j, count-without x j ys some_x))
        (omega (arith, length-without x ys some_x, e)) k in
    omega (arith, rest, count-without x k ys some_x)

same_length : (xs ys : List Bytes) → ((k : Bytes) → count k xs ≡ count k ys) → length xs ≡ length ys
unfolding count
same_length [] [] h = refl
same_length [] (y ∷ ys) h = omega (arith, h y, count_self y ys)
same_length (x ∷ xs) ys h =
    let some_x : 0 < count x ys = omega (arith, count_self x xs, h x) in
    let rest =
      same_length xs (without x ys) (λ j. omega (arith, h j, count-without x j ys some_x)) in
    omega (arith, rest, length-without x ys some_x)

shortfall_from_grows : (m : Counts) (n : ℕ) (hs : List Bytes) → n ≤ shortfall_from m n hs
unfolding shortfall_from
shortfall_from_grows m n [] = omega arith
shortfall_from_grows m n (h ∷ hs) =
    ground (arith, shortfall_from_grows (lower h m) n hs, shortfall_from_grows m (n + 1) hs)

module _ (m : Counts) (n : ℕ) (h : Bytes) (hs : List Bytes) where
  matched_step : ltb 0 (m h) ≡ true → shortfall_from m n (h ∷ hs) ≡ shortfall_from (lower h m) n hs
  unfolding shortfall_from
  matched_step e =
      ap (λ b. shortfall_from (if b then lower h m else m) (if b then n else n + 1) hs) e

  missed_step : ltb 0 (m h) ≡ false → shortfall_from m n (h ∷ hs) ≡ shortfall_from m (n + 1) hs
  unfolding shortfall_from
  missed_step e =
      ap (λ b. shortfall_from (if b then lower h m else m) (if b then n else n + 1) hs) e

shortfall_from→within :
    (m : Counts) (n : ℕ) (hs : List Bytes)
    → shortfall_from m n hs ≡ n
    → (k : Bytes) → count k hs ≤ m k
unfolding count lower
shortfall_from→within m n [] e k = ground arith
shortfall_from→within m n (h ∷ hs) e k = elim (Bool-cases (ltb 0 (m h))) [
  | inl b ↦
      let rest = shortfall_from→within (lower h m) n hs (sym (matched_step m n h hs b) ∙ e) k in
      ground (arith, rest, b, equal_iff h k)
  | inr b ↦ ground (arith, shortfall_from_grows m (n + 1) hs, sym (missed_step m n h hs b) ∙ e)
]

within→shortfall_from :
    (m : Counts) (n : ℕ) (hs : List Bytes)
    → ((k : Bytes) → count k hs ≤ m k)
    → shortfall_from m n hs ≡ n
unfolding count lower shortfall_from
within→shortfall_from m n [] w = refl
within→shortfall_from m n (h ∷ hs) w =
    let some_h : ltb 0 (m h) ≡ true = lt→ltb _ _ (omega (arith, w h, count_self h hs)) in
    matched_step m n h hs some_h
    ∙ within→shortfall_from (lower h m) n hs (λ k. ground (arith, w k, equal_iff h k))

-- The comparison of `Diff`, that no row of the first list is unmatched and that the lists have one
-- length, holds exactly when every row occurs equally often in both lists.
pub shortfall_iff :
    (have want : List Bytes)
    → ((shortfall have want ≡ 0) × (length have ≡ length want))
      ↔ ((k : Bytes) → count k have ≡ count k want)
unfolding shortfall
shortfall_iff have want = (
  (λ h.
      within_same_length have want
        (λ k. omega (arith, shortfall_from→within _ 0 have h.0 k, count-tally (λ _. 0) want k))
        h.1),
  λ h. (
    within→shortfall_from _ 0 have (λ k. omega (arith, h k, count-tally (λ _. 0) want k)),
    same_length have want h,
  ),
)
