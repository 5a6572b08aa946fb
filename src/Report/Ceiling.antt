-- ===== src/Report/Ceiling.antt =====
-- The entries of the breakdown, and when the ceiling stops a run.
use tenantguard.Base.{
  Bool, List, [], arith, false, if◌then◌else◌, length, refl, true, ℕ, ◌*◌, ◌+◌, ◌-◌, ◌<◌, ◌==◌, ◌↔◌,
  ◌∷◌, ◌≡◌, ◌≤◌,
}
use tenantguard.Report.{
  Label, Query, RateEntry, check_unattributable_ceiling, count_queries,
  unattributable_rate_breakdown, with_entry,
}
use tenantguard.Report.Totals.{count_queries_lem, count_where, is_attributed, is_row_level}

-- A rate is at most 1, of a denominator that is not 0.
abbrev pub IsRate : RateEntry → Type 0
IsRate e = (0 < e.denominator) × (e.without_verdict ≤ e.denominator)

abbrev pub AllRates : List RateEntry → Type 0
AllRates [] = Unit
AllRates (e ∷ es) = IsRate e × AllRates es

with_entry-AllRates :
    (label : Label) (d u : ℕ) (rest : List RateEntry)
    → u ≤ d
    → AllRates rest
    → AllRates (with_entry label d u rest)
with_entry-AllRates label d u rest h r = by_zero (d == 0) refl
  where
    by_zero :
        (b : Bool)
        → (d == 0) ≡ b
        → AllRates (
            if b
            then rest
            else record { label = label; denominator = d; without_verdict = u } ∷ rest)
    by_zero true e = r
    by_zero false e = ((ground arith, h), r)

-- Every rate that an audit reports has a denominator above 0 and is at most 1.
pub breakdown-AllRates :
    (qs : List Query) → AllRates (unattributable_rate_breakdown (count_queries qs) (length qs))
unfolding unattributable_rate_breakdown
breakdown-AllRates qs =
    let d = count_queries qs in
    let c = count_queries_lem qs in
    let all : d.unattributables ≤ length qs = omega (arith, c.0) in
    let queries : d.unattributables - d.population.non_query ≤ length qs - d.population.non_query =
      omega (arith, c.0) in
    let attributed = (d.safes - d.vacuous_safe) + d.leaks in
    let undecided = d.population.structural_only + d.population.row_level_unattributed in
    let declared : undecided
        ≤ attributed + d.population.structural_only + d.population.row_level_unattributed =
      omega arith in
    let row_level : d.population.row_level_unattributed
        ≤ attributed + d.population.row_level_unattributed =
      omega arith in
    with_entry-AllRates _ _ _ _ all (
      with_entry-AllRates _ _ _ _ queries
        (with_entry-AllRates _ _ _ _ declared (with_entry-AllRates _ _ _ _ row_level tt)))

-- The ceiling stops a run exactly when, of the queries that a proven relation's rows could have
-- decided, those with no verdict are more than 18 in 762: the others are the leaks and the safe
-- queries that are not vacuous, and neither vacuous ones nor those of other populations count.
pub ceiling_iff :
    (qs : List Query)
    → (check_unattributable_ceiling (unattributable_rate_breakdown (count_queries qs) (length qs))
        ≡ true)
      ↔ (18 * (count_where is_attributed qs + count_where is_row_level qs)
          < 762 * count_where is_row_level qs)
unfolding unattributable_rate_breakdown check_unattributable_ceiling
ceiling_iff qs = let c = count_queries_lem qs in ground (arith, c)
