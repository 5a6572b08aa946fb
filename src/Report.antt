-- ===== src/Report.antt =====
-- cmd/tenantguard/main.go and ceiling.go: the totals of an audit's verdicts, the rates of queries without
-- a verdict, and the ceiling on one of them.
pub mod Totals
pub mod Ceiling
pub mod Audit
mod Tests
use tenantguard.Base.{Bool, List, [], false, if◌then◌else◌, ltb, true, ℕ, ◌*◌, ◌+◌, ◌-◌, ◌==◌, ◌∷◌}
use tenantguard.Differ.Population.{
  Population, no_population, pop_no_declared_table, pop_non_query, pop_row_level_unattributed,
  pop_structural_only,
}
use tenantguard.Differ.Verdict.{Verdict, leak, safe, unattributable}

-- What the totals read of a query's report.
pub record Query : Type 0 where
  pub verdict : Verdict
  pub vacuous : Bool
  pub population : Population

pub record PopulationCounts : Type 0 where
  pub no_declared_table : ℕ
  pub structural_only : ℕ
  pub row_level_unattributed : ℕ
  pub non_query : ℕ

pub record VerdictCounts : Type 0 where
  pub safes : ℕ
  pub leaks : ℕ
  pub unattributables : ℕ
  pub population : PopulationCounts
  pub vacuous_safe : ℕ

abbrev pub no_counts : VerdictCounts
no_counts = record {
  safes = 0;
  leaks = 0;
  unattributables = 0;
  population = record {
    no_declared_table = 0;
    structural_only = 0;
    row_level_unattributed = 0;
    non_query = 0;
  };
  vacuous_safe = 0;
}

abbrev pub count_population : Population → PopulationCounts → PopulationCounts
count_population no_population p = p
count_population pop_no_declared_table p = record p { no_declared_table = p.no_declared_table + 1 }
count_population pop_structural_only p = record p { structural_only = p.structural_only + 1 }
count_population pop_row_level_unattributed p = record p {
  row_level_unattributed = p.row_level_unattributed + 1;
}
count_population pop_non_query p = record p { non_query = p.non_query + 1 }

-- The loop's body.
abbrev pub count_query : Verdict → Bool → Population → VerdictCounts → VerdictCounts
count_query safe vacuous _ c = record c {
  safes = c.safes + 1;
  vacuous_safe = if vacuous then c.vacuous_safe + 1 else c.vacuous_safe;
}
count_query leak _ _ c = record c { leaks = c.leaks + 1 }
count_query unattributable _ pop c = record c {
  unattributables = c.unattributables + 1;
  population = count_population pop c.population;
}

unfoldable pub count_from : VerdictCounts → List Query → VerdictCounts
count_from c [] = c
count_from c (q ∷ qs) = count_from (count_query q.verdict q.vacuous q.population c) qs

-- The loop over the queries of `runGateCommand`.
unfoldable pub count_queries : List Query → VerdictCounts
unfolding count_from
count_queries qs = count_from no_counts qs

pub data Label : Type 0 where
  all_captured_queries real_app_sql_any_table : Label
  real_app_sql_touching_any_declared_table row_level_touching_real_app_sql : Label

-- `unattributableRateEntry`: its rate is `without_verdict` out of `denominator`.
pub record RateEntry : Type 0 where
  pub label : Label
  pub denominator : ℕ
  pub without_verdict : ℕ

-- An entry is left out when its denominator is 0.
abbrev pub with_entry : Label → ℕ → ℕ → List RateEntry → List RateEntry
with_entry label d u rest =
    if d == 0 then rest else record { label = label; denominator = d; without_verdict = u } ∷ rest

-- `unattributableRateBreakdown`
unfoldable pub unattributable_rate_breakdown : VerdictCounts → ℕ → List RateEntry
unattributable_rate_breakdown c total =
    let p = c.population in
    let attributed = (c.safes - c.vacuous_safe) + c.leaks in
    with_entry all_captured_queries total c.unattributables (
      with_entry real_app_sql_any_table (total - p.non_query) (c.unattributables - p.non_query) (
        with_entry real_app_sql_touching_any_declared_table
          (attributed + p.structural_only + p.row_level_unattributed)
          (p.structural_only + p.row_level_unattributed)
          (with_entry row_level_touching_real_app_sql (attributed + p.row_level_unattributed)
            p.row_level_unattributed [])))

-- The rate is above 18/762, compared by cross multiplication. The quotients of float64 that the code
-- compares are rounded, but agree with this for every denominator below 2^43.
abbrev pub above_ceiling : RateEntry → Bool
above_ceiling e = ltb (18 * e.denominator) (762 * e.without_verdict)

abbrev pub is_ceiling_label : Label → Bool
is_ceiling_label row_level_touching_real_app_sql = true
is_ceiling_label _ = false

-- `checkUnattributableCeiling`: whether it returns an error.
unfoldable pub check_unattributable_ceiling : List RateEntry → Bool
check_unattributable_ceiling [] = false
check_unattributable_ceiling (e ∷ es) =
    let rest = check_unattributable_ceiling es in
    if is_ceiling_label e.label then above_ceiling e else rest
