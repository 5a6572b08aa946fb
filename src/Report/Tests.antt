-- ===== src/Report/Tests.antt =====
-- Concrete audits: a leak, a vacuous safe query, a safe one, and queries without a verdict.
use tenantguard.Base.{Bool, List, [], false, true, ◌*◌, ◌+◌, ◌<◌, ◌↔◌, ◌∷◌, ◌≡◌}
use tenantguard.Differ.Population.{
  Population, no_population, pop_non_query, pop_row_level_unattributed,
}
use tenantguard.Differ.Verdict.{Verdict, leak, safe, unattributable}
use tenantguard.Report.{
  Query, check_unattributable_ceiling, count_queries, unattributable_rate_breakdown,
}
use tenantguard.Report.Ceiling.{AllRates, breakdown-AllRates, ceiling_iff}
use tenantguard.Report.Totals.{count_where, is_attributed, is_row_level}

abbrev query : Verdict → Bool → Population → Query
query v b p = record { verdict = v; vacuous = b; population = p }

abbrev audit : List Query
audit =
    query leak false no_population
    ∷ query safe true no_population
    ∷ query safe false no_population
    ∷ query unattributable false pop_row_level_unattributed
    ∷ query unattributable false pop_non_query
    ∷ []

ceiling_iff_example :
    (check_unattributable_ceiling (unattributable_rate_breakdown (count_queries audit) 5) ≡ true)
    ↔ (18 * (count_where is_attributed audit + count_where is_row_level audit)
        < 762 * count_where is_row_level audit)
ceiling_iff_example = ceiling_iff audit

breakdown-AllRates_example : AllRates (unattributable_rate_breakdown (count_queries audit) 5)
breakdown-AllRates_example = breakdown-AllRates audit
