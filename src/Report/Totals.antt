-- ===== src/Report/Totals.antt =====
-- The totals against counting the queries of each sort.
use tenantguard.Base.{
  Bool, List, [], arith, false, if◌then◌else◌, length, not, true, ℕ, ◌&&◌, ◌+◌, ◌-◌, ◌||◌, ◌∷◌, ◌≡◌,
  ◌≤◌,
}
use tenantguard.Differ.Population.{pop_non_query, pop_row_level_unattributed, pop_structural_only}
use tenantguard.Differ.Verdict.{leak, safe, unattributable}
use tenantguard.Report.{Query, VerdictCounts, count_from, count_queries, count_query, no_counts}

unfoldable pub count_where : (Query → Bool) → List Query → ℕ
count_where p [] = 0
count_where p (q ∷ qs) = (if p q then 1 else 0) + count_where p qs

abbrev pub is_safe : Query → Bool
is_safe q = elim q.verdict [ safe ↦ true | _ ↦ false ]

abbrev pub is_leak : Query → Bool
is_leak q = elim q.verdict [ leak ↦ true | _ ↦ false ]

abbrev pub is_unattributable : Query → Bool
is_unattributable q = elim q.verdict [ unattributable ↦ true | _ ↦ false ]

abbrev pub is_vacuous : Query → Bool
is_vacuous q = is_safe q && q.vacuous

-- A query with a verdict that shows something: a leak, or a comparison of rows that were there.
abbrev pub is_attributed : Query → Bool
is_attributed q = is_leak q || (is_safe q && not q.vacuous)

abbrev pub is_row_level : Query → Bool
is_row_level q =
    is_unattributable q && elim q.population [ pop_row_level_unattributed ↦ true | _ ↦ false ]

abbrev pub is_structural : Query → Bool
is_structural q =
    is_unattributable q && elim q.population [ pop_structural_only ↦ true | _ ↦ false ]

abbrev pub is_non_query : Query → Bool
is_non_query q = is_unattributable q && elim q.population [ pop_non_query ↦ true | _ ↦ false ]

count_from_lem :
    (c : VerdictCounts) (qs : List Query)
    → let d = count_from c qs in
      (d.safes ≡ c.safes + count_where is_safe qs)
      × (d.leaks ≡ c.leaks + count_where is_leak qs)
      × (d.unattributables ≡ c.unattributables + count_where is_unattributable qs)
      × (d.vacuous_safe ≡ c.vacuous_safe + count_where is_vacuous qs)
      × (d.population.row_level_unattributed
          ≡ c.population.row_level_unattributed + count_where is_row_level qs)
      × (d.population.structural_only ≡ c.population.structural_only + count_where is_structural qs)
      × (d.population.non_query ≡ c.population.non_query + count_where is_non_query qs)
unfolding count_from count_where
count_from_lem c [] = ground arith
count_from_lem c (q ∷ qs) =
    ground (arith, count_from_lem (count_query q.verdict q.vacuous q.population c) qs)

-- Safe queries are vacuous or attributed.
count-attributed :
    (qs : List Query)
    → count_where is_attributed qs + count_where is_vacuous qs
      ≡ count_where is_safe qs + count_where is_leak qs
unfolding count_where
count-attributed [] = ground arith
count-attributed (q ∷ qs) = ground (arith, count-attributed qs)

-- Each query is safe, a leak or unattributable.
count-verdicts :
    (qs : List Query)
    → count_where is_safe qs + count_where is_leak qs + count_where is_unattributable qs ≡ length qs
unfolding count_where
count-verdicts [] = ground arith
count-verdicts (q ∷ qs) = ground (arith, count-verdicts qs)

count-vacuous : (qs : List Query) → count_where is_vacuous qs ≤ count_where is_safe qs
unfolding count_where
count-vacuous [] = ground arith
count-vacuous (q ∷ qs) = ground (arith, count-vacuous qs)

pub count-populations :
    (qs : List Query)
    → count_where is_row_level qs + count_where is_structural qs + count_where is_non_query qs
      ≤ count_where is_unattributable qs
unfolding count_where
count-populations [] = ground arith
count-populations (q ∷ qs) = ground (arith, count-populations qs)

-- The totals that an audit reports are the numbers of queries of each sort: they add up to the
-- queries, what `unattributableRateBreakdown` calls attributed are the leaks and the safe queries that
-- are not vacuous, and the populations are those of the unattributable queries.
pub count_queries_lem :
    (qs : List Query)
    → let c = count_queries qs in
      (c.safes + c.leaks + c.unattributables ≡ length qs)
      × ((c.safes - c.vacuous_safe) + c.leaks ≡ count_where is_attributed qs)
      × (c.unattributables ≡ count_where is_unattributable qs)
      × (c.population.row_level_unattributed ≡ count_where is_row_level qs)
      × (c.population.structural_only ≡ count_where is_structural qs)
      × (c.population.non_query ≡ count_where is_non_query qs)
unfolding count_queries
count_queries_lem qs =
    let h = count_from_lem no_counts qs in
    ground (arith, h, count-attributed qs, count-verdicts qs, count-vacuous qs)
