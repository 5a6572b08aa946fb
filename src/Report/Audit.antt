-- ===== src/Report/Audit.antt =====
-- cmd/tenantguard/main.go: `runGateCommand`, the commands verify and audit. The parsing of flags, the
-- reading of the two files and the printing are input and output, taken by what they give.
pub mod Supported
pub mod Kept
mod Tests
use tenantguard.Base.{
  Bool, List, Option, [], false, if◌then◌else◌, length, map, none, not, some, true, ℕ, ◌&&◌, ◌++◌,
  ◌||◌, ◌∷◌,
}
use tenantguard.Base.Bytes.{Bytes, codes, equal}
use tenantguard.Capture.Message.{Param}
use tenantguard.Capture.Session.{Event, kind_bind, kind_query}
use tenantguard.Differ.Population.{Population, classify_unattributable, no_population}
use tenantguard.Differ.Rerun.{Server}
use tenantguard.Differ.Verdict.{Result, Verdict, diff, unattributable}
use tenantguard.Gate.{Decision, on_proven, refused}
use tenantguard.Gate.Run.{run_gate}
use tenantguard.Gate.State.{exit_code_for}
use tenantguard.Oracle.Checks.{Database}
use tenantguard.Report.{
  Query, RateEntry, VerdictCounts, check_unattributable_ceiling, count_queries,
  unattributable_rate_breakdown,
}
use tenantguard.Schema.{Relation, qualified, scoped_of}

-- `paramStrings`
unfoldable pub param_strings : List Param → List Bytes
unfolding codes
param_strings [] = []
param_strings (p ∷ ps) =
    (if p.is_null then codes "NULL" else if p.known then p.text else codes "<undecoded>")
    ∷ param_strings ps

-- `queryVerdict` without the reason; `counted` has what the totals read of it.
pub record QueryVerdict : Type 0 where
  pub sql : Bytes
  pub tenant : Bytes
  pub params : List Bytes
  pub withheld_rows : ℕ
  pub counted : Query

-- Bind and Query, which are executions of a statement.
unfoldable pub is_execution : Event → Bool
is_execution ev = elim ev.kind [ kind_bind ↦ true | kind_query ↦ true | _ ↦ false ]

abbrev pub population_for : Verdict → Bytes → List Relation → List Relation → Population
population_for unattributable sql row_level structural_only =
    classify_unattributable sql row_level structural_only
population_for _ sql row_level structural_only = no_population

abbrev pub report_query : List Relation → List Relation → Event → Result → QueryVerdict
report_query row_level structural_only ev r = record {
  sql = ev.sql;
  tenant = r.tenant;
  params = param_strings ev.params;
  withheld_rows = r.withheld_rows;
  counted = record {
    verdict = r.verdict;
    vacuous = r.vacuous;
    population = population_for r.verdict ev.sql row_level structural_only;
  };
}

-- `verifyReport`, without the constants, the texts of the tables' proofs and the declaration that the
-- database is shared. The checks' four results are all true in each report.
pub record VerifyReport : Type 0 where
  pub tables : List Bytes
  pub tables_row_level : List Bytes
  pub tables_structural_only : List Bytes
  pub queries : List QueryVerdict
  pub totals : Option VerdictCounts
  pub rates : List RateEntry

-- What a command leaves: the report on its standard output, if it came to one, and its exit code.
pub record Exit : Type 0 where
  pub report : Option VerifyReport
  pub exit_code : ℕ

abbrev pub exits : ℕ → Exit
exits n = record { report = none; exit_code = n }

pub record Flags : Type 0 where
  pub is_audit : Bool
  pub dsn : Bytes
  pub policy : Bytes
  pub output : Bytes
  pub events : Bytes

-- What the file of events holds, where an audit is given one.
abbrev pub events_of : (Bytes → Option (List Event)) → Flags → Option (List Event)
events_of load_events f =
    if f.is_audit && not (equal f.events []) then load_events f.events else some []

-- An audit of no query has neither totals nor rates.
abbrev pub counts_of : List Query → Option VerdictCounts
counts_of [] = none
counts_of (q ∷ qs) = some (count_queries (q ∷ qs))

abbrev pub rates_of : List Query → List RateEntry
rates_of [] = []
rates_of (q ∷ qs) = unattributable_rate_breakdown (count_queries (q ∷ qs)) (length (q ∷ qs))

unfoldable pub report_for :
    List Relation → List Relation → List Relation → List QueryVerdict → VerifyReport
unfolding count_queries unattributable_rate_breakdown
report_for rels row_level structural_only qs =
    let counted = map (λ q. q.counted) qs in
    record {
      tables = map qualified rels;
      tables_row_level = map qualified row_level;
      tables_structural_only = map qualified structural_only;
      queries = qs;
      totals = counts_of counted;
      rates = rates_of counted;
    }

-- The end of the command, behind the writing of the report, which may fail.
unfoldable pub finish_run : Bool → VerifyReport → Exit
unfolding check_unattributable_ceiling
finish_run reported r = if not reported then exits 1 else record {
  report = some r;
  exit_code = if check_unattributable_ceiling r.rates then 3 else 0;
}

module _ (v : Server) where
  abbrev pub after_diff :
      List Relation → List Relation → Event → Result × v.Db × v.Db → List QueryVerdict × v.Db × v.Db
  after_diff row_level structural_only ev (r, probe, restricted) =
      (report_query row_level structural_only ev r ∷ [], probe, restricted)

  -- An event's turn: what it adds to the report, and the two databases behind it.
  unfoldable pub audit_event :
      List Relation → List Relation → v.Db → v.Db → Event → List QueryVerdict × v.Db × v.Db
  unfolding diff is_execution classify_unattributable param_strings
  audit_event row_level structural_only probe restricted ev =
      if is_execution ev
      then after_diff row_level structural_only ev (diff v row_level probe restricted ev)
      else ([], probe, restricted)

  -- The loop over the events of an audit, on the connections to the probe database.
  unfoldable pub audit_events :
      List Relation → List Relation → v.Db → v.Db → List Event → List QueryVerdict × v.Db × v.Db
  unfolding audit_event
  audit_events row_level structural_only probe restricted [] = ([], probe, restricted)
  audit_events row_level structural_only probe restricted (ev ∷ evs) =
      let (qs, probe', restricted') = audit_event row_level structural_only probe restricted ev in
      let (later, probe'', restricted'') =
        audit_events row_level structural_only probe' restricted' evs in
      (qs ++ later, probe'', restricted'')

  module _ (d : Database) (db : d.Db) (role password : Bytes) (probe restricted : v.Db) where
    -- What follows the gate's answer; verify has no events. That no query stands in a report without a
    -- proven policy is asserted there once more, where the gate has answered that the policy is proven.
    abbrev pub after_gate : Bool → List Relation → List Event → Decision → Exit
    after_gate reported rels evs (refused e) = exits (exit_code_for e)
    after_gate reported rels evs (on_proven row_level structural_only) = finish_run reported (
        report_for rels row_level structural_only
          (audit_events row_level structural_only probe restricted evs).0)

    abbrev pub with_events : Bool → List Relation → Option (List Event) → Exit
    with_events reported rels none = exits 2
    with_events reported rels (some evs) =
        after_gate reported (scoped_of rels) evs (run_gate d db role password rels)

    abbrev pub with_policy :
        (Bytes → Option (List Event)) → Bool → Flags → Option (List Relation) → Exit
    with_policy load_events reported f none = exits 2
    with_policy load_events reported f (some rels) =
        with_events reported rels (events_of load_events f)

    -- `runGateCommand` on the flags, what the files hold, and whether the report could be reported.
    unfoldable pub run_gate_command :
        (Bytes → Option (List Relation)) → (Bytes → Option (List Event)) → Bool → Flags → Exit
    unfolding run_gate exit_code_for finish_run audit_events report_for
    run_gate_command load_policy load_events reported f =
        if equal f.dsn [] || equal f.policy []
        then exits 2
        else if not (equal f.output (codes "json") || equal f.output (codes "text"))
        then exits 2
        else with_policy load_events reported f (load_policy f.policy)
