-- ===== src/Report/Audit/Supported.antt =====
-- cmd/tenantguard/main.go: what stands behind the report and the exit code of `runGateCommand`.
use tenantguard.Base.{
  Bool, Bool-cases, List, Option, [], ap, arith, if◌then◌else◌, inl, inr, length, map, none, refl,
  some, subst, suc, true, ℕ, ◌*◌, ◌+◌, ◌<◌, ◌||◌, ◌↔◌, ◌∷◌, ◌≡◌, ◌≢◌, ◌⊎◌,
}
use tenantguard.Base.Bytes.{Bytes, codes, equal}
use tenantguard.Capture.Session.{Event}
use tenantguard.Differ.Rerun.{Server}
use tenantguard.Gate.{Decision, on_proven, refused}
use tenantguard.Gate.Evidence.{Evident, run_gate-Evident}
use tenantguard.Gate.Run.{run_gate}
use tenantguard.Gate.State.{
  GateError, Sentinel, err_a1, err_a2, err_a3, err_a4, err_no_row_key, err_no_scoped_relations,
  err_seeding_skipped, exit_code_for, unwrapped,
}
use tenantguard.Oracle.Checks.{Database}
use tenantguard.Report.{Query, VerdictCounts, check_unattributable_ceiling}
use tenantguard.Report.Audit.{
  Exit, Flags, QueryVerdict, VerifyReport, after_gate, audit_event, audit_events, counts_of,
  events_of, finish_run, is_execution, rates_of, report_for, run_gate_command, with_events,
  with_policy,
}
use tenantguard.Report.Ceiling.{ceiling_iff}
use tenantguard.Report.Totals.{count_queries_lem, count_where, is_attributed, is_row_level}
use tenantguard.Schema.{Relation, scoped_of}

-- The executions among the events.
unfoldable pub executions : List Event → List Event
executions [] = []
executions (ev ∷ evs) = let rest = executions evs in if is_execution ev then ev ∷ rest else rest

-- More than 18 in 762 of the queries that the rows of a proven relation could have decided have no
-- verdict.
abbrev pub AboveCeiling : List Query → Type 0
AboveCeiling qs =
    18 * (count_where is_attributed qs + count_where is_row_level qs)
    < 762 * count_where is_row_level qs

-- The totals of n queries.
abbrev pub AddUp : Option VerdictCounts → ℕ → Type 0
AddUp none n = n ≡ 0
AddUp (some c) n = c.safes + c.leaks + c.unattributables ≡ n

abbrev pub counted_of : List QueryVerdict → List Query
counted_of qs = map (λ q. q.counted) qs

counts_of-AddUp : (qs : List Query) → AddUp (counts_of qs) (length qs)
counts_of-AddUp [] = refl
counts_of-AddUp (q ∷ qs) = (count_queries_lem (q ∷ qs)).0

length-counted : (qs : List QueryVerdict) → length (counted_of qs) ≡ length qs
length-counted [] = refl
length-counted (q ∷ qs) = ap suc (length-counted qs)

rates_of-ceiling :
    (qs : List Query) → (check_unattributable_ceiling (rates_of qs) ≡ true) ↔ AboveCeiling qs
unfolding check_unattributable_ceiling count_where
rates_of-ceiling [] = ground arith
rates_of-ceiling (q ∷ qs) = ceiling_iff (q ∷ qs)

module _ (v : Server) (row_level structural_only : List Relation) where
  audit_events-sql :
      (evs : List Event) (probe restricted : v.Db)
      → map (λ q. q.sql) (audit_events v row_level structural_only probe restricted evs).0
        ≡ map (λ ev. ev.sql) (executions evs)
  unfolding audit_events audit_event executions
  audit_events-sql [] probe restricted = refl
  audit_events-sql (ev ∷ evs) probe restricted = elim (Bool-cases (is_execution ev)) [
    | inl runs ↦ rw runs (ap (◌∷◌ ev.sql) (audit_events-sql evs _ _))
    | inr passed ↦ rw passed (audit_events-sql evs _ _)
  ]

-- The exit code of a command that printed a report on the queries.
abbrev pub ExitsBy : List Query → ℕ → Type 0
ExitsBy qs code = ((code ≡ 3) × AboveCeiling qs) ⊎ ((code ≡ 0) × (¬ AboveCeiling qs))

module _ (v : Server) (d : Database) (db : d.Db) (role password : Bytes) where
  -- What stands behind a report: the policy that was read, the events that were audited, what the gate
  -- answered for the policy and what the database showed, the figures of the report and the exit code.
  pub record Supported (policy : Option (List Relation)) (given : Option (List Event))
      (r : VerifyReport) (code : ℕ) : Type 0 where
    pub rels : List Relation
    pub read : policy ≡ some rels
    pub row_level : List Relation
    pub structural_only : List Relation
    pub proven : run_gate d db role password rels ≡ on_proven row_level structural_only
    pub evident : Evident d role (scoped_of rels) (on_proven row_level structural_only)
    pub events : List Event
    pub loaded : given ≡ some events
    pub performed : map (λ q. q.sql) r.queries ≡ map (λ ev. ev.sql) (executions events)
    pub add_up : AddUp r.totals (length r.queries)
    pub exit : ExitsBy (counted_of r.queries) code

  -- Without a report the exit code is neither that of success nor that of the ceiling.
  abbrev pub Justified : Option (List Relation) → Option (List Event) → Exit → Type 0
  Justified policy given x = elim x.report [
    | none ↦ (x.exit_code ≢ 0) × (x.exit_code ≢ 3)
    | some r ↦ Supported policy given r x.exit_code
  ]

  refused-codes : (e : GateError) → (exit_code_for e ≢ 0) × (exit_code_for e ≢ 3)
  unfolding exit_code_for
  refused-codes e = by_sentinel e.is
    where
      by_sentinel :
          (s : Sentinel)
          → let code = exit_code_for (record { is = s; named = e.named }) in (code ≢ 0) × (code ≢ 3)
      by_sentinel err_a1 = ground arith
      by_sentinel err_a2 = ground arith
      by_sentinel err_a3 = ground arith
      by_sentinel err_a4 = ground arith
      by_sentinel err_seeding_skipped = ground arith
      by_sentinel err_no_scoped_relations = ground arith
      by_sentinel err_no_row_key = ground arith
      by_sentinel unwrapped = ground arith

  ceiling-ExitsBy :
      (qs : List Query) → ExitsBy qs (if check_unattributable_ceiling (rates_of qs) then 3 else 0)
  ceiling-ExitsBy qs = elim (Bool-cases (check_unattributable_ceiling (rates_of qs))) [
    | inl above ↦ rw above (inl (refl, (rates_of-ceiling qs).0 above))
    | inr below ↦ rw below (inr (refl, λ h. let above = (rates_of-ceiling qs).1 h in cc))
  ]

  module _ (probe restricted : v.Db) (reported : Bool) (rels : List Relation) where
    proven-Justified :
        (evs : List Event) (row_level structural_only : List Relation)
        → run_gate d db role password rels ≡ on_proven row_level structural_only
        → Justified (some rels) (some evs) (
            after_gate v d db role password probe restricted reported
              (scoped_of rels)
              evs
              (on_proven row_level structural_only))
    unfolding finish_run report_for
    proven-Justified evs row_level structural_only e = elim (Bool-cases reported) [
      | inr lost ↦ rw lost (ground arith)
      | inl ok ↦ rw ok (record {
        rels = rels;
        read = refl;
        row_level = row_level;
        structural_only = structural_only;
        proven = e;
        evident =
            subst (Evident d role (scoped_of rels)) e (run_gate-Evident d db role password rels);
        events = evs;
        loaded = refl;
        performed = audit_events-sql v row_level structural_only evs probe restricted;
        add_up =
            subst (AddUp _)
              (length-counted (audit_events v row_level structural_only probe restricted evs).0)
              (counts_of-AddUp _);
        exit = ceiling-ExitsBy _;
      })
    ]

    after_gate-Justified :
        (evs : List Event) (x : Decision)
        → run_gate d db role password rels ≡ x
        → Justified
            (some rels)
            (some evs)
            (after_gate v d db role password probe restricted reported (scoped_of rels) evs x)
    after_gate-Justified evs (refused e) eq = refused-codes e
    after_gate-Justified evs (on_proven row_level structural_only) eq =
        proven-Justified evs row_level structural_only eq

    with_events-Justified :
        (o : Option (List Event))
        → Justified
            (some rels)
            o
            (with_events v d db role password probe restricted reported rels o)
    with_events-Justified none = ground arith
    with_events-Justified (some evs) =
        after_gate-Justified evs (run_gate d db role password rels) refl

  -- Where the command prints a report, the gate let the differ start on the policy that was read, with
  -- what it shows about the database, the queries of the report are the executions among the events in
  -- their order, its totals add up to their number, and the exit code is 3 if more than 18 in 762 of the
  -- queries that could be decided have no verdict, and 0 otherwise. Where it prints none, whatever the
  -- flags, the files and the gate's refusal, the exit code is neither of the two.
  pub run_gate_command-Justified :
      (probe restricted : v.Db) (load_policy : Bytes → Option (List Relation))
      (load_events : Bytes → Option (List Event)) (reported : Bool) (f : Flags)
      → Justified (load_policy f.policy) (events_of load_events f) (
          run_gate_command v d db role password probe restricted load_policy load_events reported f)
  unfolding run_gate_command
  run_gate_command-Justified probe restricted load_policy load_events reported f =
      elim (Bool-cases (equal f.dsn [] || equal f.policy [])) [
        | inl missing ↦ rw missing (ground arith)
        | inr given ↦
            rw given
              (elim (Bool-cases (equal f.output (codes "json") || equal f.output (codes "text"))) [
                | inr unknown ↦ rw unknown (ground arith)
                | inl known ↦ rw known (by_policy (load_policy f.policy))
              ])
      ]
    where
      by_policy :
          (o : Option (List Relation))
          → Justified o
              (events_of load_events f)
              (with_policy v d db role password probe restricted load_events reported f o)
      by_policy none = ground arith
      by_policy (some rels) = with_events-Justified probe restricted reported rels _
