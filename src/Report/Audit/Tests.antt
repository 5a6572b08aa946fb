-- ===== src/Report/Audit/Tests.antt =====
-- An audit of two events on small databases.
use tenantguard.Oracle.Checks
use tenantguard.Base.{List, Option, [], inl, inr, map, refl, some, true, ◌∷◌, ◌≡◌}
use tenantguard.Base.Assoc.{insert, lookup}
use tenantguard.Base.Bytes.{Bytes, codes, equal, starts_with}
use tenantguard.Capture.Oid.Decimal.{digits_onto, format_uint}
use tenantguard.Capture.Session.{Event, kind_close}
use tenantguard.Differ.Contained.{is_contained}
use tenantguard.Differ.Extract.{alias_stop_words}
use tenantguard.Differ.Samples.{delete_row, isolation, orders, server, write_event}
use tenantguard.Differ.Statement.{skip_space}
use tenantguard.Differ.Verdict.{safe}
use tenantguard.Differ.Write.{exec_rolled_back, exec_rolled_back_as_tenant, quote_ident}
use tenantguard.Gate.{gate_scoped, probed}
use tenantguard.Gate.Run.{run_gate}
use tenantguard.Gate.State.{policy_proven}
use tenantguard.Oracle.Checks.{tenant_canary_text}
use tenantguard.Oracle.Literal.{samples}
use tenantguard.Oracle.SmallDatabase.{seeded_orders, small_database}
use tenantguard.Oracle.Synthesis.{check_a2, check_a3}
use tenantguard.Report.Audit.{Exit, Flags, audit_events, events_of, is_execution, run_gate_command}
use tenantguard.Report.Audit.Kept.{audit_events-Kept}
use tenantguard.Report.Audit.Supported.{Justified, run_gate_command-Justified}
use tenantguard.Schema.{Relation, is_in, qualified, scoped_of}

abbrev flags : Flags
flags = record {
  is_audit = true;
  dsn = codes "postgres://localhost/app";
  policy = codes "policy.json";
  output = codes "json";
  events = codes "events.jsonl";
}

abbrev small_policy : Bytes → Option (List Relation)
small_policy path = some (seeded_orders ∷ [])

abbrev captured : List Event
captured = record write_event { kind = kind_close } ∷ write_event ∷ []

abbrev outcome : Exit
outcome =
    run_gate_command (server 1) small_database 0 (codes "r") (codes "pw") true true small_policy
      (λ path. some captured) true flags

-- The event that closes a statement is in no report.
audited_test :
    map (λ q. q.counted.verdict) (audit_events (server 1) (orders ∷ []) [] true true captured).0
    ≡ safe ∷ []
unfolding audit_events codes delete_row is_in equal alias_stop_words starts_with exec_rolled_back
    exec_rolled_back_as_tenant
audited_test = refl

outcome_code : outcome.exit_code ≡ 0
unfolding run_gate_command run_gate gate_scoped codes samples lookup insert equal format_uint
    digits_onto quote_ident qualified scoped_of probed policy_proven tenant_canary_text
    Checks.check_a4 Checks.check_a1 check_a2 check_a3 delete_row alias_stop_words starts_with
    exec_rolled_back exec_rolled_back_as_tenant
outcome_code = refl

no_output_format :
    (run_gate_command
      (server 1)
      small_database
      0
      (codes "r")
      (codes "pw")
      true
      true
      small_policy
      (λ path. some captured)
      true
      (record flags { output = codes "xml" })).exit_code
    ≡ 2
unfolding run_gate_command codes equal
no_output_format = refl

run_gate_command-Justified_example :
    Justified
      (server 1)
      small_database
      0
      (codes "r")
      (codes "pw")
      (some (seeded_orders ∷ []))
      (events_of (λ path. some captured) flags)
      outcome
run_gate_command-Justified_example =
    run_gate_command-Justified (server 1) small_database 0 (codes "r") (codes "pw") true true
      small_policy (λ path. some captured) true flags

audit_events-Kept_example :
    let (_, probe, restricted) = audit_events (server 1) (orders ∷ []) [] true true captured in
    (isolation.stored probe ≡ isolation.stored true)
    × (isolation.stored restricted ≡ isolation.stored true)
unfolding is_contained delete_row codes equal is_execution skip_space starts_with
audit_events-Kept_example =
    audit_events-Kept (server 1) isolation (orders ∷ []) [] captured true true
      (inl refl, (inr refl, tt))
