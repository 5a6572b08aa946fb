-- ===== src/Lib.antt =====
-- A verification library for tenantguard, which finds queries of an application that cross the border
-- between tenants. It records the queries of an application from its PostgreSQL connections, proves on
-- a copy of the database that a row-level security policy withholds other tenants' rows, runs each
-- recorded query once without and once under that policy, and reports where the results differ.
--
-- The parts, in the order in which data passes them, and the files that model them:
--   * Capture (internal/capture): `Wire` reads the fields of messages, `Framer` is `framer` of
--     protocol.go and the loop of `FeedFrontend`, `Message` the body parsers of protocol.go, `Oid` is
--     `decodeBinary` of oid.go, and `Session` the state and the handlers of session.go: the record
--     `Session` has the source's fields, and `handle` and `handle_backend` one function per case.
--     `Recorder` is recorder.go and decoder.go, with the part of encoding/base64 that they use in `Base64`.
--     `Proxy` is proxy.go: `startup`, and the two loops of `handle` as a step relation.
--   * Schema (internal/schema/schema.go): `Classify`, `Candidates`, the lists and totals of a policy,
--     in `Array` the scanner of array literals, and in `Infer` the loop over the catalog's rows.
--   * Oracle (internal/oracle): `Literal`, `Plan`, `Inserts` and `Seed` are probe.go, the values of the
--     canary rows, their plans, the statements that write them and `SeedCanaries`; `Checks` is `CheckA1`
--     and `CheckA4` of oracle.go, `Synthesis` `EnableRLS`, `CheckA2` and `CheckA3`, with the statements
--     for the probe and the restricted role.
--   * Gate (cmd/tenantguard/oracle_gate.go, and `ProofState` of internal/oracle/oracle.go): the decision
--     of `runOracleGate`, on what the oracle's checks answered; `Run` puts it together with the oracle;
--     `State` is `aggregateProof`, the naming of errors and the exit codes, `Dsn` the surgery on DSNs.
--   * Differ (internal/differ): `Rerun` has the read path's re-executions of differ.go, `Write` those of
--     a write with the resolution of conflicts, `Rows` the comparison of row sets, `Statement` the search
--     for a write verb, `Extract` is extract.go on the regular expressions of `Patterns` with the matcher
--     of `Regex`, `Population` is population.go, `Verdict` puts them together as `Diff` and
--     `diffWrite` do, and `Single` is tier2.go, the check of one query that is not executed a second time.
--     `Contained` is no code of the program: it tells which texts are one statement on rows.
--   * Guardrail (internal/guardrail): the wrapper of a database that makes this check of each query.
--   * Report (cmd/tenantguard/main.go and ceiling.go): the totals over the verdicts, the rates and the
--     ceiling on one of them; `Audit` is `runGateCommand`, the commands verify and audit, which puts the
--     gate, `Diff` and the totals together.
--   * Triage (internal/triage/triage.go), which needs no database: `Shape` tells which texts are
--     statements and of which table, the part's own file collects them from .sql and .go files and has
--     `classifyTables`, and `Rank` the suspicions, their ranking and the report of `Run`.
--   * Base: what all of them share.
-- A part's own file has its definitions; its child modules, named for what they show, have the
-- theorems, and its child Tests runs them on concrete inputs.
--
-- Numbers are natural numbers; a field of a message is bounded by its width where a theorem needs it,
-- and a Go string is the list of its bytes. A Go map is an association list, a Go error a value. A
-- handler takes the state and returns the new one. The connection's lock makes an execution a sequence
-- of whole calls, which the lists of inputs stand for in whatever order.
--
-- Some recursions have fuel: the loop over a buffer and a connection's startup take the length and one
-- more, the searches for a write verb and for the names of CTEs and the nesting of array types the length
-- of the text and one more, and a repetition in a regular expression, the search for all its matches and
-- the named queries of a file, each of which passes a byte at least, the length of the text.
--
-- What the code asks of others is a parameter: the database server with database/sql is the record
-- `Server`, of the calls that the differ makes, and what is relied on of it the record `Isolation`, which
-- is about the rows of tables and one statement on rows, not about other texts and not about sequences; the
-- rendering of floats and times by strconv and time is the record `Rendering`; the probe database is the
-- record `Probe` where it is seeded and `Database`, which extends it, where it is checked, and what the
-- checks answered the record `Oracle`; what encoding/json makes of a string is an argument.
--
-- Not modelled: the proxy's listener and sockets, the JSON text of the recorder's file and of a policy,
-- the queries of the catalog, the parsing of flags, the printing of reports and the texts of reasons,
-- which are input and output; the walk over a repository's files and go/parser, whose results the triage
-- takes.
pub mod Base
pub mod Capture
pub mod Differ
pub mod Schema
pub mod Gate
pub mod Oracle
pub mod Triage
pub mod Report
pub mod Guardrail
