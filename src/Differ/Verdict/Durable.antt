-- ===== src/Differ/Verdict/Durable.antt =====
-- What the re-executions of internal/differ/differ.go leave in the databases.
use tenantguard.Base.{
  Bool, List, Option, [], false, if◌then◌else◌, map, none, refl, some, true, ℕ, ◌∙◌, ◌∷◌, ◌≡◌,
}
use tenantguard.Base.Bytes.{Bytes}
use tenantguard.Capture.Session.{Event}
use tenantguard.Differ.Contained.{is_contained}
use tenantguard.Differ.Extract.{
  Attribution, attr_no_predicate, attr_resolved, attr_unattributable, extract_tenant,
}
use tenantguard.Differ.Rerun.{
  Answer, Failure, Server, acquired_rerun, done, failed, query_rolled_back, run_rolled_back,
  run_rolled_back_as_tenant, set_tenant, tenant_rerun,
}
use tenantguard.Differ.Rows.{Cell}
use tenantguard.Differ.Verdict.{
  Result, diff, diff_as, diff_attributed, diff_read, diff_write, read_second, unattributed,
  write_second,
}
use tenantguard.Differ.Write.{
  acquired_write, attempts, delete_statement, exec_rolled_back, exec_rolled_back_as_tenant,
  max_conflict_retries, rollback_to_savepoint, savepoint, write_as, write_in, write_known, written,
}
use tenantguard.Differ.Write.Classify.{Preserves, attempts-Sound, write_known-Sound}
use tenantguard.Differ.Write.Conflict.{ConflictKey, no_conflict}
use tenantguard.Schema.{Relation}

-- What the differ relies on of the server. `stored` is the rows of the tables as other transactions see
-- them, of which the state of sequences is no part, and `outside` the same while a transaction is open.
-- A statement that reads or writes rows changes nothing outside before its transaction commits, which
-- such a statement does not make it do, nor do a savepoint and the return to it; a rollback discards
-- what was changed; and `set_config` writes no row. Of any other text nothing is assumed. A server on
-- which a statement calls a function that writes over a connection of its own (dblink) is none of these.
pub record Isolation (v : Server) : Type 1 where
  pub Data : Type 0
  pub stored : v.Db → Data
  pub outside : v.Tx → Data
  pub begin_keeps : (db : v.Db) (tx : v.Tx) → v.begin db ≡ done tx → outside tx ≡ stored db
  pub query_keeps :
      (tx : v.Tx) (sql : Bytes) (args : List Cell)
      → is_contained sql ≡ true
      → outside (v.query tx sql args).1 ≡ outside tx
  pub exec_keeps :
      (tx : v.Tx) (sql : Bytes) (args : List Cell)
      → is_contained sql ≡ true
      → outside (v.exec tx sql args).1 ≡ outside tx
  pub savepoint_keeps : (tx : v.Tx) → outside (v.exec tx savepoint []).1 ≡ outside tx
  pub rollback_to_keeps : (tx : v.Tx) → outside (v.exec tx rollback_to_savepoint []).1 ≡ outside tx
  pub removal_keeps :
      (tx : v.Tx) (ck : ConflictKey)
      → outside (v.exec tx (delete_statement ck) (map some ck.vals)).1 ≡ outside tx
  pub rollback_keeps : (tx : v.Tx) → stored (v.rollback tx) ≡ outside tx
  pub acquire_keeps : (db conn : v.Db) → v.acquire db ≡ done conn → stored conn ≡ stored db
  pub release_keeps : (conn : v.Db) → stored (v.release conn) ≡ stored conn
  pub set_tenant_keeps :
      (conn : v.Db) (args : List Cell) → stored (v.exec_on conn set_tenant args).1 ≡ stored conn

module _ (v : Server) (w : Isolation v) (sql : Bytes) (within : is_contained sql ≡ true) where
  query-stored :
      (db : v.Db) (args : List Cell) (begun : Answer v.Tx)
      → v.begin db ≡ begun
      → w.stored (query_rolled_back v db sql args begun).1 ≡ w.stored db
  unfolding query_rolled_back
  query-stored db args (failed f) e = refl
  query-stored db args (done tx) e =
      w.rollback_keeps (v.query tx sql args).1
      ∙ w.query_keeps tx sql args within
      ∙ w.begin_keeps db tx e

  run-stored :
      (db : v.Db) (args : List Cell) → w.stored (run_rolled_back v db sql args).1 ≡ w.stored db
  unfolding run_rolled_back
  run-stored db args = query-stored db args (v.begin db) refl

  tenant_rerun-stored :
      (db : v.Db) (args : List Cell) (r : Option Failure × v.Db)
      → w.stored (tenant_rerun v db sql args r).1 ≡ w.stored r.1
  unfolding tenant_rerun
  tenant_rerun-stored db args (some f, conn) = w.release_keeps conn
  tenant_rerun-stored db args (none, conn) =
      w.release_keeps (query_rolled_back v conn sql args (v.begin conn)).1
      ∙ query-stored conn args (v.begin conn) refl

  acquired_rerun-stored :
      (db : v.Db) (tenant : Bytes) (args : List Cell) (o : Answer v.Db)
      → v.acquire db ≡ o
      → w.stored (acquired_rerun v db tenant sql args o).1 ≡ w.stored db
  unfolding acquired_rerun
  acquired_rerun-stored db tenant args (failed f) e = refl
  acquired_rerun-stored db tenant args (done conn) e =
      tenant_rerun-stored db args (v.exec_on conn set_tenant (some tenant ∷ []))
      ∙ w.set_tenant_keeps conn (some tenant ∷ [])
      ∙ w.acquire_keeps db conn e

  run_as_tenant-stored :
      (db : v.Db) (tenant : Bytes) (args : List Cell)
      → w.stored (run_rolled_back_as_tenant v db tenant sql args).1 ≡ w.stored db
  unfolding run_rolled_back_as_tenant
  run_as_tenant-stored db tenant args = acquired_rerun-stored db tenant args (v.acquire db) refl

  statement-Preserves :
      (db : v.Db) (args : List Cell) → Preserves v sql args (λ t. w.outside t ≡ w.stored db)
  statement-Preserves db args = record {
    by_statement = λ t i. w.exec_keeps t sql args within ∙ i;
    by_savepoint = λ t i. w.savepoint_keeps t ∙ i;
    by_rollback_to = λ t i. w.rollback_to_keeps t ∙ i;
    by_removal = λ ck t i. w.removal_keeps t ck ∙ i;
  }

  written-stored :
      (db : v.Db) (args : List Cell) (begun : Answer v.Tx)
      → v.begin db ≡ begun
      → w.stored (written v db sql args begun).2 ≡ w.stored db
  unfolding written
  written-stored db args (failed f) e = refl
  written-stored db args (done tx) e =
      w.rollback_keeps (attempts v sql args max_conflict_retries no_conflict tx).2
      ∙ (attempts-Sound v sql args (λ t. w.outside t ≡ w.stored db) (statement-Preserves db args)
          max_conflict_retries no_conflict tx refl (w.begin_keeps db tx e)).1

  exec-stored :
      (db : v.Db) (args : List Cell) → w.stored (exec_rolled_back v db sql args).2 ≡ w.stored db
  unfolding exec_rolled_back
  exec-stored db args = written-stored db args (v.begin db) refl

  write_in-stored :
      (db : v.Db) (args : List Cell) (known : ConflictKey) (begun : Answer v.Tx)
      → v.begin db ≡ begun
      → w.stored (write_in v db sql args known begun).1 ≡ w.stored db
  unfolding write_in
  write_in-stored db args known (failed f) e = refl
  write_in-stored db args known (done tx) e =
      w.rollback_keeps (write_known v sql args known tx).1
      ∙ write_known-Sound v sql args (λ t. w.outside t ≡ w.stored db) (statement-Preserves db args)
          known tx (w.begin_keeps db tx e)

  write_as-stored :
      (args : List Cell) (known : ConflictKey) (r : Option Failure × v.Db)
      → w.stored (write_as v sql args known r).1 ≡ w.stored r.1
  unfolding write_as
  write_as-stored args known (some f, conn) = w.release_keeps conn
  write_as-stored args known (none, conn) =
      w.release_keeps (write_in v conn sql args known (v.begin conn)).1
      ∙ write_in-stored conn args known (v.begin conn) refl

  acquired_write-stored :
      (db : v.Db) (tenant : Bytes) (args : List Cell) (known : ConflictKey) (o : Answer v.Db)
      → v.acquire db ≡ o
      → w.stored (acquired_write v db tenant sql args known o).1 ≡ w.stored db
  unfolding acquired_write
  acquired_write-stored db tenant args known (failed f) e = refl
  acquired_write-stored db tenant args known (done conn) e =
      write_as-stored args known (v.exec_on conn set_tenant (some tenant ∷ []))
      ∙ w.set_tenant_keeps conn (some tenant ∷ [])
      ∙ w.acquire_keeps db conn e

  exec_as_tenant-stored :
      (db : v.Db) (tenant : Bytes) (args : List Cell) (known : ConflictKey)
      → w.stored (exec_rolled_back_as_tenant v db tenant sql args known).1 ≡ w.stored db
  unfolding exec_rolled_back_as_tenant
  exec_as_tenant-stored db tenant args known =
      acquired_write-stored db tenant args known (v.acquire db) refl

module _ (v : Server) (w : Isolation v) where
  -- The tables of both databases hold what they held.
  abbrev pub Kept : v.Db → v.Db → Result × v.Db × v.Db → Type 0
  Kept probe restricted (result, probe', restricted') =
      (w.stored probe' ≡ w.stored probe) × (w.stored restricted' ≡ w.stored restricted)

  write_second-Kept :
      (probe restricted : v.Db) (sql : Bytes) (within : is_contained sql ≡ true) (tenant : Bytes)
      (args : List Cell) (r : Answer ℕ × ConflictKey × v.Db)
      → w.stored r.2 ≡ w.stored probe
      → Kept probe restricted (write_second v restricted tenant sql args r)
  unfolding write_second
  write_second-Kept probe restricted sql within tenant args (failed f, ck, probe') e = (e, refl)
  write_second-Kept probe restricted sql within tenant args (done n, ck, probe') e =
      (e, exec_as_tenant-stored v w sql within restricted tenant args ck)

  read_second-Kept :
      (probe restricted : v.Db) (sql : Bytes) (within : is_contained sql ≡ true) (tenant : Bytes)
      (args : List Cell) (r : Answer (List Bytes) × v.Db)
      → w.stored r.1 ≡ w.stored probe
      → Kept probe restricted (read_second v restricted tenant sql args r)
  unfolding read_second
  read_second-Kept probe restricted sql within tenant args (failed f, probe') e = (e, refl)
  read_second-Kept probe restricted sql within tenant args (done rows, probe') e =
      (e, run_as_tenant-stored v w sql within restricted tenant args)

  diff_as-Kept :
      (write : Bool) (tenant : Bytes) (probe restricted : v.Db) (sql : Bytes)
      (within : is_contained sql ≡ true) (args : Option (List Cell))
      → Kept probe restricted (diff_as v write tenant probe restricted sql args)
  unfolding diff_as diff_write diff_read
  diff_as-Kept write tenant probe restricted sql within none = (refl, refl)
  diff_as-Kept true tenant probe restricted sql within (some args) =
      write_second-Kept probe restricted sql within tenant args _
        (exec-stored v w sql within probe args)
  diff_as-Kept false tenant probe restricted sql within (some args) =
      read_second-Kept probe restricted sql within tenant args _
        (run-stored v w sql within probe args)

  diff_attributed-Kept :
      (attr : Attribution) (probe restricted : v.Db) (ev : Event)
      → is_contained ev.sql ≡ true
      → Kept probe restricted (diff_attributed v attr probe restricted ev)
  unfolding diff_attributed
  diff_attributed-Kept (attr_resolved tenant) probe restricted ev within =
      diff_as-Kept _ tenant probe restricted ev.sql within _
  diff_attributed-Kept attr_no_predicate probe restricted ev within =
      diff_as-Kept _ [] probe restricted ev.sql within _
  diff_attributed-Kept attr_unattributable probe restricted ev within = (refl, refl)

  -- `Diff` of an event whose text is one statement that reads or writes rows, with every retry, refusal
  -- and error on the way, leaves the tables of the probe database and of the restricted one with the
  -- rows that they had, on a server whose transactions discard, when they are rolled back, what such
  -- statements changed in tables. It says nothing of sequences, which a rolled back statement advances,
  -- nor of texts with several statements or with one that ends the transaction.
  pub diff-Kept :
      (rels : List Relation) (probe restricted : v.Db) (ev : Event)
      → is_contained ev.sql ≡ true
      → Kept probe restricted (diff v rels probe restricted ev)
  unfolding diff
  diff-Kept rels probe restricted ev within = resolved ev.resolved
    where
      attr : Attribution
      attr = extract_tenant rels ev.sql ev.params

      resolved :
          (b : Bool)
          → Kept probe restricted (
              if b
              then diff_attributed v attr probe restricted ev
              else (unattributed, probe, restricted))
      resolved true = diff_attributed-Kept attr probe restricted ev within
      resolved false = (refl, refl)
