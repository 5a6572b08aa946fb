-- ===== src/Differ/Write.antt =====
-- internal/differ/differ.go: re-executing a write inside a transaction that is rolled back, with the
-- row that it collides with in the probe removed first.
pub mod Conflict
pub mod Classify
use tenantguard.Base.{
  List, Option, [], if◌then◌else◌, map, none, some, suc, zero, ℕ, ◌++◌, ◌+◌, ◌==◌, ◌∷◌,
}
use tenantguard.Base.Bytes.{Bytes, codes}
use tenantguard.Capture.Framer.{next}
use tenantguard.Capture.Oid.Decimal.{format_uint}
use tenantguard.Differ.Rerun.{Answer, Failure, Server, done, failed, set_tenant, wrap}
use tenantguard.Differ.Rows.{Cell}
use tenantguard.Differ.Write.Conflict.{ConflictKey, as_conflict_key, no_conflict}

abbrev double_quote : ℕ
double_quote = 34

unfoldable pub replace_quotes : Bytes → Bytes
replace_quotes [] = []
replace_quotes (c ∷ cs) =
    let rest = replace_quotes cs in
    if c == double_quote then double_quote ∷ double_quote ∷ rest else c ∷ rest

-- `quoteIdent`
unfoldable pub quote_ident : Bytes → Bytes
unfolding replace_quotes
quote_ident s = double_quote ∷ replace_quotes s ++ double_quote ∷ []

-- `where[i]`, for the columns from position i on, joined by " AND ".
unfoldable where_from : ℕ → List Bytes → Bytes
unfolding quote_ident
where_from i [] = []
where_from i (c ∷ []) = quote_ident c ++ codes " = $" ++ format_uint (i + 1)
where_from i (c ∷ d ∷ cs) =
    quote_ident c
    ++ codes " = $"
    ++ format_uint (i + 1)
    ++ codes " AND "
    ++ where_from (i + 1) (d ∷ cs)

unfoldable pub delete_statement : ConflictKey → Bytes
unfolding where_from quote_ident
delete_statement ck =
    codes "DELETE FROM "
    ++ quote_ident ck.schema
    ++ b'.' ∷ quote_ident ck.table
    ++ codes " WHERE "
    ++ where_from 0 ck.cols

-- `return res.RowsAffected()` after an ExecContext
unfoldable pub flat : Answer (Answer ℕ) → Answer ℕ
flat (failed f) = failed f
flat (done answer) = answer

-- maxConflictRetries
abbrev pub max_conflict_retries : ℕ
max_conflict_retries = 3

abbrev pub savepoint : Bytes
savepoint = codes "SAVEPOINT tgd_conflict_retry"

abbrev pub rollback_to_savepoint : Bytes
rollback_to_savepoint = codes "ROLLBACK TO SAVEPOINT tgd_conflict_retry"

-- `res.RowsAffected()`, with the error that the caller makes of its failure.
unfoldable pub affected : Answer ℕ → Answer ℕ
affected (failed f) = failed (wrap (codes "rows affected: ") f)
affected (done n) = done n

abbrev pub exec_failed : Failure → Failure
exec_failed e = wrap (codes "exec: ") e

-- Both errors' texts; only the first is wrapped.
abbrev pub rollback_failed : Failure → Failure → Failure
rollback_failed e g = record e {
  text =
      codes "exec: "
      ++ e.text
      ++ codes " (rollback to savepoint also failed: "
      ++ g.text
      ++ codes ")";
}

abbrev pub gave_up : Failure
gave_up = record {
  text = codes "exec: gave up after 3 colliding rows in one statement";
  server = none;
}

-- The restricted role may not remove the row that the write collides with.
abbrev pub not_admitted : Failure
not_admitted = record {
  text =
      codes
        "exec: restricted role's policy did not admit the pre-existing conflicting row for removal (delete affected 0 rows, or failed)";
  server = none;
}

module _ (v : Server) where
  unfoldable pub delete_conflicting_row : ConflictKey → v.Tx → Answer ℕ × v.Tx
  unfolding delete_statement flat
  delete_conflicting_row ck tx =
      let (answer, tx') = v.exec tx (delete_statement ck) (map some ck.vals) in (flat answer, tx')

  abbrev pub Written : Type 0
  Written = Answer ℕ × ConflictKey × v.Tx

  -- The pieces of the loop's body, from its end, on the answers that they test. `next` is the
  -- following iteration.
  unfoldable pub removed : Failure → ConflictKey → (v.Tx → Written) → Answer ℕ × v.Tx → Written
  removed e resolved next (failed _, tx) = (failed (exec_failed e), resolved, tx)
  removed e resolved next (done zero, tx) = (failed (exec_failed e), resolved, tx)
  removed e resolved next (done (suc _), tx) = next tx

  unfoldable pub collided :
      Failure → ConflictKey → (ConflictKey → v.Tx → Written) → v.Tx → Option ConflictKey → Written
  unfolding removed delete_conflicting_row
  collided e resolved next tx none = (failed (exec_failed e), resolved, tx)
  collided e resolved next tx (some ck) =
      removed e resolved (next ck) (delete_conflicting_row ck tx)

  unfoldable pub restored :
      Failure → ConflictKey → (ConflictKey → v.Tx → Written) → Answer (Answer ℕ) × v.Tx → Written
  unfolding collided
  restored e resolved next (failed g, tx) = (failed (rollback_failed e g), resolved, tx)
  restored e resolved next (done _, tx) = collided e resolved next tx (as_conflict_key e)

  unfoldable pub executed :
      ConflictKey → (ConflictKey → v.Tx → Written) → Answer (Answer ℕ) × v.Tx → Written
  unfolding restored affected
  executed resolved next (done n, tx) = (affected n, resolved, tx)
  executed resolved next (failed e, tx) =
      restored e resolved next (v.exec tx rollback_to_savepoint [])

  unfoldable pub saved :
      Bytes
      → List Cell
      → ConflictKey
      → (ConflictKey → v.Tx → Written)
      → Answer (Answer ℕ) × v.Tx
      → Written
  unfolding executed
  saved sql args resolved next (failed f, tx) =
      (failed (wrap (codes "savepoint: ") f), resolved, tx)
  saved sql args resolved next (done _, tx) = executed resolved next (v.exec tx sql args)

  -- The loop of `execRolledBack`, with the attempts that are left.
  unfoldable pub attempts : Bytes → List Cell → ℕ → ConflictKey → v.Tx → Written
  unfolding saved
  attempts sql args zero resolved tx = (failed gave_up, resolved, tx)
  attempts sql args (suc left) resolved tx =
      saved sql args resolved (λ ck tx'. attempts sql args left ck tx') (v.exec tx savepoint [])

  -- ExecContext and RowsAffected, with the prefixes of their errors.
  abbrev pub attempt_once : Bytes → List Cell → v.Tx → Answer ℕ × v.Tx
  attempt_once sql args tx =
      let (answer, tx') = v.exec tx sql args in
      (elim answer [ failed e ↦ failed (exec_failed e) | done n ↦ affected n ], tx')

  unfoldable pub written : v.Db → Bytes → List Cell → Answer v.Tx → Answer ℕ × ConflictKey × v.Db
  unfolding attempts
  written db sql args (failed f) = (failed (wrap (codes "begin: ") f), no_conflict, db)
  written db sql args (done tx) =
      let (answer, ck, tx') = attempts sql args max_conflict_retries no_conflict tx in
      (answer, ck, v.rollback tx')

  -- `execRolledBack`
  unfoldable pub exec_rolled_back : v.Db → Bytes → List Cell → Answer ℕ × ConflictKey × v.Db
  unfolding written
  exec_rolled_back db sql args = written db sql args (v.begin db)

  unfoldable pub write_removed : Bytes → List Cell → Answer ℕ × v.Tx → Answer ℕ × v.Tx
  unfolding affected
  write_removed sql args (failed _, tx) = (failed not_admitted, tx)
  write_removed sql args (done zero, tx) = (failed not_admitted, tx)
  write_removed sql args (done (suc _), tx) = attempt_once sql args tx

  unfoldable pub write_after : Bytes → List Cell → ConflictKey → List Bytes → v.Tx → Answer ℕ × v.Tx
  unfolding write_removed delete_conflicting_row
  write_after sql args known [] tx = attempt_once sql args tx
  write_after sql args known (_ ∷ _) tx = write_removed sql args (delete_conflicting_row known tx)

  -- After `set_config` and BeginTx: the known conflict is removed first, without a savepoint.
  unfoldable pub write_known : Bytes → List Cell → ConflictKey → v.Tx → Answer ℕ × v.Tx
  unfolding write_after
  write_known sql args known tx = write_after sql args known known.cols tx

  unfoldable pub write_in : v.Db → Bytes → List Cell → ConflictKey → Answer v.Tx → Answer ℕ × v.Db
  unfolding write_known
  write_in conn sql args known (failed f) = (failed (wrap (codes "begin: ") f), conn)
  write_in conn sql args known (done tx) =
      let (answer, tx') = write_known sql args known tx in (answer, v.rollback tx')

  unfoldable pub write_as :
      Bytes → List Cell → ConflictKey → Option Failure × v.Db → Answer ℕ × v.Db
  unfolding write_in
  write_as sql args known (some f, conn) = (failed (wrap (codes "set tenant: ") f), v.release conn)
  write_as sql args known (none, conn) =
      let (answer, conn') = write_in conn sql args known (v.begin conn) in (answer, v.release conn')

  unfoldable pub acquired_write :
      v.Db → Bytes → Bytes → List Cell → ConflictKey → Answer v.Db → Answer ℕ × v.Db
  unfolding write_as
  acquired_write db tenant sql args known (failed f) =
      (failed (wrap (codes "acquire connection: ") f), db)
  acquired_write db tenant sql args known (done conn) =
      write_as sql args known (v.exec_on conn set_tenant (some tenant ∷ []))

  -- `execRolledBackAsTenant`
  unfoldable pub exec_rolled_back_as_tenant :
      v.Db → Bytes → Bytes → List Cell → ConflictKey → Answer ℕ × v.Db
  unfolding acquired_write
  exec_rolled_back_as_tenant db tenant sql args known =
      acquired_write db tenant sql args known (v.acquire db)
