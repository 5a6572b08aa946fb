-- ===== src/Differ/Write/Classify.antt =====
-- The conflict that the unrestricted re-execution of a write hands on.
use tenantguard.Base.{
  List, Option, [], arith, length, map, none, refl, some, suc, zero, ℕ, ◌∷◌, ◌≡◌,
}
use tenantguard.Base.Bytes.{Bytes}
use tenantguard.Differ.Rerun.{Answer, Failure, Server, ServerError, done, failed}
use tenantguard.Differ.Rows.{Cell}
use tenantguard.Differ.Write.{
  Written, attempts, collided, delete_conflicting_row, delete_statement, exec_rolled_back, executed,
  max_conflict_retries, removed, restored, rollback_to_savepoint, saved, savepoint, write_after,
  write_known, write_removed, written,
}
use tenantguard.Differ.Write.Conflict.{
  ConflictKey, as_conflict_key, keyed, keyed_from, no_conflict, parse_duplicate_key_detail,
  same_count,
}

abbrev pub Paired : ConflictKey → Type 0
Paired ck = length ck.cols ≡ length ck.vals

parsed-Paired :
    (detail : Bytes) (cols vals : List Bytes)
    → parse_duplicate_key_detail detail ≡ some (cols, vals)
    → length cols ≡ length vals
unfolding parse_duplicate_key_detail same_count
parsed-Paired detail cols vals e = ground arith

abbrev AnyPaired : Option ConflictKey → Type 0
AnyPaired none = Unit
AnyPaired (some ck) = Paired ck

keyed-AnyPaired :
    (pq : ServerError) (o : Option (List Bytes × List Bytes))
    → ((cols vals : List Bytes) → o ≡ some (cols, vals) → length cols ≡ length vals)
    → AnyPaired (keyed pq o)
keyed-AnyPaired pq none h = tt
keyed-AnyPaired pq (some (cols, vals)) h = h cols vals refl

tested-AnyPaired : (e : Option ServerError) → AnyPaired (keyed_from e)
tested-AnyPaired none = tt
tested-AnyPaired (some pq) =
    keyed-AnyPaired pq _ (λ cols vals. ground (arith, parsed-Paired pq.detail cols vals))

as_conflict_key-AnyPaired : (e : Failure) → AnyPaired (as_conflict_key e)
unfolding as_conflict_key
as_conflict_key-AnyPaired e = tested-AnyPaired e.server

-- `Inv` is kept by the statement and by those of the differ's own that it runs around it.
pub record Preserves (v : Server) (sql : Bytes) (args : List Cell) (Inv : v.Tx → Type 0)
    : Type 0 where
  pub by_statement : (tx : v.Tx) → Inv tx → Inv (v.exec tx sql args).1
  pub by_savepoint : (tx : v.Tx) → Inv tx → Inv (v.exec tx savepoint []).1
  pub by_rollback_to : (tx : v.Tx) → Inv tx → Inv (v.exec tx rollback_to_savepoint []).1
  pub by_removal :
      (ck : ConflictKey) (tx : v.Tx)
      → Inv tx
      → Inv (v.exec tx (delete_statement ck) (map some ck.vals)).1

module _ (v : Server) (sql : Bytes) (args : List Cell) (Inv : v.Tx → Type 0)
    (kept : Preserves v sql args Inv) where
  -- The conflict and the transaction that a write's outcome hands on.
  abbrev HandsSound : Written v → Type 0
  HandsSound (answer, ck, tx) = Paired ck × Inv tx

  module _ (next : ConflictKey → v.Tx → Written v)
      (later : (ck : ConflictKey) (tx : v.Tx) → Paired ck → Inv tx → HandsSound (next ck tx))
      (resolved : ConflictKey) (p : Paired resolved) where
    removed-Sound :
        (e : Failure) (ck : ConflictKey) (r : Answer ℕ × v.Tx)
        → Paired ck
        → Inv r.1
        → HandsSound (removed v e resolved (next ck) r)
    unfolding removed
    removed-Sound e ck (failed f, tx) q i = (p, i)
    removed-Sound e ck (done zero, tx) q i = (p, i)
    removed-Sound e ck (done (suc n), tx) q i = later ck tx q i

    collided-Sound :
        (e : Failure) (tx : v.Tx) (o : Option ConflictKey)
        → AnyPaired o
        → Inv tx
        → HandsSound (collided v e resolved next tx o)
    unfolding collided delete_conflicting_row
    collided-Sound e tx none q i = (p, i)
    collided-Sound e tx (some ck) q i =
        removed-Sound e ck (delete_conflicting_row v ck tx) q (kept.by_removal ck tx i)

    restored-Sound :
        (e : Failure) (r : Answer (Answer ℕ) × v.Tx)
        → Inv r.1
        → HandsSound (restored v e resolved next r)
    unfolding restored
    restored-Sound e (failed g, tx) i = (p, i)
    restored-Sound e (done n, tx) i = collided-Sound e tx _ (as_conflict_key-AnyPaired e) i

    executed-Sound :
        (r : Answer (Answer ℕ) × v.Tx) → Inv r.1 → HandsSound (executed v resolved next r)
    unfolding executed
    executed-Sound (done n, tx) i = (p, i)
    executed-Sound (failed e, tx) i =
        restored-Sound e (v.exec tx rollback_to_savepoint []) (kept.by_rollback_to tx i)

    saved-Sound :
        (r : Answer (Answer ℕ) × v.Tx) → Inv r.1 → HandsSound (saved v sql args resolved next r)
    unfolding saved
    saved-Sound (failed f, tx) i = (p, i)
    saved-Sound (done n, tx) i = executed-Sound (v.exec tx sql args) (kept.by_statement tx i)

  pub attempts-Sound :
      (left : ℕ) (ck : ConflictKey) (tx : v.Tx)
      → Paired ck
      → Inv tx
      → HandsSound (attempts v sql args left ck tx)
  unfolding attempts
  attempts-Sound zero ck tx p i = (p, i)
  attempts-Sound (suc left) ck tx p i =
      saved-Sound _ (λ ck' tx'. attempts-Sound left ck' tx') ck p (v.exec tx savepoint [])
        (kept.by_savepoint tx i)

  write_removed-Sound : (r : Answer ℕ × v.Tx) → Inv r.1 → Inv (write_removed v sql args r).1
  unfolding write_removed
  write_removed-Sound (failed f, tx) i = i
  write_removed-Sound (done zero, tx) i = i
  write_removed-Sound (done (suc n), tx) i = kept.by_statement tx i

  write_after-Sound :
      (known : ConflictKey) (cols : List Bytes) (tx : v.Tx)
      → Inv tx
      → Inv (write_after v sql args known cols tx).1
  unfolding write_after delete_conflicting_row
  write_after-Sound known [] tx i = kept.by_statement tx i
  write_after-Sound known (_ ∷ _) tx i =
      write_removed-Sound (delete_conflicting_row v known tx) (kept.by_removal known tx i)

  pub write_known-Sound :
      (known : ConflictKey) (tx : v.Tx) → Inv tx → Inv (write_known v sql args known tx).1
  unfolding write_known
  write_known-Sound known tx i = write_after-Sound known known.cols tx i

module _ (v : Server) where
  written-Paired :
      (db : v.Db) (sql : Bytes) (args : List Cell) (begun : Answer v.Tx)
      → Paired (written v db sql args begun).1
  unfolding written
  written-Paired db sql args (failed f) = refl
  written-Paired db sql args (done tx) =
      (attempts-Sound v sql args (λ _. Unit)
        (record {
          by_statement = λ tx i. tt;
          by_savepoint = λ tx i. tt;
          by_rollback_to = λ tx i. tt;
          by_removal = λ ck tx i. tt;
        })
        max_conflict_retries no_conflict tx refl tt).0

  -- The conflict that the unrestricted re-execution of a write hands to the restricted one has a
  -- value for each of its columns, so that its DELETE has an argument for each placeholder.
  pub exec_rolled_back-Paired :
      (db : v.Db) (sql : Bytes) (args : List Cell) → Paired (exec_rolled_back v db sql args).1
  unfolding exec_rolled_back
  exec_rolled_back-Paired db sql args = written-Paired db sql args (v.begin db)
