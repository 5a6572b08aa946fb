-- ===== src/Differ/Verdict/Refused.antt =====
-- What the re-executions must have answered for a verdict to be reached.
use tenantguard.Base.{List, [], refl, suc, zero, ℕ, ◌∷◌, ◌≡◌, ◌≢◌}
use tenantguard.Base.Bytes.{Bytes, codes, contains, starts_with}
use tenantguard.Differ.Rerun.{
  Answer, Server, done, failed, run_rolled_back, run_rolled_back_as_tenant,
}
use tenantguard.Differ.Rows.{Cell}
use tenantguard.Differ.Verdict.{
  classify_write, diff_read, is_row_security_violation, read_compared, read_second, unattributable,
}
use tenantguard.Differ.Write.{
  delete_conflicting_row, not_admitted, write_after, write_known, write_removed,
}
use tenantguard.Differ.Write.Conflict.{ConflictKey}

-- The DELETE of the known conflict failed, or removed no row.
abbrev pub Refused : Answer ℕ → Type 0
Refused (failed f) = Unit
Refused (done zero) = Unit
Refused (done (suc n)) = ⊥

module _ (v : Server) where
  not_admitted_lem :
      (tenant : Bytes) (n : ℕ)
      → (classify_write tenant n (failed not_admitted)).verdict ≡ unattributable
  unfolding classify_write is_row_security_violation contains codes starts_with
  not_admitted_lem tenant n = refl

  write_removed-Refused :
      (tenant sql : Bytes) (args : List Cell) (n : ℕ) (r : Answer ℕ × v.Tx)
      → Refused r.0
      → (classify_write tenant n (write_removed v sql args r).0).verdict ≡ unattributable
  unfolding write_removed
  write_removed-Refused tenant sql args n (failed f, tx) h = not_admitted_lem tenant n
  write_removed-Refused tenant sql args n (done zero, tx) h = not_admitted_lem tenant n
  write_removed-Refused tenant sql args n (done (suc m), tx) h = elim h [ ]

  write_after-Refused :
      (tenant sql : Bytes) (args : List Cell) (n : ℕ) (known : ConflictKey) (cols : List Bytes)
      (tx : v.Tx)
      → cols ≢ []
      → Refused (delete_conflicting_row v known tx).0
      → (classify_write tenant n (write_after v sql args known cols tx).0).verdict ≡ unattributable
  unfolding write_after
  write_after-Refused tenant sql args n known [] tx c h = elim (c refl) [ ]
  write_after-Refused tenant sql args n known (_ ∷ _) tx c h =
      write_removed-Refused tenant sql args n _ h

  -- A write that collides with a row of the probe which the restricted role may not remove is
  -- UNATTRIBUTABLE, neither SAFE nor LEAK: the text of the refusal is not taken for a rejection by
  -- row-level security.
  pub write_known-Refused :
      (tenant sql : Bytes) (args : List Cell) (n : ℕ) (known : ConflictKey) (tx : v.Tx)
      → known.cols ≢ []
      → Refused (delete_conflicting_row v known tx).0
      → (classify_write tenant n (write_known v sql args known tx).0).verdict ≡ unattributable
  unfolding write_known
  write_known-Refused tenant sql args n known tx =
      write_after-Refused tenant sql args n known known.cols tx

  -- The re-execution came to its end.
  abbrev pub Ended {ℓ} : {A : Type ℓ} → Answer A → Type 0
  Ended (failed f) = ⊥
  Ended (done a) = Unit

  read_compared-Ended :
      (tenant : Bytes) (rows : List Bytes) (a : Answer (List Bytes))
      → (read_compared v tenant rows a).verdict ≢ unattributable
      → Ended a
  unfolding read_compared
  read_compared-Ended tenant rows (failed f) h = h refl
  read_compared-Ended tenant rows (done rs) h = tt

  read_second-Ended :
      (restricted : v.Db) (tenant sql : Bytes) (args : List Cell) (r : Answer (List Bytes) × v.Db)
      → (read_second v restricted tenant sql args r).0.verdict ≢ unattributable
      → Ended r.0 × Ended (run_rolled_back_as_tenant v restricted tenant sql args).0
  unfolding read_second
  read_second-Ended restricted tenant sql args (failed f, p) h = elim (h refl) [ ]
  read_second-Ended restricted tenant sql args (done rows, p) h =
      (tt, read_compared-Ended tenant rows _ h)

  -- A read gets a verdict SAFE or LEAK only when both re-executions came to their end.
  pub read_verdict-Ended :
      (probe restricted : v.Db) (tenant sql : Bytes) (args : List Cell)
      → (diff_read v probe restricted tenant sql args).0.verdict ≢ unattributable
      → Ended (run_rolled_back v probe sql args).0
        × Ended (run_rolled_back_as_tenant v restricted tenant sql args).0
  unfolding diff_read
  read_verdict-Ended probe restricted tenant sql args =
      read_second-Ended restricted tenant sql args (run_rolled_back v probe sql args)
