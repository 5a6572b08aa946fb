-- ===== src/Oracle/Ledger.antt =====
-- internal/oracle/probe.go: what `SeedCanaries` reports, and the count that runOracleGate checks.
use tenantguard.Base.{List, Option, [], arith, length, map, none, some, subst, ◌+◌, ◌∷◌, ◌≡◌}
use tenantguard.Base.Bytes.{Bytes, codes}
use tenantguard.Differ.Rerun.{Failure, done}
use tenantguard.Oracle.Seed.{
  Ledger, Probe, Turn, after_connect, enter, once_connected, seed, seed_all, seed_canaries,
  seed_relation, skip,
}
use tenantguard.Schema.{Relation, qualified}

-- The tables of a list are those of two others, each in one of them, in their order.
pub data Interleaved : List Bytes → List Bytes → List Bytes → Type 0 where
  both_end : Interleaved [] [] []
  to_first :
      {x : Bytes} {xs ys zs : List Bytes} → Interleaved xs ys zs → Interleaved (x ∷ xs) (x ∷ ys) zs
  to_second :
      {x : Bytes} {xs ys zs : List Bytes} → Interleaved xs ys zs → Interleaved (x ∷ xs) ys (x ∷ zs)

abbrev pub tables : List (Bytes × Bytes) → List Bytes
tables entries = map (λ e. e.0) entries

abbrev pub Accounts : List Relation → Ledger → Type 0
Accounts rels l = Interleaved (map qualified rels) (tables l.seeded) (tables l.skipped)

Accounts-enter :
    (r : Relation) (rels : List Relation) (t : Turn) (l : Ledger)
    → Accounts rels l
    → Accounts (r ∷ rels) (enter r t l)
Accounts-enter r rels (skip reason) l h = to_second h
Accounts-enter r rels (seed source) l h = to_first h

pub length-Interleaved :
    {xs ys zs : List Bytes} → Interleaved xs ys zs → length ys + length zs ≡ length xs
length-Interleaved both_end = omega arith
length-Interleaved (to_first h) = omega (arith, length-Interleaved h)
length-Interleaved (to_second h) = omega (arith, length-Interleaved h)

module _ (v : Probe) where
  seed_all-Accounts : (db : v.Db) (rels : List Relation) → Accounts rels (seed_all v db rels).0
  unfolding seed_all
  seed_all-Accounts db [] = both_end
  seed_all-Accounts db (r ∷ rels) =
      Accounts-enter r rels (seed_relation v db r).0 _
        (seed_all-Accounts (seed_relation v db r).1 rels)

  after_connect-Accounts :
      (rels : List Relation) (run : Ledger × v.Db) (ready : Option Failure × v.Db) (l : Ledger)
      → Accounts rels run.0
      → (after_connect v run ready).0 ≡ done l
      → Accounts rels l
  after_connect-Accounts rels run (some f, db) l h e = cc
  after_connect-Accounts rels run (none, db) l h e = subst (Accounts rels) (cc) h

  once_connected-Accounts :
      (db : v.Db) (rels : List Relation) (o : Option Failure) (l : Ledger)
      → (once_connected v db rels o).0 ≡ done l
      → Accounts rels l
  once_connected-Accounts db rels (some f) l e = cc
  once_connected-Accounts db rels none l e =
      let ready = v.exec db (codes "SET session_replication_role = replica") in
      after_connect-Accounts rels (seed_all v ready.1 rels) ready l (seed_all-Accounts ready.1 rels)
        e

  -- Where SeedCanaries returns no error, each relation is reported once, as seeded or as skipped, and
  -- both lists keep the order of the relations, whatever the database answers.
  pub seed_canaries-Accounts :
      (db : v.Db) (rels : List Relation) (l : Ledger)
      → (seed_canaries v db rels).0 ≡ done l
      → Accounts rels l
  unfolding seed_canaries
  seed_canaries-Accounts db rels l e = once_connected-Accounts db rels (v.connect db) l e
