-- ===== src/Triage/Run.antt =====
-- internal/triage/triage.go: what the report of `Run` holds.
use tenantguard.Base.{Bool-cases, List, [], inl, inr, ℕ, ◌+◌, ◌∷◌}
use tenantguard.Differ.Patterns.{numbered}
use tenantguard.Triage.{Statement, classify_tables}
use tenantguard.Triage.Evidence.{AllFounded, Founded, suspicions-Founded}
use tenantguard.Triage.Order.{InOrder, Numbered, rank_suspicions-Ranked}
use tenantguard.Triage.Rank.{
  SourceFile, Suspicion, insert_ranked, number_from, rank_suspicions, ranks_before, run_triage,
  scan_files, sort_stable, suspicions, with_rank,
}

insert_ranked-Founded :
    (ss : List Statement) (x : Suspicion) (xs : List Suspicion)
    → Founded ss x
    → AllFounded ss xs
    → AllFounded ss (insert_ranked x xs)
unfolding insert_ranked
insert_ranked-Founded ss x [] f h = (f, tt)
insert_ranked-Founded ss x (y ∷ ys) f (g, h) = elim (Bool-cases (ranks_before y x)) [
  | inl later ↦ rw later (g, insert_ranked-Founded ss x ys f h)
  | inr here ↦ rw here (f, (g, h))
]

sort_stable-Founded :
    (ss : List Statement) (xs : List Suspicion) → AllFounded ss xs → AllFounded ss (sort_stable xs)
unfolding sort_stable
sort_stable-Founded ss [] h = tt
sort_stable-Founded ss (x ∷ xs) (f, h) =
    insert_ranked-Founded ss x (sort_stable xs) f (sort_stable-Founded ss xs h)

-- The rank is no part of what a suspicion stands on.
with_rank-Founded :
    (ss : List Statement) (n : ℕ) (s : Suspicion) → Founded ss s → Founded ss (with_rank n s)
with_rank-Founded ss n s f = record {
  silent = f.silent;
  evident = f.evident;
  positive = f.positive;
  at_most = f.at_most;
}

number_from-Founded :
    (ss : List Statement) (n : ℕ) (xs : List Suspicion)
    → AllFounded ss xs
    → AllFounded ss (number_from n xs)
unfolding number_from
number_from-Founded ss n [] h = tt
number_from-Founded ss n (x ∷ xs) (f, h) =
    (with_rank-Founded ss n x f, number_from-Founded ss (n + 1) xs h)

rank_suspicions-Founded :
    (ss : List Statement) (xs : List Suspicion)
    → AllFounded ss xs
    → AllFounded ss (rank_suspicions xs)
unfolding rank_suspicions
rank_suspicions-Founded ss xs h =
    number_from-Founded ss 1 (sort_stable xs) (sort_stable-Founded ss xs h)

-- Each suspicion of the report that Run gives on the files is about a statement that does not mention
-- the column it names, while a statement found in these files about the same table does and has it as
-- the first of the known names; its confidence is above 0 and at most 1. Those that write
-- stand before those that only read, of these the higher confidence first, then by file and line, and
-- they are numbered from 1.
pub run_triage-Founded :
    (files : List SourceFile)
    → AllFounded (scan_files files).1 (run_triage files).found
      × InOrder (run_triage files).found
      × Numbered 1 (run_triage files).found
unfolding run_triage
run_triage-Founded files =
    let ss = (scan_files files).1 in
    let held = suspicions (classify_tables ss) ss in
    let (same, ordered, numbered) = rank_suspicions-Ranked held in
    (rank_suspicions-Founded ss held (suspicions-Founded ss ss), ordered, numbered)
