-- ===== src/Gate/Proof.antt =====
-- What `PolicyProven` and `aggregateProof` accept.
use tenantguard.Base.{
  Bool, List, [], arith, false, if◌then◌else◌, none, not, true, ◌&&◌, ◌||◌, ◌↔◌, ◌∷◌, ◌≡◌,
}
use tenantguard.Gate.State.{
  ProofState, TableProof, add_proof, aggregate_from, aggregate_proof, nothing_run, policy_proven,
}

-- A policy is proven exactly when each of A1, A2, A3 and A4 was run and passed.
pub policy_proven_iff :
    (p : ProofState)
    → (policy_proven p ≡ none) ↔ (
        (p.a1_checked ≡ true)
        × (p.a1_passed ≡ true)
        × (p.a2_checked ≡ true)
        × (p.a2_passed ≡ true)
        × (p.a3_checked ≡ true)
        × (p.a3_passed ≡ true)
        × (p.a4_checked ≡ true)
        × (p.a4_passed ≡ true))
unfolding policy_proven
policy_proven_iff p = ground arith

unfoldable pub any_seeded : List TableProof → Bool
any_seeded [] = false
any_seeded (tp ∷ tps) = tp.seeded || any_seeded tps

-- Every table that was seeded passed the check.
unfoldable pub all_pass : (TableProof → Bool) → List TableProof → Bool
all_pass passed [] = true
all_pass passed (tp ∷ tps) = (not tp.seeded || passed tp) && all_pass passed tps

-- The state so far is the one of some tables, all of whose A1 and A4 results are counted together.
abbrev Aligned : ProofState → Type 0
Aligned p = p.a4_checked ≡ p.a1_checked

aggregate_from_lem :
    (p : ProofState) (tps : List TableProof)
    → Aligned p
    → let q = aggregate_from p tps in
      (q.a1_checked ≡ (p.a1_checked || any_seeded tps))
      × (q.a4_checked ≡ (p.a1_checked || any_seeded tps))
      × (q.a1_passed ≡ (
          if p.a1_checked
          then p.a1_passed && all_pass (λ tp. tp.a1_passed) tps
          else if any_seeded tps
          then all_pass (λ tp. tp.a1_passed) tps
          else p.a1_passed))
      × (q.a4_passed ≡ (
          if p.a1_checked
          then p.a4_passed && all_pass (λ tp. tp.a4_passed) tps
          else if any_seeded tps
          then all_pass (λ tp. tp.a4_passed) tps
          else p.a4_passed))
unfolding aggregate_from any_seeded all_pass
aggregate_from_lem p [] al = ground arith
aggregate_from_lem p (tp ∷ tps) al =
    ground (arith, aggregate_from_lem (if tp.seeded then add_proof tp p else p) tps)

-- The tables' results count as run as soon as one table was seeded, and as passed exactly when, in
-- addition, every seeded table passed; a table that was not seeded changes nothing. A2 and A3 are
-- left as not run.
pub aggregate_proof_lem :
    (tps : List TableProof)
    → let q = aggregate_proof tps in
      (q.a1_checked ≡ any_seeded tps)
      × (q.a4_checked ≡ any_seeded tps)
      × (q.a1_passed ≡ (any_seeded tps && all_pass (λ tp. tp.a1_passed) tps))
      × (q.a4_passed ≡ (any_seeded tps && all_pass (λ tp. tp.a4_passed) tps))
unfolding aggregate_proof
aggregate_proof_lem tps = ground (arith, aggregate_from_lem nothing_run tps)
