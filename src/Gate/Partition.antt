-- ===== src/Gate/Partition.antt =====
-- Which relations the gate hands to the differ.
use tenantguard.Base.{
  Bool, List, Option, [], arith, false, if◌then◌else◌, inl, inr, none, refl, some, subst, sym, true,
  ◌∷◌, ◌≡◌, ◌≢◌, ◌⊎◌,
}
use tenantguard.Gate.{
  Decision, Oracle, Probed, Tables, a4_failed, conclude, decide_tables, gate_scoped, gate_state,
  no_row_key, on_proven, probe_table, probe_tables, probed, refused, run_oracle_gate, seeded_from,
  skipped,
}
use tenantguard.Gate.Proof.{aggregate_proof_lem, all_pass, any_seeded, policy_proven_iff}
use tenantguard.Gate.State.{GateError, bare, policy_proven, unwrapped}
use tenantguard.Schema.{Relation, scoped_of}

-- The relation was seeded, and the checks A1 and A4 of its rows passed.
abbrev pub RowProven : Probed → Type 0
RowProven (skipped reason) = ⊥
RowProven (seeded_from source a1 a4) = (a1 ≡ none) × (a4 ≡ none)

abbrev pub WasSkipped : Probed → Type 0
WasSkipped (skipped reason) = Unit
WasSkipped (seeded_from source a1 a4) = ⊥

module _ (P : Relation → Type 0) where
  abbrev pub AllOf : List Relation → Type 0
  AllOf [] = Unit
  AllOf (r ∷ rs) = P r × AllOf rs

-- One list is the other two, each in its order.
pub data Merge : List Relation → List Relation → List Relation → Type 0 where
  merge_nil : Merge [] [] []
  merge_left :
      (r : Relation) (xs ys zs : List Relation) → Merge xs ys zs → Merge (r ∷ xs) ys (r ∷ zs)
  merge_right :
      (r : Relation) (xs ys zs : List Relation) → Merge xs ys zs → Merge xs (r ∷ ys) (r ∷ zs)

module _ (o : Oracle) where
  -- The relations of the loop's lists, where all seeded tables have passed both checks.
  abbrev Sorted : List Relation → GateError ⊎ Tables → Type 0
  Sorted rs (inl e) = Unit
  Sorted rs (inr t) =
      Merge t.row_level t.structural_only rs
      × AllOf (λ r. WasSkipped (probed o r)) t.structural_only
      × (all_pass (λ tp. tp.a1_passed) t.proofs ≡ true
          → all_pass (λ tp. tp.a4_passed) t.proofs ≡ true
          → AllOf (λ r. RowProven (probed o r)) t.row_level)
      × (any_seeded t.proofs ≡ true → t.row_level ≢ [])

  probe_table-Sorted :
      (r : Relation) (rs : List Relation) (p : Probed) (rest : GateError ⊎ Tables)
      → probed o r ≡ p
      → Sorted rs rest
      → Sorted (r ∷ rs) (probe_table r p rest)
  unfolding probe_table all_pass any_seeded
  probe_table-Sorted r rs (skipped reason) (inl e) q s = tt
  probe_table-Sorted r rs (skipped reason) (inr t) q (m, k, h, n) =
      (merge_right r _ _ _ m, (subst WasSkipped (sym q) tt, k), h, n)
  probe_table-Sorted r rs (seeded_from source a1 none) (inl e) q s = tt
  probe_table-Sorted r rs (seeded_from source a1 (some (a4_failed c))) (inl e) q s = tt
  probe_table-Sorted r rs (seeded_from source a1 (some (no_row_key c))) rest q s = tt
  probe_table-Sorted r rs (seeded_from source none none) (inr t) q (m, k, h, n) = (
    merge_left r _ _ _ m,
    k,
    (λ a b. (subst RowProven (sym q) (refl, refl), h a b)),
    λ _ e. ground arith,
  )
  probe_table-Sorted r rs (seeded_from source (some e) none) (inr t) q (m, k, h, n) =
      (merge_left r _ _ _ m, k, (λ a b. ground arith), λ _ e. ground arith)
  probe_table-Sorted r rs (seeded_from source a1 (some (a4_failed c))) (inr t) q (m, k, h, n) =
      (merge_left r _ _ _ m, k, (λ a b. ground arith), λ _ e. ground arith)

  probe_tables-Sorted : (rs : List Relation) → Sorted rs (probe_tables o rs)
  unfolding probe_tables all_pass any_seeded
  probe_tables-Sorted [] = (merge_nil, tt, (λ a b. tt), λ e. ground arith)
  probe_tables-Sorted (r ∷ rs) =
      probe_table-Sorted r rs (probed o r) (probe_tables o rs) refl (probe_tables-Sorted rs)

  -- What the gate's answer promises.
  abbrev pub Sound : List Relation → Decision → Type 0
  Sound rs (refused e) = Unit
  Sound rs (on_proven row_level structural_only) =
      (o.a2_passes ≡ true)
      × (o.a3_passes ≡ true)
      × (row_level ≢ [])
      × AllOf (λ r. RowProven (probed o r)) row_level
      × AllOf (λ r. WasSkipped (probed o r)) structural_only
      × Merge row_level structural_only rs

  conclude-Sound :
      (rs : List Relation) (t : Tables) (q : Option GateError)
      → policy_proven (gate_state o.a2_passes o.a3_passes t.proofs) ≡ q
      → Sorted rs (inr t)
      → Sound rs (conclude o.skips t q)
  unfolding conclude
  conclude-Sound rs t (some e) h s = tt
  conclude-Sound rs t none h (m, k, pass, n) =
      let all = (policy_proven_iff (gate_state o.a2_passes o.a3_passes t.proofs)).0 h in
      let sum = aggregate_proof_lem t.proofs in
      (
        all.3,
        all.5,
        n (ground (arith, all, sum)),
        pass (ground (arith, all, sum)) (ground (arith, all, sum)),
        k,
        m,
      )

  decide_tables-Sound :
      (rs : List Relation) (s : GateError ⊎ Tables)
      → Sorted rs s
      → Sound rs (decide_tables o.a2_passes o.a3_passes o.skips s)
  unfolding decide_tables
  decide_tables-Sound rs (inl e) h = tt
  decide_tables-Sound rs (inr t) h = conclude-Sound rs t _ refl h

  counted-Sound :
      (rs : List Relation) (b : Bool) (d : Decision)
      → Sound rs d
      → Sound rs (if b then d else refused (bare unwrapped))
  counted-Sound rs true d h = h
  counted-Sound rs false d h = tt

  pub gate_scoped-Sound : (rs : List Relation) → Sound rs (gate_scoped o rs)
  unfolding gate_scoped
  gate_scoped-Sound [] = tt
  gate_scoped-Sound (r ∷ rs) =
      counted-Sound (r ∷ rs) _ _ (decide_tables-Sound (r ∷ rs) _ (probe_tables-Sorted (r ∷ rs)))

  -- The gate lets the differ run only where A2 and A3 passed, with at least one relation proven by its
  -- rows. Each relation it hands over for attribution passed A1 and A4, each other one was skipped by
  -- the seeding, and together they are the scoped relations of the policy, in order.
  pub run_oracle_gate-Sound :
      (rels : List Relation) → Sound (scoped_of rels) (run_oracle_gate o rels)
  unfolding run_oracle_gate
  run_oracle_gate-Sound rels = gate_scoped-Sound (scoped_of rels)
