-- ===== src/Triage/Evidence.antt =====
-- internal/triage/triage.go: what stands behind a suspicion.
use tenantguard.Base.{
  Bool-cases, List, Option, Option-cases, [], ap, arith, false, if◌then◌else◌, inl, inr, none, refl,
  some, true, ℕ, ◌++◌, ◌+◌, ◌<◌, ◌∙◌, ◌∷◌, ◌≡◌, ◌≤◌, ◌⊎◌,
}
use tenantguard.Base.Assoc.{Assoc, insert, lookup, lookup-insert}
use tenantguard.Base.Bytes.{Bytes, equal, equal_iff}
use tenantguard.Capture.Framer.{empty}
use tenantguard.Triage.{
  Statement, Tally, classify_tables, count_in, first_mentioned, keep_first, mentions_column,
  no_tally, tally_from, tally_one, tenant_column_names, with_mention,
}
use tenantguard.Triage.Rank.{Suspicion, flagged, suspicions}

-- A statement of the table mentions a tenant column, and that column first of the names.
abbrev pub Evidence : Bytes → Bytes → List Statement → Type 0
Evidence table column [] = ⊥
Evidence table column (s ∷ ss) =
    ((s.table ≡ table) × (first_mentioned s.sql tenant_column_names ≡ some column))
    ⊎ Evidence table column ss

first_mentioned-mentions :
    (sql column : Bytes) (names : List Bytes)
    → first_mentioned sql names ≡ some column
    → mentions_column sql column ≡ true
unfolding first_mentioned
first_mentioned-mentions sql column [] h = cc
first_mentioned-mentions sql column (c ∷ cs) h =
    ground (arith, first_mentioned-mentions sql column cs)

keep_first-known :
    (k j c column : Bytes) (m : Assoc Bytes)
    → lookup k (keep_first j c m) ≡ some column
    → (lookup k m ≡ some column) ⊎ ((j ≡ k) × (c ≡ column))
keep_first-known k j c column m h = elim (Option-cases (lookup j m)) [
  | inr (v, e) ↦ inl (ground (arith, e))
  | inl e ↦ elim (Bool-cases (equal j k)) [
    | inl same ↦ inr ((equal_iff j k).0 same, ground (arith, e, lookup-insert j k c m, same))
    | inr differs ↦ inl (ground (arith, e, lookup-insert j k c m, differs))
  ]
]

tally_one-known :
    (s : Statement) (t : Tally) (k column : Bytes)
    → lookup k (tally_one s t).col ≡ some column
    → (lookup k t.col ≡ some column)
      ⊎ ((s.table ≡ k) × (first_mentioned s.sql tenant_column_names ≡ some column))
unfolding tally_one
tally_one-known s t k column h = elim (Bool-cases (equal s.table [])) [
  | inl empty ↦ inl (rw empty at h)
  | inr named ↦ elim (Option-cases (first_mentioned s.sql tenant_column_names)) [
    | inl e ↦ inl (ground (arith, named, e))
    | inr (c, e) ↦
        let kept : lookup k (keep_first s.table c t.col) ≡ some column = ground (arith, named, e) in
        elim (keep_first-known k s.table c column t.col kept) [
          | inl old ↦ inl old
          | inr (same, is) ↦ inr (same, e ∙ ap some is)
        ]
  ]
]

tally_from-known :
    (ss : List Statement) (t : Tally) (k column : Bytes)
    → lookup k (tally_from t ss).col ≡ some column
    → (lookup k t.col ≡ some column) ⊎ Evidence k column ss
unfolding tally_from
tally_from-known [] t k column h = inl h
tally_from-known (s ∷ ss) t k column h = elim (tally_from-known ss (tally_one s t) k column h) [
  | inr later ↦ inr (inr later)
  | inl now ↦ elim (tally_one-known s t k column now) [
    | inl old ↦ inl old
    | inr here ↦ inr (inl here)
  ]
]

-- A table is not counted with evidence more often than it is counted, and is counted with evidence if
-- it is known.
pub record IsFair (t : Tally) (k : Bytes) : Type 0 where
  at_most : count_in k t.with_evidence ≤ count_in k t.total
  positive : (c : Bytes) → lookup k t.col ≡ some c → 0 < count_in k t.with_evidence

count_in-insert :
    (k j : Bytes) (n : ℕ) (m : Assoc ℕ)
    → count_in k (insert j n m) ≡ (if equal j k then n else count_in k m)
count_in-insert k j n m = ground (arith, lookup-insert j k n m)

module _ (table k : Bytes) (t : Tally) (f : IsFair t k) where
  abbrev counted_once : Tally
  counted_once = record t { total = insert table (count_in table t.total + 1) t.total }

  total-grows :
      count_in k counted_once.total
      ≡ (if equal table k then count_in table t.total + 1 else count_in k t.total)
  total-grows = count_in-insert k table (count_in table t.total + 1) t.total

  evidence-grows :
      (c : Bytes)
      → count_in k (with_mention table (some c) counted_once).with_evidence
        ≡ (if equal table k then count_in table t.with_evidence + 1 else count_in k t.with_evidence)
  evidence-grows c = count_in-insert k table (count_in table t.with_evidence + 1) t.with_evidence

  at_most-mention :
      (o : Option Bytes)
      → let t' = with_mention table o counted_once in
        count_in k t'.with_evidence ≤ count_in k t'.total
  at_most-mention none = elim (Bool-cases (equal table k)) [
    | inl same ↦
        let e = (equal_iff table k).0 same in
        rw total-grows (rw same (rw e (omega (arith, f.at_most))))
    | inr differs ↦ rw total-grows (rw differs f.at_most)
  ]
  at_most-mention (some c) = elim (Bool-cases (equal table k)) [
    | inl same ↦
        let e = (equal_iff table k).0 same in
        rw (total-grows, evidence-grows c) (rw same (rw e (omega (arith, f.at_most))))
    | inr differs ↦ rw (total-grows, evidence-grows c) (rw differs f.at_most)
  ]

  positive-mention :
      (o : Option Bytes) (c : Bytes)
      → let t' = with_mention table o counted_once in
        lookup k t'.col ≡ some c → 0 < count_in k t'.with_evidence
  positive-mention none c h = f.positive c h
  positive-mention (some d) c h = elim (Bool-cases (equal table k)) [
    | inl same ↦ rw (evidence-grows d) (rw same (omega arith))
    | inr differs ↦ rw (evidence-grows d) (
        rw differs (elim (keep_first-known k table d c t.col h) [
          | inl old ↦ f.positive c old
          | inr (e, _) ↦ ground (arith, equal_iff table k, e, differs)
        ]))
  ]

tally_one-IsFair : (s : Statement) (t : Tally) (k : Bytes) → IsFair t k → IsFair (tally_one s t) k
unfolding tally_one
tally_one-IsFair s t k f = elim (Bool-cases (equal s.table [])) [
  | inl empty ↦ rw empty f
  | inr named ↦
      let o = first_mentioned s.sql tenant_column_names in
      rw named (record {
        at_most = at_most-mention s.table k t f o;
        positive = positive-mention s.table k t f o;
      })
]

tally_from-IsFair :
    (ss : List Statement) (t : Tally) (k : Bytes) → IsFair t k → IsFair (tally_from t ss) k
unfolding tally_from
tally_from-IsFair [] t k f = f
tally_from-IsFair (s ∷ ss) t k f = tally_from-IsFair ss (tally_one s t) k (tally_one-IsFair s t k f)

classify_tables-IsFair : (ss : List Statement) (k : Bytes) → IsFair (classify_tables ss) k
unfolding classify_tables lookup
classify_tables-IsFair ss k =
    tally_from-IsFair ss no_tally k
      (record { at_most = omega arith; positive = λ c h. ground arith })

classify_tables-Evidence :
    (ss : List Statement) (k column : Bytes)
    → lookup k (classify_tables ss).col ≡ some column
    → Evidence k column ss
unfolding classify_tables
classify_tables-Evidence ss k column h = elim (tally_from-known ss no_tally k column h) [
  | inl old ↦ unfold lookup in ground arith
  | inr evidence ↦ evidence
]

-- A suspicion about a statement list: its statement does not mention the column, some statement of the
-- list about the same table does, and its confidence is above 0 and at most 1.
pub record Founded (ss : List Statement) (s : Suspicion) : Type 0 where
  pub silent : mentions_column s.sql s.column ≡ false
  pub evident : Evidence s.table s.column ss
  pub positive : 0 < s.evidence
  pub at_most : s.evidence ≤ s.total

abbrev pub AllFounded : List Statement → List Suspicion → Type 0
AllFounded ss [] = Unit
AllFounded ss (x ∷ xs) = Founded ss x × AllFounded ss xs

AllFounded-append :
    (ss : List Statement) (xs ys : List Suspicion)
    → AllFounded ss xs
    → AllFounded ss ys
    → AllFounded ss (xs ++ ys)
AllFounded-append ss [] ys h k = k
AllFounded-append ss (x ∷ xs) ys (p, h) k = (p, AllFounded-append ss xs ys h k)

flagged-Founded :
    (ss : List Statement) (s : Statement) (o : Option Bytes)
    → lookup s.table (classify_tables ss).col ≡ o
    → AllFounded ss (flagged (classify_tables ss) s o)
flagged-Founded ss s none e = tt
flagged-Founded ss s (some column) e = elim (Bool-cases (mentions_column s.sql column)) [
  | inl said ↦ rw said tt
  | inr silent ↦ rw silent (
    record {
      silent = silent;
      evident = classify_tables-Evidence ss s.table column e;
      positive = IsFair.positive (classify_tables-IsFair ss s.table) column e;
      at_most = IsFair.at_most (classify_tables-IsFair ss s.table);
    },
    tt,
  )
]

-- Each suspicion that Run collects, before the ranking, is about a statement that does not mention the
-- column it names, while another statement of the repository about the same table does and has it as the
-- first of the known names; its confidence is above 0 and at most 1.
pub suspicions-Founded :
    (ss rest : List Statement) → AllFounded ss (suspicions (classify_tables ss) rest)
unfolding suspicions
suspicions-Founded ss [] = tt
suspicions-Founded ss (s ∷ rest) =
    AllFounded-append ss _ _ (flagged-Founded ss s (lookup s.table (classify_tables ss).col) refl)
      (suspicions-Founded ss rest)
