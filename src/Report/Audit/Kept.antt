-- ===== src/Report/Audit/Kept.antt =====
-- cmd/tenantguard/main.go: the databases behind the loop over the events of an audit.
use tenantguard.Base.{Bool-cases, List, [], false, inl, inr, refl, true, ◌∙◌, ◌∷◌, ◌≡◌, ◌⊎◌}
use tenantguard.Capture.Session.{Event}
use tenantguard.Differ.Contained.{is_contained}
use tenantguard.Differ.Rerun.{Server}
use tenantguard.Differ.Verdict.Durable.{Isolation, diff-Kept}
use tenantguard.Report.Audit.{audit_event, audit_events, is_execution}
use tenantguard.Schema.{Relation}

-- Each execution among the events is of one statement that reads or writes rows.
abbrev pub AllContained : List Event → Type 0
AllContained [] = Unit
AllContained (ev ∷ evs) =
    ((is_execution ev ≡ false) ⊎ (is_contained ev.sql ≡ true)) × AllContained evs

module _ (v : Server) (w : Isolation v) (row_level structural_only : List Relation) where
  audit_event-Kept :
      (probe restricted : v.Db) (ev : Event)
      → (is_execution ev ≡ false) ⊎ (is_contained ev.sql ≡ true)
      → let (_, probe', restricted') =
          audit_event v row_level structural_only probe restricted ev in
        (w.stored probe' ≡ w.stored probe) × (w.stored restricted' ≡ w.stored restricted)
  unfolding audit_event
  audit_event-Kept probe restricted ev (inl passed) = rw passed (refl, refl)
  audit_event-Kept probe restricted ev (inr within) = elim (Bool-cases (is_execution ev)) [
    | inl runs ↦ rw runs (diff-Kept v w row_level probe restricted ev within)
    | inr passed ↦ rw passed (refl, refl)
  ]

  -- An audit of events of which each execution is of one statement that reads or writes rows leaves the
  -- tables of both databases with the rows that they had, whatever the verdicts, on a server whose
  -- transactions discard, when they are rolled back, what such statements changed in tables. Sequences
  -- and events with other texts are no part of it.
  pub audit_events-Kept :
      (evs : List Event) (probe restricted : v.Db)
      → AllContained evs
      → let (_, probe', restricted') =
          audit_events v row_level structural_only probe restricted evs in
        (w.stored probe' ≡ w.stored probe) × (w.stored restricted' ≡ w.stored restricted)
  unfolding audit_events
  audit_events-Kept [] probe restricted h = (refl, refl)
  audit_events-Kept (ev ∷ evs) probe restricted (h, hs) =
      let (_, probe', restricted') = audit_event v row_level structural_only probe restricted ev in
      let (p, r) = audit_event-Kept probe restricted ev h in
      let (ps, rs) = audit_events-Kept evs probe' restricted' hs in (ps ∙ p, rs ∙ r)
