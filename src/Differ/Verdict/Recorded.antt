-- ===== src/Differ/Verdict/Recorded.antt =====
-- internal/capture with internal/differ: the verdict on an event that was recorded and decoded again.
use tenantguard.Base.{List, [], ap, arith, if◌then◌else◌, map, refl, some, ◌∙◌, ◌∷◌, ◌≡◌, ◌⊎◌}
use tenantguard.Base.Bytes.{Bytes}
use tenantguard.Capture.Message.{Param}
use tenantguard.Capture.Recorder.{carry, decode_events, emit}
use tenantguard.Capture.Recorder.RoundTrip.{
  Carries, IsAscii, decode_events-emit, recalled, recalled_param,
}
use tenantguard.Capture.Session.{Event}
use tenantguard.Differ.Extract.{
  Attribution, attr_no_predicate, attr_resolved, attr_unattributable, extract_tenant,
}
use tenantguard.Differ.Extract.Nulls.{AllTold, NoneNull, NotNull, extract_tenant-recalled}
use tenantguard.Differ.Rerun.{Server}
use tenantguard.Differ.Statement.{is_write_statement}
use tenantguard.Differ.Verdict.{diff, diff_as, diff_attributed, param_args, unattributed}
use tenantguard.Schema.{Relation}

param_args-recalled : (ps : List Param) → param_args (map recalled_param ps) ≡ param_args ps
unfolding param_args recalled_param
param_args-recalled [] = refl
param_args-recalled (p ∷ ps) = ground (arith, param_args-recalled ps)

diff_attributed-recalled :
    (v : Server) (a : Attribution) (probe restricted : v.Db) (e : Event)
    → diff_attributed v a probe restricted (recalled e) ≡ diff_attributed v a probe restricted e
unfolding diff_attributed
diff_attributed-recalled v (attr_resolved tenant) probe restricted e =
    ap (diff_as v (is_write_statement e.sql) tenant probe restricted e.sql)
      (param_args-recalled e.params)
diff_attributed-recalled v attr_no_predicate probe restricted e =
    ap (diff_as v (is_write_statement e.sql) [] probe restricted e.sql)
      (param_args-recalled e.params)
diff_attributed-recalled v attr_unattributable probe restricted e = refl

diff-recalled :
    (v : Server) (rels : List Relation) (probe restricted : v.Db) (e : Event)
    → NoneNull e.params ⊎ AllTold e.params × NotNull (extract_tenant rels e.sql e.params)
    → diff v rels probe restricted (recalled e) ≡ diff v rels probe restricted e
unfolding diff
diff-recalled v rels probe restricted e h =
    ap (λ x. if e.resolved then x else (unattributed, probe, restricted))
      (ap (λ a. diff_attributed v a probe restricted (recalled e))
          (extract_tenant-recalled e.params rels e.sql h)
        ∙ diff_attributed-recalled v (extract_tenant rels e.sql e.params) probe restricted e)

-- An event that is recorded, written and read by encoding/json and decoded again gets from the differ
-- the verdict, and leaves the databases, that the event itself would have had, where encoding/json keeps
-- ASCII and the texts of the event, and either none of its parameters is NULL, or each NULL has the text
-- NULL that parseBind gives it, no other known parameter has the text NULL or none, and the tenant that
-- the event claims, if any, is neither.
pub diff-decode_events :
    (v : Server) (carried : Bytes → Bytes) (ascii : (s : Bytes) → IsAscii s → carried s ≡ s)
    (rels : List Relation) (probe restricted : v.Db) (e : Event)
    → Carries carried ascii e
    → NoneNull e.params ⊎ AllTold e.params × NotNull (extract_tenant rels e.sql e.params)
    → (e' : Event) × (decode_events (carry carried (emit e) ∷ []) ≡ some (e' ∷ []))
      × (diff v rels probe restricted e' ≡ diff v rels probe restricted e)
diff-decode_events v carried ascii rels probe restricted e c h = (
  recalled e,
  decode_events-emit carried ascii (e ∷ []) (c, tt),
  diff-recalled v rels probe restricted e h,
)
