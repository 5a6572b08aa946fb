-- ===== src/Differ/Verdict/Tests.antt =====
-- A captured write, recorded and decoded again.
use tenantguard.Base.{[], arith, inl, inr, map, refl, some, subst, sym, true, ◌++◌, ◌∷◌, ◌≡◌}
use tenantguard.Base.Bytes.{Bytes, codes, equal, starts_with}
use tenantguard.Capture.Message.{format_binary, format_text, null_param, zero_param}
use tenantguard.Capture.Recorder.{carry, decode_events, emit}
use tenantguard.Capture.Recorder.RoundTrip.{
  Carries, IsAscii, decode_events-emit, recalled, recalled_param,
}
use tenantguard.Capture.Session.{Event}
use tenantguard.Differ.Extract.{
  alias_stop_words, attr_resolved, compared, compared_all, compared_relations, extract_tenant,
  from_scoped,
}
use tenantguard.Differ.Extract.Nulls.{AllTold, NotNull}
use tenantguard.Differ.Patterns.{tenant_compare_regex}
use tenantguard.Differ.Regex.{find, find_all, run}
use tenantguard.Differ.Samples.{orders, server, tenant_params, tenant_query, write_event}
use tenantguard.Differ.Verdict.{diff}
use tenantguard.Differ.Verdict.Recorded.{diff-decode_events}
use tenantguard.Schema.{is_in}

abbrev unchanged : Bytes → Bytes
unchanged s = s

unchanged-ascii : (s : Bytes) → IsAscii s → unchanged s ≡ s
unchanged-ascii s h = refl

write_event-Carries : Carries unchanged unchanged-ascii write_event
write_event-Carries = record {
  stmt = refl;
  portal = refl;
  sql = refl;
  params = (record { text = refl; bytes = tt }, tt);
}

-- A captured query with a NULL besides its tenant.
abbrev null_event : Event
null_event = record write_event {
  sql = tenant_query;
  params = tenant_params ++ null_param format_text ∷ [];
}

null_event_claim :
    extract_tenant (orders ∷ []) tenant_query null_event.params ≡ attr_resolved (codes "t1")
unfolding extract_tenant codes equal is_in alias_stop_words from_scoped compared_relations find_all
    tenant_compare_regex find run compared_all compared starts_with
null_event_claim = refl

-- The tenant of a query that compares the tenant column with a NULL differs from the decoded event's.
null_tenant_test :
    (extract_tenant (orders ∷ []) tenant_query (null_param format_text ∷ [])
      ≡ attr_resolved (codes "NULL"))
    × (extract_tenant (orders ∷ []) tenant_query (map recalled_param (null_param format_text ∷ []))
        ≡ attr_resolved [])
unfolding extract_tenant codes equal is_in alias_stop_words from_scoped compared_relations find_all
    tenant_compare_regex find run compared_all compared starts_with recalled_param
null_tenant_test = (refl, refl)

null_event-Carries : Carries unchanged unchanged-ascii null_event
null_event-Carries = record {
  stmt = refl;
  portal = refl;
  sql = refl;
  params = (record { text = refl; bytes = tt }, (record { text = refl; bytes = tt }, tt));
}

null_event-AllTold : AllTold null_event.params
unfolding equal codes
null_event-AllTold = (inr (refl, inr (refl, (refl, refl))), (inl (refl, refl), tt))

null_event-NotNull : NotNull (extract_tenant (orders ∷ []) null_event.sql null_event.params)
unfolding equal codes
null_event-NotNull = subst NotNull (sym null_event_claim) (refl, refl)

diff-decode_events_example :
    (e' : Event) × (decode_events (carry unchanged (emit null_event) ∷ []) ≡ some (e' ∷ []))
    × (diff (server 1) (orders ∷ []) true true e'
        ≡ diff (server 1) (orders ∷ []) true true null_event)
diff-decode_events_example =
    diff-decode_events (server 1) unchanged unchanged-ascii (orders ∷ []) true true null_event
      null_event-Carries (inr (null_event-AllTold, null_event-NotNull))

-- Two events, one with an undecoded binary parameter.
abbrev binary_event : Event
binary_event = record write_event {
  params = record zero_param { format = format_binary; value = 0 ∷ 255 ∷ [] } ∷ [];
}

binary_event-Carries : Carries unchanged unchanged-ascii binary_event
binary_event-Carries = record {
  stmt = refl;
  portal = refl;
  sql = refl;
  params = (record { text = refl; bytes = omega arith }, tt);
}

decode_events-emit_example :
    decode_events (map (λ e. carry unchanged (emit e)) (write_event ∷ binary_event ∷ []))
    ≡ some (recalled write_event ∷ recalled binary_event ∷ [])
decode_events-emit_example =
    decode_events-emit unchanged unchanged-ascii (write_event ∷ binary_event ∷ [])
      (write_event-Carries, (binary_event-Carries, tt))
