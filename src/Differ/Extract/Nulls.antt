-- ===== src/Differ/Extract/Nulls.antt =====
-- internal/differ/extract.go: the tenant of an event that was recorded and decoded again, where NULL
-- parameters lose the text that they were captured with.
use tenantguard.Base.{
  Bool, List, [], ap, arith, false, if◌then◌else◌, inl, inr, map, refl, sym, true, ◌∙◌, ◌∷◌, ◌≡◌,
  ◌⊎◌,
}
use tenantguard.Base.Bytes.{Bytes, codes, equal, equal_iff, equal_refl}
use tenantguard.Capture.Message.{Param}
use tenantguard.Capture.Recorder.RoundTrip.{recalled_param}
use tenantguard.Differ.Extract.{
  Attribution, all_decoded, attr_no_predicate, attr_resolved, attr_unattributable, extract_tenant,
}
use tenantguard.Differ.Extract.Recalled.{AllMoved, extract_tenant-moved, moved}
use tenantguard.Schema.{Relation}

-- A NULL parameter is captured with the text NULL, and decoded with none.
abbrev null_text : Bytes
null_text = codes "NULL"

-- No parameter is NULL.
abbrev pub NoneNull : List Param → Type 0
NoneNull [] = Unit
NoneNull (p ∷ ps) = (p.is_null ≡ false) × NoneNull ps

-- A text that neither a captured NULL nor a decoded one has.
abbrev pub IsApart : Bytes → Type 0
IsApart t = (equal t [] ≡ false) × (equal t null_text ≡ false)

-- NULL with the text that parseBind gives it, not known, or known and not to be taken for a NULL.
abbrev pub IsTold : Param → Type 0
IsTold p =
    ((p.is_null ≡ true) × (p.text ≡ null_text))
    ⊎ (p.is_null ≡ false) × ((p.known ≡ false) ⊎ (p.known ≡ true) × IsApart p.text)

abbrev pub AllTold : List Param → Type 0
AllTold [] = Unit
AllTold (p ∷ ps) = IsTold p × AllTold ps

-- The tenant that is claimed, if any, is not the text of a NULL.
abbrev pub NotNull : Attribution → Type 0
NotNull (attr_resolved t) = IsApart t
NotNull attr_no_predicate = Unit
NotNull attr_unattributable = Unit

-- The exchange of the two texts of a NULL.
unfoldable swapped : Bytes → Bytes
swapped t = if equal t null_text then [] else if equal t [] then null_text else t

null_text-equal : (equal [] null_text ≡ false) × (equal null_text [] ≡ false)
unfolding equal codes
null_text-equal = (refl, refl)

swapped-swapped : (a : Bytes) → swapped (swapped a) ≡ a
unfolding swapped
swapped-swapped a = ground (
  arith,
  equal_iff a null_text,
  equal_iff a [],
  null_text-equal,
  equal_refl null_text,
  equal_refl [],
)

Bool-antisym : (a b : Bool) → (a ≡ true → b ≡ true) → (b ≡ true → a ≡ true) → a ≡ b
Bool-antisym a b h k = ground (arith, h, k)

swapped-keeps : (a b : Bytes) → equal (swapped a) (swapped b) ≡ equal a b
swapped-keeps a b =
    Bool-antisym _ _
      (λ e. (equal_iff a b).1 (
        sym (swapped-swapped a)
        ∙ ap swapped ((equal_iff (swapped a) (swapped b)).0 e)
        ∙ swapped-swapped b))
      (λ e. (equal_iff (swapped a) (swapped b)).1 (ap swapped ((equal_iff a b).0 e)))

kept_texts : (ps : List Param) → NoneNull ps → all_decoded ps ≡ true → AllMoved (λ t. t) ps
unfolding all_decoded recalled_param
kept_texts [] h d = tt
kept_texts (p ∷ ps) (h, hs) d = (ground (arith, h, d), kept_texts ps hs (ground (arith, d)))

swapped_texts : (ps : List Param) → AllTold ps → all_decoded ps ≡ true → AllMoved swapped ps
unfolding all_decoded recalled_param swapped
swapped_texts [] h d = tt
swapped_texts (p ∷ ps) (inl (n, t), hs) d =
    (ground (arith, n, t, equal_refl null_text), swapped_texts ps hs (ground (arith, d)))
swapped_texts (p ∷ ps) (inr (n, inl k), hs) d = ground (arith, n, k, d)
swapped_texts (p ∷ ps) (inr (n, inr (k, (e, f))), hs) d =
    (ground (arith, n, k, e, f), swapped_texts ps hs (ground (arith, d)))

moved-same : (a : Attribution) → moved (λ t. t) a ≡ a
unfolding moved
moved-same (attr_resolved t) = refl
moved-same attr_no_predicate = refl
moved-same attr_unattributable = refl

moved-swapped : (a : Attribution) → NotNull a → moved swapped a ≡ a
unfolding moved swapped
moved-swapped (attr_resolved t) (e, f) = ap attr_resolved (ground (arith, e, f))
moved-swapped attr_no_predicate h = refl
moved-swapped attr_unattributable h = refl

pub extract_tenant-recalled :
    (ps : List Param) (rels : List Relation) (sql : Bytes)
    → NoneNull ps ⊎ AllTold ps × NotNull (extract_tenant rels sql ps)
    → extract_tenant rels sql (map recalled_param ps) ≡ extract_tenant rels sql ps
extract_tenant-recalled ps rels sql (inl h) =
    extract_tenant-moved (λ t. t) (λ a b. refl) ps (kept_texts ps h) rels sql
    ∙ moved-same (extract_tenant rels sql ps)
extract_tenant-recalled ps rels sql (inr (h, n)) =
    extract_tenant-moved swapped swapped-keeps ps (swapped_texts ps h) rels sql
    ∙ moved-swapped (extract_tenant rels sql ps) n
