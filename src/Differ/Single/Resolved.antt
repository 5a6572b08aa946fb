-- ===== src/Differ/Single/Resolved.antt =====
-- The names that a query mentions, and the verdict on it.
use tenantguard.Base.{
  Bool-cases, List, Option, [], ap, false, inl, inr, none, refl, some, true, ◌∷◌, ◌≡◌, ◌≢◌, ◌⊎◌,
}
use tenantguard.Base.Bytes.{Bytes, equal, equal_iff}
use tenantguard.Capture.Message.{Param}
use tenantguard.Differ.Extract.{
  Attribution, attr_no_predicate, attr_resolved, attr_unattributable, extract_tenant,
}
use tenantguard.Differ.Single.{
  Resolution, any_scoped, blocked, by_name, check_tenant, cte_names, judge, judge_resolved,
  referenced_relation_names, resolve_class, resolve_names, resolve_references,
}
use tenantguard.Differ.Verdict.{Verdict, leak, safe, unattributable}
use tenantguard.Schema.{Class, Relation, is_in, other_class, scoped, unclassifiable, unscoped}

-- The policy classified the relation as scoped or unscoped, or under a class of its own.
abbrev pub Classified : Option Class → Type 0
Classified none = ⊥
Classified (some unclassifiable) = ⊥
Classified (some c) = Unit

abbrev pub NotScoped : Option Class → Type 0
NotScoped (some scoped) = ⊥
NotScoped _ = Unit

module _ (ctes : List Bytes) (rels : List Relation) where
  -- Each name is that of a CTE, or of a relation that the policy classified.
  abbrev pub AllClassified : List Bytes → Type 0
  AllClassified [] = Unit
  AllClassified (n ∷ ns) = ((is_in n ctes ≡ true) ⊎ Classified (by_name n rels)) × AllClassified ns

  -- Each name is that of a CTE, or of a relation that is not scoped.
  abbrev pub NoneScoped : List Bytes → Type 0
  NoneScoped [] = Unit
  NoneScoped (n ∷ ns) = ((is_in n ctes ≡ true) ⊎ NotScoped (by_name n rels)) × NoneScoped ns

  -- A name is that of a scoped relation, and of no CTE.
  abbrev pub SomeScoped : List Bytes → Type 0
  SomeScoped [] = ⊥
  SomeScoped (n ∷ ns) = ((is_in n ctes ≡ false) × (by_name n rels ≡ some scoped)) ⊎ SomeScoped ns

  -- A name is that of no CTE, and of no relation that the policy classified.
  abbrev pub SomeUnknown : List Bytes → Type 0
  SomeUnknown [] = ⊥
  SomeUnknown (n ∷ ns) = ((is_in n ctes ≡ false) × (¬ Classified (by_name n rels))) ⊎ SomeUnknown ns

  -- What a resolution says of the names.
  abbrev pub Tells : List Bytes → Resolution → Type 0
  Tells ns blocked = SomeUnknown ns
  Tells ns (any_scoped false) = AllClassified ns × NoneScoped ns
  Tells ns (any_scoped true) = AllClassified ns × SomeScoped ns

  cte-Tells :
      (n : Bytes) (ns : List Bytes) (r : Resolution)
      → is_in n ctes ≡ true
      → Tells ns r
      → Tells (n ∷ ns) r
  cte-Tells n ns blocked e h = inr h
  cte-Tells n ns (any_scoped false) e (a, s) = ((inl e, a), (inl e, s))
  cte-Tells n ns (any_scoped true) e (a, s) = ((inl e, a), inr s)

  class-Tells :
      (n : Bytes) (ns : List Bytes) (o : Option Class) (r : Resolution)
      → is_in n ctes ≡ false
      → by_name n rels ≡ o
      → Tells ns r
      → Tells (n ∷ ns) (resolve_class o r)
  unfolding resolve_class
  class-Tells n ns none r e c h = inl (e, rw c (λ x. x))
  class-Tells n ns (some unclassifiable) r e c h = inl (e, rw c (λ x. x))
  class-Tells n ns (some scoped) blocked e c h = inr h
  class-Tells n ns (some scoped) (any_scoped false) e c (a, s) = ((inr (rw c tt), a), inl (e, c))
  class-Tells n ns (some scoped) (any_scoped true) e c (a, s) = ((inr (rw c tt), a), inl (e, c))
  class-Tells n ns (some unscoped) blocked e c h = inr h
  class-Tells n ns (some unscoped) (any_scoped false) e c (a, s) =
      ((inr (rw c tt), a), (inr (rw c tt), s))
  class-Tells n ns (some unscoped) (any_scoped true) e c (a, s) = ((inr (rw c tt), a), inr s)
  class-Tells n ns (some (other_class k)) blocked e c h = inr h
  class-Tells n ns (some (other_class k)) (any_scoped false) e c (a, s) =
      ((inr (rw c tt), a), (inr (rw c tt), s))
  class-Tells n ns (some (other_class k)) (any_scoped true) e c (a, s) = ((inr (rw c tt), a), inr s)

  resolve_names-Tells : (ns : List Bytes) → Tells ns (resolve_names ctes rels ns)
  unfolding resolve_names
  resolve_names-Tells [] = (tt, tt)
  resolve_names-Tells (n ∷ ns) = elim (Bool-cases (is_in n ctes)) [
    | inl e ↦ rw e (cte-Tells n ns (resolve_names ctes rels ns) e (resolve_names-Tells ns))
    | inr e ↦ rw e (
        class-Tells n ns (by_name n rels) (resolve_names ctes rels ns) e refl
          (resolve_names-Tells ns))
  ]

module _ (ctes : List Bytes) (rels : List Relation) (names : List Bytes) (a : Attribution)
    (tenant : Bytes) where
  -- What stands behind a verdict on a query that mentions the names and claims a tenant or none.
  abbrev pub Judged : Verdict → Type 0
  Judged safe =
      AllClassified ctes rels names
      × (NoneScoped ctes rels names ⊎ (SomeScoped ctes rels names × (a ≡ attr_resolved tenant)))
  Judged leak =
      AllClassified ctes rels names
      × SomeScoped ctes rels names
      × ((a ≡ attr_no_predicate) ⊎ ((v : Bytes) × (a ≡ attr_resolved v) × (v ≢ tenant)))
  Judged unattributable =
      SomeUnknown ctes rels names ⊎ (SomeScoped ctes rels names × (a ≡ attr_unattributable))

module _ (ctes : List Bytes) (rels : List Relation) (names : List Bytes) (tenant : Bytes) where
  judge-Judged :
      (a : Attribution)
      → AllClassified ctes rels names
      → SomeScoped ctes rels names
      → Judged ctes rels names a tenant (judge tenant a).0
  unfolding judge
  judge-Judged attr_unattributable k s = inr (s, refl)
  judge-Judged attr_no_predicate k s = (k, s, inl refl)
  judge-Judged (attr_resolved v) k s = elim (Bool-cases (equal v tenant)) [
    | inl same ↦ rw same (k, inr (s, ap attr_resolved ((equal_iff v tenant).0 same)))
    | inr differs ↦ rw differs (k, s, inr (v, refl, λ e. let h = (equal_iff v tenant).1 e in cc))
  ]

  resolved-Judged :
      (a : Attribution) (r : Resolution)
      → Tells ctes rels names r
      → Judged ctes rels names a tenant (judge_resolved a tenant r).0
  resolved-Judged a blocked h = inl h
  resolved-Judged a (any_scoped false) (k, s) = (k, inl s)
  resolved-Judged a (any_scoped true) (k, s) = judge-Judged a k s

-- CheckTenant, of the names that the query mentions as tables and that are not names of its CTEs: SAFE
-- means that the policy classified each of them and that none is scoped or the query claims the tenant;
-- LEAK that it classified each, that one is scoped, and that the query has no tenant predicate or claims
-- another tenant; UNATTRIBUTABLE that it did not classify one of them, or that one is scoped and the
-- tenant that the query claims cannot be told.
pub check_tenant-Judged :
    (sql : Bytes) (rels : List Relation) (params : List Param) (tenant : Bytes)
    → Judged
        (cte_names sql)
        rels
        (referenced_relation_names sql)
        (extract_tenant rels sql params)
        tenant
        (check_tenant sql rels params tenant).0
unfolding check_tenant resolve_references
check_tenant-Judged sql rels params tenant =
    let names = referenced_relation_names sql in
    resolved-Judged (cte_names sql) rels names tenant (extract_tenant rels sql params) _
      (resolve_names-Tells (cte_names sql) rels names)
