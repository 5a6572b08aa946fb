-- ===== src/Oracle/Grants.antt =====
-- internal/oracle/probe.go: what CreateRestrictedRole grants.
use tenantguard.Base.{
  Bool-cases, List, [], ap, arith, false, inl, inr, refl, true, ◌++◌, ◌||◌, ◌∙◌, ◌∷◌, ◌≡◌, ◌≢◌, ◌⊎◌,
}
use tenantguard.Base.Bytes.{Bytes, codes, equal, equal_iff, equal_refl}
use tenantguard.Differ.Rows.{insert_sorted, sort}
use tenantguard.Oracle.Synthesis.{
  granted_schemas, grants, role_statements, schemas_from, sequences_grant, tables_grant,
  usage_grant, with_schema,
}
use tenantguard.Schema.{Relation, is_in}

-- The statement stands in the list.
abbrev pub Among : Bytes → List Bytes → Type 0
Among s [] = ⊥
Among s (t ∷ ts) = (s ≡ t) ⊎ Among s ts

Among-grants :
    (role schema : Bytes) (schemas : List Bytes)
    → is_in schema schemas ≡ true
    → Among (usage_grant role schema) (grants role schemas)
      × Among (tables_grant role schema) (grants role schemas)
      × Among (sequences_grant role schema) (grants role schemas)
unfolding is_in grants
Among-grants role schema [] h = cc
Among-grants role schema (s ∷ ss) h = elim (Bool-cases (equal schema s)) [
  | inl same ↦
      let e = (equal_iff schema s).0 same in
      (
        inl (ap (usage_grant role) e),
        inr (inl (ap (tables_grant role) e)),
        inr (inr (inl (ap (sequences_grant role) e))),
      )
  | inr differs ↦
      let (u, t, q) = Among-grants role schema ss (rw differs at h) in
      (inr (inr (inr u)), inr (inr (inr t)), inr (inr (inr q)))
]

is_in-insert_sorted :
    (x y : Bytes) (ys : List Bytes) → is_in x (insert_sorted y ys) ≡ (equal x y || is_in x ys)
unfolding is_in insert_sorted
is_in-insert_sorted x y [] = ground arith
is_in-insert_sorted x y (z ∷ ys) = ground (arith, is_in-insert_sorted x y ys)

is_in-sort : (x : Bytes) (ys : List Bytes) → is_in x (sort ys) ≡ is_in x ys
unfolding is_in sort
is_in-sort x [] = refl
is_in-sort x (y ∷ ys) = ground (arith, is_in-insert_sorted x y (sort ys), is_in-sort x ys)

is_in-schemas_from :
    (x : Bytes) (known : List Bytes) (rels : List Relation)
    → is_in x known ≡ true
    → is_in x (schemas_from known rels) ≡ true
unfolding is_in schemas_from
is_in-schemas_from x known [] h = h
is_in-schemas_from x known (r ∷ rs) h = is_in-schemas_from x (with_schema r known) rs (ground arith)

schemas_from-named :
    (known : List Bytes) (before after : List Relation) (r : Relation)
    → equal r.schema [] ≡ false
    → is_in r.schema (schemas_from known (before ++ r ∷ after)) ≡ true
unfolding is_in schemas_from
schemas_from-named known [] after r h =
    is_in-schemas_from r.schema (with_schema r known) after (ground (arith, equal_refl r.schema))
schemas_from-named known (s ∷ before) after r h =
    schemas_from-named (with_schema s known) before after r h

-- The restricted role is granted the use of the schema of each relation that names one, and of its
-- tables and sequences.
pub role_statements-Among :
    (role password : Bytes) (before after : List Relation) (r : Relation)
    → r.schema ≢ []
    → let statements = role_statements role password (before ++ r ∷ after) in
      Among (usage_grant role r.schema) statements
      × Among (tables_grant role r.schema) statements
      × Among (sequences_grant role r.schema) statements
unfolding role_statements granted_schemas
role_statements-Among role password before after r n =
    let differs : equal r.schema [] ≡ false = ground (arith, equal_iff r.schema []) in
    let known : is_in r.schema (sort (schemas_from (codes "public" ∷ []) (before ++ r ∷ after)))
        ≡ true =
      is_in-sort r.schema _ ∙ schemas_from-named _ before after r differs in
    let (u, t, s) = Among-grants role r.schema _ known in (inr (inr u), inr (inr t), inr (inr s))
