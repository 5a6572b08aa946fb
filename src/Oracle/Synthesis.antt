-- ===== src/Oracle/Synthesis.antt =====
-- internal/oracle: the DDL of EnableRLS with its confirmation, the checks A2 and A3 of the catalog
-- (oracle.go), and the statements for the probe database and the restricted role (probe.go).
use tenantguard.Base.{
  Bool, List, Option, [], false, if◌then◌else◌, inl, inr, none, not, some, true, ℕ, ◌++◌, ◌==◌,
  ◌||◌, ◌∷◌,
}
use tenantguard.Base.Bytes.{Bytes, codes, equal}
use tenantguard.Differ.Rerun.{Failure}
use tenantguard.Differ.Rows.{sort}
use tenantguard.Differ.Write.{quote_ident}
use tenantguard.Oracle.Checks.{
  CheckError, Checked, Database, a2_failed, a3_failed, answered, fault, not_confirmed,
  tenant_setting, unmarked, ◌>>=◌,
}
use tenantguard.Oracle.Inserts.{sql_name}
use tenantguard.Oracle.Plan.{double_quotes}
use tenantguard.Schema.{Relation, is_in, is_scoped, qualified}

-- The policy's USING clause compares the tenant column with the session's setting.
unfoldable pub rls_statements : Relation → Bytes → List Bytes
unfolding sql_name quote_ident
rls_statements r policy =
    (codes "ALTER TABLE " ++ sql_name r ++ codes " ENABLE ROW LEVEL SECURITY")
    ∷ (codes "ALTER TABLE " ++ sql_name r ++ codes " FORCE ROW LEVEL SECURITY")
    ∷ (codes "DROP POLICY IF EXISTS " ++ quote_ident policy ++ codes " ON " ++ sql_name r)
    ∷ (codes "CREATE POLICY "
        ++ quote_ident policy
        ++ codes " ON "
        ++ sql_name r
        ++ codes " USING ("
        ++ quote_ident r.tenant_column
        ++ codes "::text = current_setting('"
        ++ tenant_setting
        ++ codes "', true))")
    ∷ []

-- `CreateProbeDatabase`'s statements.
unfoldable pub probe_statements : Bytes → Bytes → List Bytes
unfolding quote_ident
probe_statements template probe =
    (codes "DROP DATABASE IF EXISTS " ++ quote_ident probe)
    ∷ (codes "CREATE DATABASE " ++ quote_ident probe ++ codes " TEMPLATE " ++ quote_ident template)
    ∷ []

-- `DropProbeDatabase`'s statement.
unfoldable pub drop_statement : Bytes → Bytes
unfolding quote_ident
drop_statement probe =
    codes "DROP DATABASE IF EXISTS " ++ quote_ident probe ++ codes " WITH (FORCE)"

-- The keys of the map `schemas`: public, and each schema that is named, once.
abbrev pub with_schema : Relation → List Bytes → List Bytes
with_schema r known =
    if equal r.schema [] then known else if is_in r.schema known then known else r.schema ∷ known

unfoldable pub schemas_from : List Bytes → List Relation → List Bytes
unfolding is_in
schemas_from known [] = known
schemas_from known (r ∷ rs) = schemas_from (with_schema r known) rs

unfoldable pub granted_schemas : List Relation → List Bytes
unfolding schemas_from sort
granted_schemas rels = sort (schemas_from (codes "public" ∷ []) rels)

abbrev pub usage_grant : Bytes → Bytes → Bytes
usage_grant role schema =
    codes "GRANT USAGE ON SCHEMA " ++ quote_ident schema ++ codes " TO " ++ quote_ident role

abbrev pub tables_grant : Bytes → Bytes → Bytes
tables_grant role schema =
    codes "GRANT SELECT, INSERT, UPDATE, DELETE ON ALL TABLES IN SCHEMA "
    ++ quote_ident schema
    ++ codes " TO "
    ++ quote_ident role

abbrev pub sequences_grant : Bytes → Bytes → Bytes
sequences_grant role schema =
    codes "GRANT USAGE, SELECT ON ALL SEQUENCES IN SCHEMA "
    ++ quote_ident schema
    ++ codes " TO "
    ++ quote_ident role

unfoldable pub grants : Bytes → List Bytes → List Bytes
grants role [] = []
grants role (s ∷ ss) =
    usage_grant role s ∷ tables_grant role s ∷ sequences_grant role s ∷ grants role ss

-- `CreateRestrictedRole`'s statements.
unfoldable pub role_statements : Bytes → Bytes → List Relation → List Bytes
unfolding quote_ident grants granted_schemas double_quotes
role_statements role password rels =
    (codes "DROP ROLE IF EXISTS " ++ quote_ident role)
    ∷ (codes "CREATE ROLE "
        ++ quote_ident role
        ++ codes " LOGIN PASSWORD '"
        ++ double_quotes password
        ++ codes "' NOSUPERUSER NOBYPASSRLS")
    ∷ grants role (granted_schemas rels)

module _ (d : Database) where
  -- `for _, s := range stmts`, up to the first error.
  unfoldable pub exec_all : d.Db → List Bytes → Option Failure × d.Db
  exec_all db [] = (none, db)
  exec_all db (s ∷ ss) =
      let step = d.exec db s in
      let rest = exec_all step.1 ss in elim step.0 [ some f ↦ (some f, step.1) | none ↦ rest ]

  abbrev error_of : Option Failure × d.Db → Option CheckError × d.Db
  error_of (none, db) = (none, db)
  error_of (some f, db) = (some (fault unmarked f.text), db)

  -- `CreateProbeDatabase` and `CreateRestrictedRole`
  unfoldable pub create_probe_database : d.Db → Bytes → Bytes → Option CheckError × d.Db
  unfolding exec_all probe_statements
  create_probe_database db template probe = error_of (exec_all db (probe_statements template probe))

  unfoldable pub create_restricted_role :
      d.Db → Bytes → Bytes → List Relation → Option CheckError × d.Db
  unfolding exec_all role_statements
  create_restricted_role db role password rels =
      error_of (exec_all db (role_statements role password rels))

  abbrev pub policies_counted : Relation → Checked ℕ → Option CheckError
  policies_counted r (inl e) = some e
  policies_counted r (inr n) = if n == 0 then some (fault not_confirmed (qualified r)) else none

  abbrev pub confirmed : d.Db → Relation → Checked (Bool × Bool) → Option CheckError
  confirmed db r (inl e) = some e
  confirmed db r (inr (enabled, forced)) =
      if not enabled
      then some (fault not_confirmed (qualified r))
      else if not forced
      then some (fault not_confirmed (qualified r))
      else policies_counted r (answered (d.policies db r.schema r.name))

  -- `verifySynthesis`
  unfoldable pub verify_synthesis : d.Db → Relation → Option CheckError
  verify_synthesis db r = confirmed db r (answered (d.row_security db r.schema r.name))

  abbrev pub verified : Relation → Option Failure × d.Db → Option CheckError × d.Db
  verified r (some f, db) = (some (fault unmarked f.text), db)
  verified r (none, db) = (verify_synthesis db r, db)

  -- `EnableRLS`
  unfoldable pub enable_rls : d.Db → Relation → Bytes → Option CheckError × d.Db
  unfolding exec_all rls_statements verify_synthesis
  enable_rls db r policy = verified r (exec_all db (rls_statements r policy))

  -- A relation's turn in CheckA2: whether it is left uncovered.
  unfoldable pub uncovered_at : d.Db → Relation → Checked Bool
  uncovered_at db r = do
    (enabled, _) ← answered (d.row_security db r.schema r.name)
    n ← answered (d.policies db r.schema r.name)
    inr (not enabled || n == 0)

  abbrev pub add_if : Relation → Bool → Checked (List Bytes) → Checked (List Bytes)
  add_if r true rest = rest >>= λ names. inr (qualified r ∷ names)
  add_if r false rest = rest

  unfoldable pub uncovered : d.Db → List Relation → Checked (List Bytes)
  unfolding uncovered_at
  uncovered db [] = inr []
  uncovered db (r ∷ rs) =
      let rest = uncovered db rs in
      if is_scoped r.class then uncovered_at db r >>= (λ b. add_if r b rest) else rest

  abbrev pub a2_result : Checked (List Bytes) → List Bytes × Option CheckError
  a2_result (inl e) = ([], some e)
  a2_result (inr []) = ([], none)
  a2_result (inr (name ∷ names)) = (name ∷ names, some (fault a2_failed name))

  -- `CheckA2`
  unfoldable pub check_a2 : d.Db → List Relation → List Bytes × Option CheckError
  unfolding uncovered
  check_a2 db rels = a2_result (uncovered db rels)

  -- A relation's turn in CheckA3: whether the role owns it and row security is not forced on it.
  abbrev pub owned_unforced : d.Db → Relation → Bool → Checked Bool
  owned_unforced db r false = inr false
  owned_unforced db r true = do
    (_, forced) ← answered (d.row_security db r.schema r.name)
    inr (not forced)

  unfoldable pub unforced_at : d.Db → Bytes → Relation → Checked Bool
  unforced_at db role r = do
    name ← answered (d.owner db r.schema r.name)
    owned_unforced db r (equal name role)

  unfoldable pub unforced : d.Db → Bytes → List Relation → Checked (List Bytes)
  unfolding unforced_at
  unforced db role [] = inr []
  unforced db role (r ∷ rs) =
      let rest = unforced db role rs in
      if is_scoped r.class then unforced_at db role r >>= (λ b. add_if r b rest) else rest

  abbrev pub a3_result : Checked (List Bytes) → Option CheckError
  a3_result (inl e) = some e
  a3_result (inr []) = none
  a3_result (inr (name ∷ names)) = some (fault a3_failed name)

  -- By what the role may do.
  abbrev pub role_checked : d.Db → List Relation → Bytes → Checked (Bool × Bool) → Option CheckError
  role_checked db rels role (inl e) = some e
  role_checked db rels role (inr (is_super, bypass)) =
      if is_super
      then some (fault a3_failed role)
      else if bypass
      then some (fault a3_failed role)
      else a3_result (unforced db role rels)

  -- `CheckA3`
  unfoldable pub check_a3 : d.Db → List Relation → Bytes → Option CheckError
  unfolding unforced
  check_a3 db rels role = role_checked db rels role (answered (d.privileges db role))
