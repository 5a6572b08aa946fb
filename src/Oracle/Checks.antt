-- ===== src/Oracle/Checks.antt =====
-- internal/oracle/oracle.go: the synthesis of policies, and the self-checks A1 to A4.
use tenantguard.Base.{
  Bool, List, Option, [], if◌then◌else◌, inl, inr, leb, length, map, none, some, true, ℕ, ◌&&◌,
  ◌++◌, ◌==◌, ◌∷◌, ◌⊎◌,
}
use tenantguard.Base.Bytes.{Bytes, codes, equal}
use tenantguard.Differ.Rerun.{Answer, Failure, done, failed}
use tenantguard.Differ.Write.{quote_ident}
use tenantguard.Oracle.Inserts.{join, sql_name}
use tenantguard.Oracle.Literal.{canary_a, canary_text}
use tenantguard.Oracle.Plan.{Column}
use tenantguard.Oracle.Seed.{Probe}
use tenantguard.Schema.{Relation, qualified}

-- What `errors.Is` finds in an error of this file.
pub data Mark : Type 0 where
  unmarked a1_failed a2_failed a3_failed a4_failed a4_no_row_key not_confirmed : Mark

-- An error, with the text that it wraps or the name that it is about; the words around are left out.
pub record CheckError : Type 0 where
  pub mark : Mark
  pub about : Bytes

abbrev pub Checked {ℓ} : Type ℓ → Type ℓ
Checked A = CheckError ⊎ A

infixl 5 ◌>>=◌
abbrev pub ◌>>=◌ {ℓ κ} : {A : Type ℓ} {B : Type κ} → Checked A → (A → Checked B) → Checked B
inl e >>= f = inl e
inr a >>= f = f a

abbrev pub fault : Mark → Bytes → CheckError
fault mark about = record { mark = mark; about = about }

-- `if err != nil { return …, fmt.Errorf("…: %w", err) }`
abbrev pub answered {ℓ} : {A : Type ℓ} → Answer A → Checked A
answered (failed f) = inl (fault unmarked f.text)
answered (done a) = inr a

-- The probe database as its owner sees it, and sessions of the restricted role (`Conn`). The
-- catalog's questions are asked for a schema and a name; `rows` and `conn_rows` are queries of one
-- column of texts with their arguments, scanned to the end.
pub record Database : Type 1 where
  pub probe : Probe
  pub open probe use *
  pub Conn : Type 0
  pub primary_key : Db → Bytes → Bytes → Answer (List Bytes)
  pub row_security : Db → Bytes → Bytes → Answer (Bool × Bool)
  pub policies : Db → Bytes → Bytes → Answer ℕ
  pub owner : Db → Bytes → Bytes → Answer Bytes
  pub privileges : Db → Bytes → Answer (Bool × Bool)
  pub count : Db → Bytes → Answer ℕ
  pub rows : Db → Bytes → List Bytes → Answer (List Bytes)
  pub acquire : Db → Answer Conn
  pub set : Conn → Bytes → Bytes → Option Failure × Conn
  pub conn_count : Conn → Bytes → Answer ℕ
  pub conn_rows : Conn → Bytes → Answer (List Bytes)

abbrev pub tenant_setting : Bytes
tenant_setting = codes "tenantguard.tenant"

abbrev pub set_tenant_query : Bytes
set_tenant_query = codes "SELECT set_config('" ++ tenant_setting ++ codes "', $1, false)"

abbrev pub count_rows_query : Relation → Bytes
count_rows_query r = codes "SELECT count(*) FROM " ++ sql_name r

-- The column's type decides, for the first column of the tenant column's name.
unfoldable pub text_from : Relation → Bytes → List Column → Checked Bytes
unfolding canary_text
text_from r canary [] = inl (fault unmarked (qualified r))
text_from r canary (c ∷ cols) =
    let rest = text_from r canary cols in
    let found : Checked Bytes = elim (canary_text c.type canary) [
      | none ↦ inl (fault unmarked c.type)
      | some t ↦ inr t
    ] in
    if equal c.name r.tenant_column then found else rest

-- The separator 0x1c and the sentinel for NULL, as SQL literals.
abbrev key_separator : Bytes
key_separator = b'\'' ∷ 28 ∷ b'\'' ∷ []

abbrev null_sentinel : Bytes
null_sentinel = b'\'' ∷ 29 ∷ codes "TGD-NULL" ++ 29 ∷ b'\'' ∷ []

-- `rowKeyExpr`
unfoldable pub row_key_expr : List Bytes → Bytes
unfolding join quote_ident
row_key_expr cols = join (codes " || " ++ key_separator ++ codes " || ") (
    map (λ c. codes "coalesce(" ++ quote_ident c ++ codes "::text, " ++ null_sentinel ++ codes ")")
      cols)

unfoldable pub all_equal : List Bytes → List Bytes → Bool
all_equal [] bs = true
all_equal (a ∷ as_) [] = true
all_equal (a ∷ as_) (b ∷ bs) = equal a b && all_equal as_ bs

-- `stringSlicesEqual`
unfoldable pub string_slices_equal : List Bytes → List Bytes → Bool
unfolding all_equal
string_slices_equal a b = length a == length b && all_equal a b

module _ (d : Database) where
  -- `TenantCanaryText`
  unfoldable pub tenant_canary_text : d.Db → Relation → Bytes → Checked Bytes
  unfolding text_from
  tenant_canary_text db r canary = answered (d.columns db r.schema r.name) >>= text_from r canary

  abbrev pub session : Option Failure × d.Conn → Checked d.Conn
  session (some f, conn) = inl (fault unmarked f.text)
  session (none, conn) = inr conn

  -- A connection of the restricted role with the session's tenant set.
  unfoldable pub as_tenant : d.Db → Bytes → Checked d.Conn
  as_tenant db tenant = do
    conn ← answered (d.acquire db)
    session (d.set conn set_tenant_query tenant)

  unfoldable pub a1_counts : d.Db → Relation → Checked (ℕ × ℕ)
  unfolding tenant_canary_text as_tenant sql_name
  a1_counts db r = do
    unrestricted ← answered (d.count db (count_rows_query r))
    tenant ← tenant_canary_text db r canary_a
    conn ← as_tenant db tenant
    restricted ← answered (d.conn_count conn (count_rows_query r))
    inr (unrestricted, restricted)

  abbrev pub a1_result : Relation → Checked (ℕ × ℕ) → ℕ × ℕ × Option CheckError
  a1_result r (inl e) = (0, 0, some e)
  a1_result r (inr (n, m)) = (n, m, if leb n m then some (fault a1_failed (qualified r)) else none)

  -- `CheckA1`: the counts and the error.
  unfoldable pub check_a1 : d.Db → Relation → ℕ × ℕ × Option CheckError
  unfolding a1_counts
  check_a1 db r = a1_result r (a1_counts db r)

  abbrev names_or_none : Relation → List Column → Checked (List Bytes)
  names_or_none r [] = inl (fault a4_no_row_key (qualified r))
  names_or_none r (c ∷ cols) = inr (map (λ (c : Column). c.name) (c ∷ cols))

  abbrev key_or_columns : d.Db → Relation → List Bytes → Checked (List Bytes)
  key_or_columns db r [] = answered (d.columns db r.schema r.name) >>= names_or_none r
  key_or_columns db r (k ∷ ks) = inr (k ∷ ks)

  -- `rowKeyColumns`
  unfoldable pub row_key_columns : d.Db → Relation → Checked (List Bytes)
  row_key_columns db r = answered (d.primary_key db r.schema r.name) >>= key_or_columns db r

  abbrev pub reference_query : Bytes → Relation → Bytes
  reference_query expr r =
      codes "SELECT "
      ++ expr
      ++ codes " FROM "
      ++ sql_name r
      ++ codes " WHERE "
      ++ quote_ident r.tenant_column
      ++ codes " = $1 ORDER BY "
      ++ expr

  abbrev pub restricted_query : Bytes → Relation → Bytes
  restricted_query expr r =
      codes "SELECT " ++ expr ++ codes " FROM " ++ sql_name r ++ codes " ORDER BY " ++ expr

  unfoldable pub a4_rows : d.Db → Relation → Bytes → Checked (List Bytes × List Bytes)
  unfolding row_key_columns row_key_expr as_tenant sql_name quote_ident
  a4_rows db r tenant = do
    keys ← row_key_columns db r
    reference ← answered (d.rows db (reference_query (row_key_expr keys) r) (tenant ∷ []))
    conn ← as_tenant db tenant
    got ← answered (d.conn_rows conn (restricted_query (row_key_expr keys) r))
    inr (reference, got)

  abbrev pub a4_result :
      Relation → Checked (List Bytes × List Bytes) → List Bytes × List Bytes × Option CheckError
  a4_result r (inl e) = ([], [], some e)
  a4_result r (inr (reference, got)) = (
    reference,
    got,
    if string_slices_equal reference got then none else some (fault a4_failed (qualified r)),
  )

  -- `CheckA4`
  unfoldable pub check_a4 : d.Db → Relation → Bytes → List Bytes × List Bytes × Option CheckError
  unfolding a4_rows string_slices_equal
  check_a4 db r tenant = a4_result r (a4_rows db r tenant)
