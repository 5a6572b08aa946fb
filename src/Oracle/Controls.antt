-- ===== src/Oracle/Controls.antt =====
-- internal/oracle/oracle.go: what a check that returns no error has seen.
use tenantguard.Base.{
  List, Option, [], arith, inl, inr, length, none, refl, some, true, ℕ, ◌<◌, ◌↔◌, ◌∷◌, ◌≡◌,
}
use tenantguard.Base.Bytes.{Bytes, equal_iff}
use tenantguard.Differ.Rerun.{Answer, Failure, done, failed}
use tenantguard.Oracle.Checks.{
  Checked, Database, a1_counts, a1_result, a4_result, a4_rows, all_equal, answered, as_tenant,
  check_a1, check_a4, count_rows_query, reference_query, restricted_query, row_key_columns,
  row_key_expr, session, set_tenant_query, string_slices_equal, tenant_canary_text, ◌>>=◌,
}
use tenantguard.Oracle.Literal.{canary_a}
use tenantguard.Schema.{Relation}

pub all_equal-eq : (a b : List Bytes) → length a ≡ length b → (all_equal a b ≡ true) ↔ (a ≡ b)
unfolding all_equal
all_equal-eq [] [] e = ground arith
all_equal-eq [] (y ∷ b) e = absurd (omega arith)
all_equal-eq (x ∷ a) [] e = absurd (omega arith)
all_equal-eq (x ∷ a) (y ∷ b) e = ground (arith, equal_iff x y, all_equal-eq a b)

pub string_slices_equal_iff : (a b : List Bytes) → (string_slices_equal a b ≡ true) ↔ (a ≡ b)
unfolding string_slices_equal
string_slices_equal_iff a b = ground (arith, all_equal-eq a b)

-- A successful bind, and a question that was answered.
pub bound_answer {ℓ κ} :
    {A : Type ℓ} {B : Type κ} (m : Checked A) (f : A → Checked B) (b : B)
    → (m >>= f) ≡ inr b
    → (a : A) × (m ≡ inr a) × (f a ≡ inr b)
bound_answer (inl e) f b h = cc
bound_answer (inr a) f b h = (a, refl, h)

pub answered-inr {ℓ} : {A : Type ℓ} (m : Answer A) (a : A) → answered m ≡ inr a → m ≡ done a
answered-inr (failed f) a h = cc
answered-inr (done x) a h = ground arith

pub asked {ℓ κ} :
    {A : Type ℓ} {B : Type κ} (m : Answer A) (f : A → Checked B) (b : B)
    → (answered m >>= f) ≡ inr b
    → (a : A) × (m ≡ done a) × (f a ≡ inr b)
asked m f b h = let (a, p, q) = bound_answer (answered m) f b h in (a, answered-inr m a p, q)

-- A session of the restricted role whose tenant has been set.
pub record RoleSession (d : Database) (db : d.Db) (tenant : Bytes) (ready : d.Conn) : Type 0 where
  pub conn : d.Conn
  pub acquired : d.acquire db ≡ done conn
  pub set_to : d.set conn set_tenant_query tenant ≡ (none, ready)

-- What A1 has seen when it passes: strictly fewer rows in the restricted session than there are.
pub record Withheld (d : Database) (db : d.Db) (r : Relation) : Type 0 where
  pub total : ℕ
  pub seen : ℕ
  pub tenant : Bytes
  pub ready : d.Conn
  pub counted : d.count db (count_rows_query r) ≡ done total
  pub tenant_text : tenant_canary_text d db r canary_a ≡ inr tenant
  pub in_session : RoleSession d db tenant ready
  pub seen_there : d.conn_count ready (count_rows_query r) ≡ done seen
  pub fewer : seen < total

-- What A4 has seen: the restricted session shows, without a predicate, the keys of the rows that the
-- unrestricted connection finds by the tenant column.
pub record Reproduced (d : Database) (db : d.Db) (r : Relation) (tenant : Bytes) : Type 0 where
  pub keys : List Bytes
  pub shown : List Bytes
  pub ready : d.Conn
  pub keyed : row_key_columns d db r ≡ inr keys
  pub reference : d.rows db (reference_query d (row_key_expr keys) r) (tenant ∷ []) ≡ done shown
  pub in_session : RoleSession d db tenant ready
  pub shown_there : d.conn_rows ready (restricted_query d (row_key_expr keys) r) ≡ done shown

module _ (d : Database) (db : d.Db) where
  session-RoleSession :
      (tenant : Bytes) (conn ready : d.Conn) (step : Option Failure × d.Conn)
      → d.acquire db ≡ done conn
      → d.set conn set_tenant_query tenant ≡ step
      → session d step ≡ inr ready
      → RoleSession d db tenant ready
  session-RoleSession tenant conn ready (some f, after) p q h = cc
  session-RoleSession tenant conn ready (none, after) p q h = record {
    conn = conn;
    acquired = p;
    set_to = ground arith;
  }

  as_tenant-RoleSession :
      (tenant : Bytes) (ready : d.Conn)
      → as_tenant d db tenant ≡ inr ready
      → RoleSession d db tenant ready
  unfolding as_tenant
  as_tenant-RoleSession tenant ready h =
      let (conn, p, q) =
        asked (d.acquire db) (λ conn. session d (d.set conn set_tenant_query tenant)) ready h in
      session-RoleSession tenant conn ready (d.set conn set_tenant_query tenant) p refl q

  a1_result-none :
      (r : Relation) (c : Checked (ℕ × ℕ))
      → (a1_result d r c).2 ≡ none
      → (n : ℕ) × (m : ℕ) × (c ≡ inr (n, m)) × (m < n)
  a1_result-none r (inl e) h = cc
  a1_result-none r (inr (n, m)) h = (n, m, refl, ground arith)

  -- Where CheckA1 returns no error, both counts were obtained, the second one by the restricted role in
  -- a session whose tenant is the first canary, and it is strictly smaller.
  pub check_a1-Withheld : (r : Relation) → (check_a1 d db r).2 ≡ none → Withheld d db r
  unfolding check_a1 a1_counts
  check_a1-Withheld r h =
      let (n, m, e, lt) = a1_result-none r (a1_counts d db r) h in
      let (total, p1, q1) = asked (d.count db (count_rows_query r)) _ (n, m) e in
      let (tenant, p2, q2) = bound_answer (tenant_canary_text d db r canary_a) _ (n, m) q1 in
      let (ready, p3, q3) = bound_answer (as_tenant d db tenant) _ (n, m) q2 in
      let (seen, p4, q4) = asked (d.conn_count ready (count_rows_query r)) _ (n, m) q3 in
      record {
        total = total;
        seen = seen;
        tenant = tenant;
        ready = ready;
        counted = p1;
        tenant_text = p2;
        in_session = as_tenant-RoleSession tenant ready p3;
        seen_there = p4;
        fewer = ground (arith, q4, lt);
      }

  a4_result-none :
      (r : Relation) (c : Checked (List Bytes × List Bytes))
      → (a4_result d r c).2 ≡ none
      → (rows : List Bytes) × (c ≡ inr (rows, rows))
  a4_result-none r (inl e) h = cc
  a4_result-none r (inr (a, b)) h =
      let same : a ≡ b = ground (arith, string_slices_equal_iff a b) in (a, rw same)

  -- Where CheckA4 returns no error, the restricted session, whose tenant is the one asked for, shows of
  -- the whole table exactly the keys, in their order, that the unrestricted connection finds for that
  -- tenant by the tenant column.
  pub check_a4-Reproduced :
      (r : Relation) (tenant : Bytes) → (check_a4 d db r tenant).2 ≡ none → Reproduced d db r tenant
  unfolding check_a4 a4_rows
  check_a4-Reproduced r tenant h =
      let (rows, e) = a4_result-none r (a4_rows d db r tenant) h in
      let (keys, p1, q1) = bound_answer (row_key_columns d db r) _ (rows, rows) e in
      let (reference, p2, q2) =
        asked (d.rows db (reference_query d (row_key_expr keys) r) (tenant ∷ [])) _ (rows, rows)
          q1 in
      let (ready, p3, q3) = bound_answer (as_tenant d db tenant) _ (rows, rows) q2 in
      let (got, p4, q4) =
        asked (d.conn_rows ready (restricted_query d (row_key_expr keys) r)) _ (rows, rows) q3 in
      record {
        keys = keys;
        shown = rows;
        ready = ready;
        keyed = p1;
        reference = ground (arith, p2, q4);
        in_session = as_tenant-RoleSession tenant ready p3;
        shown_there = ground (arith, p4, q4);
      }
