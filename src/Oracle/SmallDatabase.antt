-- ===== src/Oracle/SmallDatabase.antt =====
-- A small database, for the tests of the oracle and of the gate.
use tenantguard.Base.{[], false, none, refl, true, ℕ, ◌+◌, ◌∷◌, ◌≡◌}
use tenantguard.Base.Assoc.{lookup}
use tenantguard.Base.Bytes.{Bytes, codes, equal}
use tenantguard.Capture.Oid.Decimal.{digits_onto, format_uint}
use tenantguard.Differ.Rerun.{done}
use tenantguard.Differ.Write.{quote_ident}
use tenantguard.Oracle.Checks.{Database}
use tenantguard.Oracle.Literal.{samples}
use tenantguard.Oracle.Plan.{Column}
use tenantguard.Oracle.Seed.{Ledger, Probe, sampled, seed_canaries}
use tenantguard.Schema.{Relation, qualified, scoped}

abbrev pub id_column : Column
id_column = record {
  name = codes "id";
  type = codes "uuid";
  not_null = true;
  has_default = false;
  is_identity = false;
}

abbrev pub tenant_id_column : Column
tenant_id_column = record id_column { name = codes "tenant_id"; type = codes "text" }

abbrev pub note_column : Column
note_column = record id_column { name = codes "note"; type = codes "text"; not_null = false }

abbrev pub seeded_orders : Relation
seeded_orders = record {
  schema = codes "public";
  name = codes "orders";
  kind = codes "BASE TABLE";
  class = scoped;
  tenant_column = codes "tenant_id";
  candidates = codes "tenant_id" ∷ [];
  fixture = [];
}

-- A database whose state is the number of statements executed so far.
abbrev pub small_probe : Probe
small_probe = record {
  Db = ℕ;
  connect = λ db. none;
  exec = λ db sql. (none, db + 1);
  columns = λ db s n. done (id_column ∷ tenant_id_column ∷ note_column ∷ []);
  index_columns = λ db s n. done ((16385, codes "id") ∷ []);
  ctids = λ db sql. done (codes "(0,1)" ∷ codes "(0,2)" ∷ []);
  labels = λ db t. done [];
  quoted = λ s. s;
}

-- The restricted role sees one of two rows, as it should.
abbrev pub small_database : Database
small_database = record {
  probe = small_probe;
  Conn = Bytes;
  primary_key = λ db s n. done (codes "id" ∷ []);
  row_security = λ db s n. done (true, true);
  policies = λ db s n. done 1;
  owner = λ db s n. done (codes "admin");
  privileges = λ db role. done (false, false);
  count = λ db sql. done 2;
  rows = λ db sql args. done (codes "k1" ∷ []);
  acquire = λ db. done [];
  set = λ conn sql tenant. (none, tenant);
  conn_count = λ conn sql. done 1;
  conn_rows = λ conn sql. done (codes "k1" ∷ []);
}

abbrev pub one_seeded : Ledger
one_seeded = record { seeded = (codes "public.orders", sampled) ∷ []; skipped = [] }

pub seeded_test : (seed_canaries small_probe 0 (seeded_orders ∷ [])).0 ≡ done one_seeded
unfolding seed_canaries codes samples lookup equal format_uint digits_onto quote_ident qualified
seeded_test = refl
