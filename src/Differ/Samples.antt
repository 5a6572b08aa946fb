-- ===== src/Differ/Samples.antt =====
-- A small server, a captured write and a relation, for the tests of the differ.
use tenantguard.Base.{Bool, List, [], ap, false, if◌then◌else◌, none, refl, some, sym, true, ℕ, ◌∷◌}
use tenantguard.Base.Bytes.{Bytes, codes}
use tenantguard.Capture.Message.{Param, zero_param}
use tenantguard.Capture.Session.{Event, kind_bind, no_note}
use tenantguard.Differ.Rerun.{Answer, Server, done, failed}
use tenantguard.Differ.Rows.{Cell}
use tenantguard.Differ.Verdict.Durable.{Isolation}
use tenantguard.Schema.{Relation, scoped}

abbrev pub row : Bytes → List Cell
row a = some a ∷ none ∷ []

abbrev pub a_row : List Cell
a_row = row (b'a' ∷ [])

abbrev pub b_row : List Cell
b_row = row (b'b' ∷ [])

-- A database is whether its one row is there, and a transaction the database with what the transaction
-- sees; a statement removes the row, and reports n rows.
abbrev pub server : ℕ → Server
server n = record {
  Db = Bool;
  Tx = Bool × Bool;
  acquire = λ db. done db;
  release = λ db. db;
  exec_on = λ db sql args. (none, db);
  begin = λ db. done (db, db);
  rollback = λ tx. tx.0;
  query = λ tx sql args. (
    done (record { columns = none; scans = if tx.1 then done a_row ∷ [] else []; err = none }),
    tx,
  );
  exec = λ tx sql args. (done (done n), (tx.0, false));
}

pub isolation : Isolation (server 1)
isolation = record {
  Data = Bool;
  stored = λ db. db;
  outside = λ tx. tx.0;
  begin_keeps = λ db tx e. ap (opened db) (sym e);
  query_keeps = λ tx sql args h. refl;
  exec_keeps = λ tx sql args h. refl;
  savepoint_keeps = λ tx. refl;
  rollback_to_keeps = λ tx. refl;
  removal_keeps = λ tx ck. refl;
  rollback_keeps = λ tx. refl;
  acquire_keeps = λ db conn e. ap (connected db) (sym e);
  release_keeps = λ conn. refl;
  set_tenant_keeps = λ conn args. refl;
}
  where
    opened : Bool → Answer (Bool × Bool) → Bool
    opened db (failed f) = db
    opened db (done tx) = tx.0

    connected : Bool → Answer Bool → Bool
    connected db (failed f) = db
    connected db (done conn) = conn

unfoldable pub delete_row : Bytes
delete_row = codes "DELETE FROM orders WHERE id = $1"

-- A captured write, with its one parameter.
abbrev pub write_event : Event
write_event = record {
  conn = 1;
  kind = kind_bind;
  stmt = [];
  portal = [];
  sql = delete_row;
  resolved = true;
  params = record zero_param { known = true; text = b'1' ∷ [] } ∷ [];
  note = no_note;
}

abbrev pub orders : Relation
orders = record {
  schema = codes "public";
  name = codes "orders";
  kind = codes "BASE TABLE";
  class = scoped;
  tenant_column = codes "tenant_id";
  candidates = codes "tenant_id" ∷ [];
  fixture = [];
}

abbrev pub tenant_params : List Param
tenant_params = record zero_param { known = true; text = codes "t1" } ∷ []

abbrev pub tenant_query : Bytes
tenant_query = codes "SELECT 1 FROM orders WHERE tenant_id = $1"
