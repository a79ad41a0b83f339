-- ===== src/Sqlite/Api.antt =====
-- The SQLite store as one of the stores that a controller or a server can have. Its state holds the
-- behaviour of the database in each of the calls that are still to come.
use mnemonic.Prelude.{ℕ, suc}
use mnemonic.Platform.{Platform}
use mnemonic.Store.Allowed.{Mandatory}
use mnemonic.Controller.Interface.{StoreApi}
use mnemonic.Sqlite.State.{Db, SqliteStore}
use mnemonic.Sqlite.Queries.{list_heads, get, all_in, all_by_category, query, query_by_category}
use mnemonic.Sqlite.Changes.{upsert_entry, score, delete, promote}

pub record Session (F : Type 0) : Type 0 where
  pub store : SqliteStore F
  pub calls : ℕ → Db F

module _ {F : Type 0} ⦃p : Platform F⦄ where
  -- The state after a call.
  abbrev pub after : Session F → SqliteStore F → Session F
  after r s = record { store = s; calls = λ n. r.calls (suc n) }

  abbrev pub sqlite_api : Mandatory → StoreApi F
  sqlite_api m = record {
    State = Session F;
    list_heads = λ r scopes. list_heads (r.calls 0) r.store m scopes;
    get = λ r id. get (r.calls 0) r.store id;
    all_in = λ r scopes. let (es, s) = all_in (r.calls 0) r.store scopes in (es, after r s);
    all_by_category = λ r c k scopes.
        let (es, s) = all_by_category (r.calls 0) r.store c k scopes in (es, after r s);
    query = λ r c tags. let (es, s) = query (r.calls 0) r.store c tags in (es, after r s);
    query_by_category = λ r c q k scopes.
        let (es, s) = query_by_category (r.calls 0) r.store c q k scopes in (es, after r s);
    upsert = λ r e. let (x, e', s) = upsert_entry (r.calls 0) r.store e in (x, e', after r s);
    score = λ r id delta. let (x, s) = score (r.calls 0) r.store id delta in (x, after r s);
    delete = λ r id. let (x, s) = delete (r.calls 0) r.store id in (x, after r s);
    promote = λ r id t. let (x, s) = promote (r.calls 0) r.store id t in (x, after r s);
  }
