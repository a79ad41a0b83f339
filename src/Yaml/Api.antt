-- ===== src/Yaml/Api.antt =====
-- The YAML store as one of the stores that a controller can have. Its state holds the behaviour of
-- the operating system in each of the calls that are still to come.
use mnemonic.Prelude.{ℕ, suc}
use mnemonic.Platform.{Platform}
use mnemonic.Store.Entry.{ok}
use mnemonic.Store.Allowed.{Mandatory}
use mnemonic.Controller.Interface.{StoreApi}
use mnemonic.Yaml.State.{Os, YamlStore}
use mnemonic.Yaml.Queries.{list_heads, get, all_in, all_by_category, query, query_by_category}
use mnemonic.Yaml.Changes.{upsert, score, delete, promote}

pub record Running (F : Type 0) : Type 0 where
  pub store : YamlStore F
  pub calls : ℕ → Os F

module _ {F : Type 0} ⦃p : Platform F⦄ where
  -- The state after a call.
  abbrev pub after_call : Running F → YamlStore F → Running F
  after_call r s = record { store = s; calls = λ n. r.calls (suc n) }

  abbrev pub yaml_api : Mandatory → StoreApi F
  yaml_api m = record {
    State = Running F;
    list_heads = λ r scopes. ok (list_heads m r.store scopes);
    get = λ r id. get r.store id;
    all_in = λ r scopes. let (es, s) = all_in (r.calls 0) r.store scopes in (ok es, after_call r s);
    all_by_category = λ r c k scopes.
        let (es, s) = all_by_category (r.calls 0) r.store c k scopes in (ok es, after_call r s);
    query = λ r c tags. let (es, s) = query (r.calls 0) r.store c tags in (ok es, after_call r s);
    query_by_category = λ r c q k scopes.
        let (es, s) = query_by_category (r.calls 0) r.store c q k scopes in (ok es, after_call r s);
    upsert = λ r e. let (x, e', s) = upsert (r.calls 0) r.store e in (x, e', after_call r s);
    score = λ r id delta. let (x, s) = score (r.calls 0) r.store id delta in (x, after_call r s);
    delete = λ r id. let (x, s) = delete (r.calls 0) r.store id in (x, after_call r s);
    promote = λ r id t. let (x, s) = promote (r.calls 0) r.store id t in (x, after_call r s);
  }
