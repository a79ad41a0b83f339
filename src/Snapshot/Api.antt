-- ===== src/Snapshot/Api.antt =====
-- The snapshot as one of the stores that a controller can have; `now` is the time of the calls.
use mnemonic.Prelude.{ℕ, String, some, ◌≡◌, arith, eq_iff}
use mnemonic.Prelude.Maps.{lookup, lookup-remove}
use mnemonic.Platform.{Platform}
use mnemonic.Store.Entry.{Error, ok, err, not_found}
use mnemonic.Store.Allowed.{Mandatory}
use mnemonic.Controller.Interface.{StoreApi}
use mnemonic.Snapshot.State.{
  SnapshotStore, list_heads, get, all_in, all_by_category, query, query_by_category, upsert, score,
  delete, promote,
}

module _ {F : Type 0} ⦃p : Platform F⦄ (m : Mandatory) (now : ℕ) where
  abbrev pub snapshot_api : StoreApi F
  snapshot_api = record {
    State = SnapshotStore F;
    list_heads = λ s scopes. ok (list_heads m s scopes);
    get = get;
    all_in = λ s scopes. (ok (all_in now s scopes), s);
    all_by_category = λ s c k scopes. (ok (all_by_category now s c k scopes), s);
    query = λ s c tags. (ok (query now s c tags), s);
    query_by_category = λ s c q k scopes. (ok (query_by_category now s c q k scopes), s);
    upsert = λ s e. let (r, t) = upsert s (some e) in (r, e, t);
    score = λ s id delta. score now s id delta;
    delete = delete;
    promote = promote;
  }

  -- What a snapshot deletes is gone.
  pub snapshot_api-deletes :
      (s : SnapshotStore F) (id : String)
      → (snapshot_api.delete s id).0 ≡ ok tt
      → (x : Error) × (snapshot_api.get (snapshot_api.delete s id).1 id ≡ err x)
  unfolding get delete lookup
  snapshot_api-deletes s id h = (not_found id, ground (arith, lookup-remove id id s, eq_iff id id))
