-- ===== src/Vectors/Api.antt =====
-- The index as the one of a controller, with the database's behaviour in all calls.
use mnemonic.Platform.{Platform}
use mnemonic.Controller.Interface.{IndexApi}
use mnemonic.Vectors.Index.{VecDb, VecIndex, search, lookup_vector}
use mnemonic.Vectors.Manager.{index_entry, remove_from_index, build_indexes}

abbrev pub vec_api : {F B : Type 0} → ⦃p : Platform F⦄ → VecDb F B → IndexApi F
vec_api {B = B} db = record {
  State = VecIndex B;
  search = search db;
  lookup_vector = lookup_vector db;
  index_entry = index_entry db;
  remove_from_index = remove_from_index db;
  build_indexes = build_indexes db;
}
