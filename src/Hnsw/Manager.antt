-- ===== src/Hnsw/Manager.antt =====
-- hnsw.go, index_hnsw.go and metadata.go. The graph is a library's; `HnswOs` is what the operating
-- system does during one call.
use mnemonic.Prelude.{
  ℕ, String, Bool, true, false, not, List, [], ◌∷◌, map, Option, some, nat_eq, length, contains,
  if◌then◌else◌,
}
use mnemonic.Prelude.Maps.{Map, insert, remove, keys}
use mnemonic.Store.Entry.{Entry, Result, ok, err, external, wrapped}
use mnemonic.Config.State.{ℤ, pos, negsuc}
use mnemonic.Controller.Interface.{SearchResult}

-- `hnsw.Graph` of github.com/coder/hnsw
pub record GraphApi (F : Type 0) : Type 1 where
  pub Graph : Type 0
  pub empty : Graph
  pub add : String → List F → Graph → Graph
  pub delete : String → Graph → Bool × Graph
  pub lookup_node : Graph → String → Option (List F)
  pub search_with_distance : Graph → List F → ℕ → List (SearchResult F)

-- Whether creating the index file, exporting the graph into it, and saving the metadata succeed; a
-- save of the metadata that fails leaves their file as it was.
pub record HnswOs : Type 0 where
  pub now : ℕ
  pub create : Bool
  pub export_graph : Bool
  pub save : Bool

-- The index file: absent, one that an export has not completed, or a graph.
pub data IndexFile (G : Type 0) : Type 0 where
  absent truncated : IndexFile G
  exported : G → IndexFile G

-- `meta` is `IndexMetadata.Entries`; the last two fields are the files.
pub record HnswManager {F : Type 0} (G : GraphApi F) : Type 0 where
  pub graph : G.Graph
  pub dimensions : ℤ
  pub meta : Map ℕ
  pub dirty : Bool
  pub index_file : IndexFile G.Graph
  pub meta_file : Option (Map ℕ)

unfoldable pub has_size : {F : Type 0} → ℤ → List F → Bool
has_size (pos n) v = nat_eq (length v) n
has_size (negsuc n) v = false

module _ {F : Type 0} (G : GraphApi F) where
  unfoldable pub insert_vector : HnswManager G → String → List F → Result (Unit {0}) × HnswManager G
  unfolding has_size
  insert_vector m id v =
      if has_size m.dimensions v
      then (ok tt, record m { graph = G.add id v m.graph })
      else (err (external "vector dimension mismatch"), m)

  unfoldable pub delete_vector : HnswManager G → String → Result (Unit {0}) × HnswManager G
  delete_vector m id =
      let (deleted, g) = G.delete id m.graph in
      (if deleted then ok tt else err (external "node not found in index"), record m { graph = g })

  unfoldable pub search : HnswManager G → List F → ℕ → Result (List (SearchResult F))
  unfolding has_size
  search m target k =
      if has_size m.dimensions target
      then ok (G.search_with_distance m.graph target k)
      else err (external "target dimension mismatch")

  unfoldable pub lookup_vector : HnswManager G → String → Option (List F)
  lookup_vector m id = G.lookup_node m.graph id

  -- The dirty flag is cleared before anything is written.
  unfoldable pub flush : HnswOs → HnswManager G → Result (Unit {0}) × HnswManager G
  flush os m =
      let m1 = record m { dirty = false } in
      let m2 = record m1 { index_file = exported m.graph } in
      let m3 = record m2 { meta_file = some m.meta } in
      if not m.dirty
      then (ok tt, m)
      else if not os.create
      then (err (external "creating index file"), m1)
      else if not os.export_graph
      then (err (external "exporting index"), record m1 { index_file = truncated })
      else if not os.save
      then (err (external "saving metadata"), m2)
      else (ok tt, m3)

  unfoldable pub index_entry :
      HnswOs → HnswManager G → Entry F → (String → Result (List F)) → HnswManager G
  unfolding insert_vector insert
  index_entry os m e embed = elim (embed e.content) [
    | err _ ↦ m
    | ok v ↦
        let (r, m') = insert_vector m e.id v in
        elim r [ err _ ↦ m' | ok _ ↦ record m' { meta = insert e.id os.now m'.meta; dirty = true } ]
  ]

  unfoldable pub remove_from_index : HnswManager G → String → HnswManager G
  unfolding delete_vector remove
  remove_from_index m id =
      if contains (keys m.meta) id
      then (delete_vector (record m { meta = remove id m.meta; dirty = true }) id).1
      else m

  -- The loops of `BuildIndexes`: the entries without a vector, the IDs without an entry, the
  -- vectors of the new entries.
  unfoldable pub to_embed : List String → List (Entry F) → List (Entry F)
  to_embed known [] = []
  to_embed known (e ∷ es) = if contains known e.id then to_embed known es else e ∷ to_embed known es

  unfoldable pub remove_stale : List String → List String → HnswManager G → HnswManager G
  unfolding delete_vector remove
  remove_stale active [] m = m
  remove_stale active (id ∷ ids) m =
      if contains active id
      then remove_stale active ids m
      else remove_stale active ids
          (let m' = (delete_vector m id).1 in record m' { meta = remove id m'.meta })

  unfoldable pub insert_all :
      HnswOs → List (Entry F) → List (List F) → HnswManager G → HnswManager G
  unfolding insert_vector insert
  insert_all os [] vs m = m
  insert_all os (e ∷ es) [] m = m
  insert_all os (e ∷ es) (v ∷ vs) m =
      let (r, m') = insert_vector m e.id v in
      insert_all os es vs
        (elim r [ err _ ↦ m' | ok _ ↦ record m' { meta = insert e.id os.now m'.meta } ])

  -- `BuildIndexes` once the stale IDs are out: `new` are the entries without a vector.
  unfoldable pub embed_new :
      HnswOs
      → HnswManager G
      → List (Entry F)
      → (List String → Result (List (List F)))
      → Result (Unit {0}) × HnswManager G
  unfolding insert_all flush
  embed_new os m [] embed = flush os (record m { dirty = true })
  embed_new os m (e ∷ es) embed = elim (embed (map (λ (x : Entry F). x.content) (e ∷ es))) [
    | err x ↦ (err (wrapped "batch embedding" x), m)
    | ok vectors ↦
        if nat_eq (length vectors) (length (e ∷ es))
        then flush os (record (insert_all os (e ∷ es) vectors m) { dirty = true })
        else (err (external "batch embedding returned too many or too few vectors"), m)
  ]

  unfoldable pub build_indexes :
      HnswOs
      → HnswManager G
      → List (Entry F)
      → Bool
      → (List String → Result (List (List F)))
      → Result (Unit {0}) × HnswManager G
  unfolding to_embed remove_stale embed_new
  build_indexes os m entries force embed =
      let cleared : HnswManager G =
        if force then (record m { graph = G.empty; meta = [] }) else m in
      let known = keys cleared.meta in
      let active = map (λ (e : Entry F). e.id) entries in
      embed_new os (remove_stale active known cleared) (to_embed known entries) embed
