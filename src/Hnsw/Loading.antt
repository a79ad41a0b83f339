-- ===== src/Hnsw/Loading.antt =====
-- hnsw.go and index_hnsw.go: `Import`, `Load` and `Validate`, and what is loaded after a flush.
use mathlib.Core.Path.{subst}
use mnemonic.Prelude.{
  ℕ, zero, suc, Bool, true, false, not, ◌&&◌, List, [], ◌∷◌, Option, none, some, ◌≡◌, refl, sym, ap,
  arith, nat_eq, length, String, if◌then◌else◌,
}
use mnemonic.Platform.{Platform}
use mnemonic.Store.Entry.{Error, Result, ok, err, external, wrapped}
use mnemonic.Config.State.{ℤ, pos, negsuc}
use mnemonic.Hnsw.Manager.{
  GraphApi, HnswOs, IndexFile, absent, truncated, exported, HnswManager, flush, search,
  lookup_vector, has_size,
}

unfoldable pub int_eq : ℤ → ℤ → Bool
int_eq (pos m) (pos n) = nat_eq m n
int_eq (pos m) (negsuc n) = false
int_eq (negsuc m) (pos n) = false
int_eq (negsuc m) (negsuc n) = nat_eq m n

-- What the library reads of a graph's file, and its fields. `panics` tells whether a search
-- panics.
pub record GraphReader {F : Type 0} (G : GraphApi F) : Type 0 where
  -- what `Import` answers and the graph after it, also where it fails
  pub import_graph : G.Graph → Result (Unit {0}) × G.Graph
  -- the same, of a file that an export has not completed
  pub import_truncated : Result (Unit {0}) × G.Graph
  pub dims : G.Graph → ℕ
  pub connections : G.Graph → ℤ
  pub level_factor : G.Graph → F
  pub panics : G.Graph → List F → Bool

-- The errors of the files, apart from the one that a file does not exist.
pub record LoadOs : Type 0 where
  pub read_metadata : Option Error
  pub open_index : Option Error

module _ {F : Type 0} ⦃p : Platform F⦄ (G : GraphApi F) (R : GraphReader G) where
  -- `configured` are Dimensions and Connections, and `level` LevelFactor.
  unfoldable pub check_index : ℤ → ℤ → F → G.Graph → Result (Unit {0})
  unfolding int_eq
  check_index dimensions connections level g =
      if not (nat_eq (R.dims g) 0) && not (int_eq (pos (R.dims g)) dimensions)
      then err (external "dimension mismatch")
      else if not (int_eq (R.connections g) connections)
      then err (external "connections (M) mismatch")
      else if not (p.eq (R.level_factor g) level)
      then err (external "level factor (Ml) mismatch")
      else ok tt

  -- The index file is there.
  unfoldable pub import_index : ℤ → ℤ → F → IndexFile G.Graph → Result (Unit {0}) × G.Graph
  unfolding check_index
  import_index dimensions connections level file =
      let (r, g) : Result (Unit {0}) × G.Graph = elim file [
        | exported e ↦ R.import_graph e
        | _ ↦ R.import_truncated
      ] in
      (
        elim r [
          | err x ↦ err (wrapped "importing hnsw graph" x)
          | ok _ ↦ check_index dimensions connections level g
        ],
        g,
      )

  -- `make([]float32, n)` filled with 0.5
  unfoldable pub test_vector : ℕ → List F
  test_vector zero = []
  test_vector (suc n) = p.literal 5 1 ∷ test_vector n

  -- A negative size is a panic of `make`; every panic is recovered.
  unfoldable pub validate : HnswManager G → Result (Unit {0})
  unfolding test_vector search
  validate m = elim m.meta [
    | [] ↦ ok tt
    | _ ∷ _ ↦ elim m.dimensions [
      | negsuc _ ↦ err (external "index validation panicked")
      | pos n ↦
          if R.panics m.graph (test_vector n)
          then err (external "index validation panicked")
          else elim (search G m (test_vector n) 1) [ err x ↦ err x | ok _ ↦ ok tt ]
    ]
  ]

  -- `Load` with the metadata that was read.
  -- `Load` from the opened file on.
  unfoldable pub load_file :
      LoadOs → ℤ → F → HnswManager G → IndexFile G.Graph → Result (Unit {0}) × HnswManager G
  unfolding import_index validate
  load_file os connections level m file = elim os.open_index [
    | some x ↦ (err (wrapped "opening index" x), m)
    | none ↦
        let (r, g) = import_index m.dimensions connections level file in
        let m' : HnswManager G = record m { graph = g } in
        elim r [
          | err x ↦ (err (wrapped "importing index" x), m')
          | ok _ ↦ (
            ok tt,
            elim (validate m') [ ok _ ↦ m' | err _ ↦ record m' { graph = G.empty; meta = [] } ],
          )
        ]
  ]

  -- `Load` with the metadata that was read. Without an index file they are cleared.
  unfoldable pub load_index : LoadOs → ℤ → F → HnswManager G → Result (Unit {0}) × HnswManager G
  unfolding load_file
  load_index os connections level m = elim m.index_file [
    | absent ↦ (ok tt, record m { meta = [] })
    | truncated ↦ load_file os connections level m truncated
    | exported g ↦ load_file os connections level m (exported g)
  ]

  unfoldable pub load : LoadOs → ℤ → F → HnswManager G → Result (Unit {0}) × HnswManager G
  unfolding load_index
  load os connections level m = elim m.meta_file [
    | none ↦ load_index os connections level (record m { meta = [] })
    | some file ↦ elim os.read_metadata [
      | some x ↦ (err (wrapped "loading metadata" x), m)
      | none ↦ load_index os connections level (record m { meta = file })
    ]
  ]

  test_vector-length : (n : ℕ) → length (test_vector n) ≡ n
  unfolding test_vector
  test_vector-length zero = refl
  test_vector-length (suc n) = ap suc (test_vector-length n)

  int_eq_refl : (i : ℤ) → int_eq i i ≡ true
  unfolding int_eq
  int_eq_refl (pos n) = ground arith
  int_eq_refl (negsuc n) = ground arith

  -- A graph whose file can be loaded: it reads back with the same nodes and the configured
  -- parameters, and a search in it does not panic.
  pub record IsLoadable (dimensions : ℕ) (connections : ℤ) (level : F) (g : G.Graph) : Type 0 where
    pub reads : (R.import_graph g).0 ≡ ok tt
    pub nodes : (id : String) → G.lookup_node (R.import_graph g).1 id ≡ G.lookup_node g id
    pub sized : R.dims (R.import_graph g).1 ≡ dimensions
    pub connected : R.connections (R.import_graph g).1 ≡ connections
    pub leveled : p.eq (R.level_factor (R.import_graph g).1) level ≡ true
    pub calm : (v : List F) → R.panics (R.import_graph g).1 v ≡ false

  -- The manager of a process that starts again: nothing but the files.
  abbrev pub restarted : HnswManager G → HnswManager G
  restarted m = record m { graph = G.empty; meta = []; dirty = false }

  IsLoadable-check :
      (n : ℕ) (connections : ℤ) (level : F) (g : G.Graph)
      → IsLoadable n connections level g
      → check_index (pos n) connections level (R.import_graph g).1 ≡ ok tt
  unfolding check_index
  IsLoadable-check n connections level g k =
      let same : int_eq (pos n) (pos n) ≡ true = int_eq_refl (pos n) in
      let joined : int_eq (R.connections (R.import_graph g).1) connections ≡ true =
        rw k.connected (int_eq_refl connections) in
      ground (arith, k.sized, k.leveled)

  IsLoadable-validate :
      (n : ℕ) (connections : ℤ) (level : F) (g : G.Graph) (m : HnswManager G)
      → IsLoadable n connections level g
      → m.graph ≡ (R.import_graph g).1
      → m.dimensions ≡ pos n
      → validate m ≡ ok tt
  unfolding validate search has_size
  IsLoadable-validate n connections level g m k h d =
      let calm : R.panics m.graph (test_vector n) ≡ false = rw h (k.calm (test_vector n)) in
      ground (arith, test_vector-length n)

  load_index_loadable :
      (l : LoadOs) (n : ℕ) (connections : ℤ) (level : F) (m : HnswManager G) (file : G.Graph)
      → l.open_index ≡ none
      → m.dimensions ≡ pos n
      → IsLoadable n connections level file
      → load_index l connections level (record m { index_file = exported file })
        ≡ (ok tt, record m { graph = (R.import_graph file).1; index_file = exported file })
  unfolding load_index load_file import_index
  load_index_loadable l n connections level m file oi size k =
      let loaded : HnswManager G = record m {
        graph = (R.import_graph file).1;
        index_file = exported file;
      } in
      let checked : check_index m.dimensions connections level (R.import_graph file).1 ≡ ok tt =
        rw size (IsLoadable-check n connections level file k) in
      let valid : validate loaded ≡ ok tt =
        IsLoadable-validate n connections level file loaded k refl size in
      rw (load_index, load_file, oi, k.reads, import_index, checked, valid) refl

  flushed :
      (os : HnswOs) (m : HnswManager G)
      → m.dirty ≡ true
      → (flush G os m).0 ≡ ok tt
      → (flush G os m).1
        ≡ record m { dirty = false; index_file = exported m.graph; meta_file = some m.meta }
  unfolding flush
  flushed os m d h = ground arith

  -- After a flush of a changed index has written its files, a process that starts again and can
  -- read them loads the metadata and, for every ID, the vector that were there when it was flushed.
  pub load-flush :
      (os : HnswOs) (l : LoadOs) (n : ℕ) (connections : ℤ) (level : F) (m : HnswManager G)
      → m.dirty ≡ true
      → m.dimensions ≡ pos n
      → (flush G os m).0 ≡ ok tt
      → l.read_metadata ≡ none
      → l.open_index ≡ none
      → IsLoadable n connections level m.graph
      → let (r, loaded) = load l connections level (restarted (flush G os m).1) in
        (r ≡ ok tt)
        × (loaded.meta ≡ m.meta)
        × ((id : String) → lookup_vector G loaded id ≡ lookup_vector G m id)
  unfolding load lookup_vector
  load-flush os l n connections level m d size h rm oi k =
      let files : HnswManager G = record m {
        graph = G.empty;
        dirty = false;
        meta_file = some m.meta;
      } in
      subst
        (λ (after : HnswManager G).
          let (r, loaded) = load l connections level (restarted after) in
          (r ≡ ok tt)
          × (loaded.meta ≡ m.meta)
          × ((id : String) → lookup_vector G loaded id ≡ lookup_vector G m id))
        (sym (flushed os m d h))
        (rw (rm, load, load_index_loadable l n connections level files m.graph oi size k)
          (refl, refl, k.nodes))
