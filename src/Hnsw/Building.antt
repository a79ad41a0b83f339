-- ===== src/Hnsw/Building.antt =====
-- `BuildIndexes`: what the metadata is after it.
use mnemonic.Prelude.{
  String, Bool, true, not, ◌&&◌, ◌||◌, List, [], ◌∷◌, map, ◌≡◌, ◌==◌, eq_iff, arith, contains,
  Bool-cases, inl, inr, nat_eq, length,
}
use mnemonic.Prelude.Maps.{insert, remove, keys, contains-keys-insert}
use mnemonic.Store.Entry.{Entry, Result, ok, err, Result-cases}
use mnemonic.Hnsw.Manager.{
  GraphApi, HnswOs, HnswManager, insert_vector, delete_vector, flush, to_embed, remove_stale,
  insert_all, embed_new, build_indexes,
}
use mnemonic.Hnsw.Coverage.{GraphLaws, IsCovered, contains-keys-remove}

module _ {F : Type 0} (G : GraphApi F) (laws : GraphLaws G) where
  -- The metadata has only IDs of the list, and each has a vector.
  abbrev IsExact : List String → HnswManager G → Type 0
  IsExact active m =
      IsCovered G laws m
      × ((id : String) → contains (keys m.meta) id ≡ true → contains active id ≡ true)

  -- One round of the loop that removes.
  removed : HnswManager G → String → HnswManager G
  removed m id = let m' = (delete_vector G m id).1 in record m' { meta = remove id m'.meta }

  removed-IsCovered :
      (m : HnswManager G) (id : String) → IsCovered G laws m → IsCovered G laws (removed m id)
  unfolding removed delete_vector
  removed-IsCovered m id w = record {
    covered = λ j. ground (
      arith,
      w.covered j,
      laws.lookup-delete id j m.graph,
      contains-keys-remove G laws id j m.meta,
    );
  }

  removed-meta :
      (m : HnswManager G) (id j : String)
      → contains (keys (removed m id).meta) j ≡ (not (id == j) && contains (keys m.meta) j)
  unfolding removed delete_vector
  removed-meta m id j = contains-keys-remove G laws id j m.meta

  remove_stale-lem :
      (active ids : List String) (m : HnswManager G)
      → IsCovered G laws m
      → IsCovered G laws (remove_stale G active ids m)
        × ((j : String)
            → contains (keys (remove_stale G active ids m).meta) j ≡ true
            → (contains (keys m.meta) j && (contains active j || not (contains ids j))) ≡ true)
  unfolding remove_stale removed
  remove_stale-lem active [] m w = (w, λ j h. ground arith)
  remove_stale-lem active (id ∷ ids) m w = elim (Bool-cases (contains active id)) [
    | inl kept ↦
        let (c, k) = remove_stale-lem active ids m w in
        rw (kept, remove_stale) (c, λ j h. ground (arith, k j h, eq_iff id j))
    | inr stale ↦
        let (c, k) = remove_stale-lem active ids (removed m id) (removed-IsCovered m id w) in
        rw (stale, remove_stale) (c, λ j h. ground (arith, k j h, removed-meta m id j))
  ]

  -- One round of the loop that inserts.
  inserted : HnswOs → HnswManager G → String → List F → HnswManager G
  inserted os m id v =
      let (r, m') = insert_vector G m id v in
      elim r [ err _ ↦ m' | ok _ ↦ record m' { meta = insert id os.now m'.meta } ]

  inserted-IsExact :
      (active : List String) (os : HnswOs) (m : HnswManager G) (id : String) (v : List F)
      → IsExact active m
      → contains active id ≡ true
      → IsExact active (inserted os m id v)
  unfolding inserted insert_vector
  inserted-IsExact active os m id v (w, only) h = (
    record {
      covered = λ j. ground (
        arith,
        w.covered j,
        laws.lookup-add id j v m.graph,
        contains-keys-insert id j os.now m.meta,
      );
    },
    λ j. ground (arith, only j, contains-keys-insert id j os.now m.meta, eq_iff id j),
  )

  insert_all-IsExact :
      (active : List String) (os : HnswOs) (es : List (Entry F)) (vs : List (List F))
      (m : HnswManager G)
      → IsExact active m
      → ((j : String)
          → contains (map (λ (e : Entry F). e.id) es) j ≡ true
          → contains active j ≡ true)
      → IsExact active (insert_all G os es vs m)
  unfolding insert_all inserted
  insert_all-IsExact active os [] vs m w sub = w
  insert_all-IsExact active os (e ∷ es) [] m w sub = w
  insert_all-IsExact active os (e ∷ es) (v ∷ vs) m w sub =
      insert_all-IsExact active os es vs (inserted os m e.id v)
        (inserted-IsExact active os m e.id v w (sub e.id (ground (arith, eq_iff e.id e.id))))
        (λ j h. sub j (ground arith))

  to_embed-subset :
      (known : List String) (es : List (Entry F)) (j : String)
      → contains (map (λ (e : Entry F). e.id) (to_embed G known es)) j ≡ true
      → contains (map (λ (e : Entry F). e.id) es) j ≡ true
  unfolding to_embed
  to_embed-subset known [] j h = h
  to_embed-subset known (e ∷ es) j h = ground (arith, to_embed-subset known es j)

  flush-IsExact :
      (active : List String) (os : HnswOs) (m : HnswManager G)
      → IsExact active m
      → IsExact active (flush G os m).1
  unfolding flush
  flush-IsExact active os m (w, only) =
      let same : ((flush G os m).1.meta ≡ m.meta) × ((flush G os m).1.graph ≡ m.graph) =
        ground arith in
      (record { covered = rw (same.0, same.1) w.covered }, rw same.0 only)

  dirtied-IsExact :
      (active : List String) (m : HnswManager G)
      → IsExact active m
      → IsExact active (record m { dirty = true })
  dirtied-IsExact active m (w, only) = (record { covered = w.covered }, only)

  embed_new-IsExact :
      (active : List String) (os : HnswOs) (m : HnswManager G) (new : List (Entry F))
      (embed : List String → Result (List (List F)))
      → IsExact active m
      → ((j : String)
          → contains (map (λ (e : Entry F). e.id) new) j ≡ true
          → contains active j ≡ true)
      → IsExact active (embed_new G os m new embed).1
  unfolding embed_new
  embed_new-IsExact active os m [] embed w sub =
      flush-IsExact active os (record m { dirty = true }) (dirtied-IsExact active m w)
  embed_new-IsExact active os m (e ∷ es) embed w sub =
      elim (Result-cases (embed (map (λ (x : Entry F). x.content) (e ∷ es)))) [
        | inl (x, f) ↦ rw (f, embed_new) w
        | inr (vs, f) ↦ elim (Bool-cases (nat_eq (length vs) (length (e ∷ es)))) [
          | inr off ↦ rw (f, off, embed_new) w
          | inl fits ↦
              let all_in = insert_all G os (e ∷ es) vs m in
              rw (f, fits, embed_new)
                (flush-IsExact active os (record all_in { dirty = true })
                  (dirtied-IsExact active all_in
                    (insert_all-IsExact active os (e ∷ es) vs m w sub)))
        ]
      ]

  kept-IsExact :
      (active : List String) (m : HnswManager G)
      → IsCovered G laws m
      → IsExact active (remove_stale G active (keys m.meta) m)
  kept-IsExact active m w =
      let (c, k) = remove_stale-lem active (keys m.meta) m w in (c, λ j h. ground (arith, k j h))

  -- After a build, forced or not, and whether or not it succeeds, the metadata has no ID without
  -- an entry, and every ID of it has a vector, if before it every one had.
  pub build_indexes-IsExact :
      (os : HnswOs) (m : HnswManager G) (entries : List (Entry F)) (force : Bool)
      (embed : List String → Result (List (List F)))
      → IsCovered G laws m
      → IsCovered G laws (build_indexes G os m entries force embed).1
        × ((id : String)
            → contains (keys (build_indexes G os m entries force embed).1.meta) id ≡ true
            → contains (map (λ (e : Entry F). e.id) entries) id ≡ true)
  unfolding build_indexes
  build_indexes-IsExact os m entries force embed w = elim (Bool-cases force) [
    | inr off ↦
        let active = map (λ (e : Entry F). e.id) entries in
        rw (off, build_indexes)
          (embed_new-IsExact active os (remove_stale G active (keys m.meta) m)
            (to_embed G (keys m.meta) entries) embed (kept-IsExact active m w)
            (to_embed-subset (keys m.meta) entries))
    | inl on ↦
        let active = map (λ (e : Entry F). e.id) entries in
        let cleared : HnswManager G = record m { graph = G.empty; meta = [] } in
        let fresh : IsCovered G laws cleared = record { covered = λ id h. cc } in
        rw (on, build_indexes)
          (embed_new-IsExact active os (remove_stale G active [] cleared) (to_embed G [] entries)
            embed (kept-IsExact active cleared fresh) (to_embed-subset [] entries))
  ]
