-- ===== src/Config/Laws.antt =====
-- Which of several configurations wins.
use mnemonic.Prelude.{
  zero, suc, String, Bool, List, [], ◌∷◌, none, some, ◌≡◌, refl, ◌==◌, eq_iff, arith, inl, inr,
  Bool-cases,
}
use mnemonic.Prelude.Maps.{
  Map, lookup, insert, lookup-insert, keys, Distinct, Distinct-insert, contains-keys,
}
use mnemonic.Platform.{Platform, float_zero}
use mnemonic.Config.State.{
  ℤ, pos, negsuc, Config, copy, pick_string, pick_int, pick_flag, pick_list, pick_float,
  apply_overrides,
}
use mnemonic.Config.Values.{
  put_string, put_int, put_list, put_float, set_values, to_env_map, format_bool, itoa, join,
  log_string,
}

-- What is copied over a map wins.
pub lookup-copy :
    (key : String) (dst src : Map String)
    → Distinct (keys src)
    → lookup key (copy dst src) ≡ elim (lookup key src) [ some v ↦ some v | none ↦ lookup key dst ]
unfolding copy lookup
lookup-copy key dst [] d = refl
lookup-copy key dst ((k, v) ∷ src) d = ground (
  arith,
  lookup-copy key (insert k v dst) src,
  lookup-insert k key v dst,
  contains-keys key src,
  eq_iff k key,
)

pick_string_idem : (c o : String) → pick_string (pick_string c o) o ≡ pick_string c o
unfolding pick_string
pick_string_idem c o = ground arith

pick_int_idem : (c o : ℤ) → pick_int (pick_int c o) o ≡ pick_int c o
unfolding pick_int
pick_int_idem c (pos zero) = refl
pick_int_idem c (pos (suc n)) = refl
pick_int_idem c (negsuc n) = refl

pick_flag_idem : (c o : Bool) → pick_flag (pick_flag c o) o ≡ pick_flag c o
unfolding pick_flag
pick_flag_idem c o = ground arith

pick_list_idem : (c o : List String) → pick_list (pick_list c o) o ≡ pick_list c o
unfolding pick_list
pick_list_idem c [] = refl
pick_list_idem c (o ∷ os) = refl

-- No key of the map occurs twice.
record IsFunctional (m : Map String) : Type 0 where
  distinct : Distinct (keys m)

insert-IsFunctional :
    (key value : String) (m : Map String) → IsFunctional m → IsFunctional (insert key value m)
insert-IsFunctional key value m d = record { distinct = Distinct-insert key value m d.distinct }

put_string-IsFunctional :
    (key value : String) {m : Map String} → IsFunctional m → IsFunctional (put_string key value m)
unfolding put_string
put_string-IsFunctional key value {m = m} d = elim (Bool-cases (value == "")) [
  | inl zero_value ↦ rw (zero_value, put_string) d
  | inr set ↦ rw (set, put_string) (insert-IsFunctional key value m d)
]

put_int-IsFunctional :
    (key : String) (z : ℤ) {m : Map String} → IsFunctional m → IsFunctional (put_int key z m)
unfolding put_int
put_int-IsFunctional key (pos zero) d = d
put_int-IsFunctional key (pos (suc n)) {m = m} d = insert-IsFunctional key (itoa (pos (suc n))) m d
put_int-IsFunctional key (negsuc n) {m = m} d = insert-IsFunctional key (itoa (negsuc n)) m d

put_list-IsFunctional :
    (key : String) (vs : List String) {m : Map String}
    → IsFunctional m
    → IsFunctional (put_list key vs m)
unfolding put_list
put_list-IsFunctional key [] d = d
put_list-IsFunctional key (v ∷ vs) {m = m} d = insert-IsFunctional key (join (v ∷ vs)) m d

module _ {F : Type 0} ⦃p : Platform F⦄ where
  put_float-IsFunctional :
      (key : String) (x : F) {m : Map String} → IsFunctional m → IsFunctional (put_float key x m)
  unfolding put_float
  put_float-IsFunctional key x {m = m} d = elim (Bool-cases (p.eq x float_zero)) [
    | inl zero_value ↦ rw (zero_value, put_float) d
    | inr set ↦ rw (set, put_float) (insert-IsFunctional key (p.format_float x) m d)
  ]

  pick_float_idem : (c o : F) → pick_float (pick_float c o) o ≡ pick_float c o
  unfolding pick_float
  pick_float_idem c o = ground arith

  -- Overriding twice by the same settings is overriding once, and the log levels of the overriding
  -- settings win over those that are overridden.
  pub apply_overrides_idem :
      (c o : Config F) (scope : String)
      → Distinct (keys o.logging)
      → let once = apply_overrides c o in
        let twice = apply_overrides once o in
        (record twice { logging = [] } ≡ record once { logging = [] })
        × (lookup scope twice.logging ≡ lookup scope once.logging)
        × (lookup scope once.logging
            ≡ elim (lookup scope o.logging) [ some v ↦ some v | none ↦ lookup scope c.logging ])
  unfolding apply_overrides
  apply_overrides_idem c o scope d = (
    simp (pick_string_idem, pick_int_idem, pick_flag_idem, pick_list_idem, pick_float_idem),
    ground (
      arith,
      lookup-copy scope c.logging o.logging d,
      lookup-copy scope (copy c.logging o.logging) o.logging d,
    ),
    lookup-copy scope c.logging o.logging d,
  )

  set_values-IsFunctional : (c : Config F) → IsFunctional (set_values c)
  unfolding set_values
  set_values-IsFunctional c =
      let d : IsFunctional [] = record { distinct = tt } in
      let d = put_string-IsFunctional "LOG_LEVEL" c.log_level d in
      let d = put_string-IsFunctional "MNEMONIC_SERVER_ADDR" c.server_addr d in
      let d = put_string-IsFunctional "MNEMONIC_SOCKET_PATH" c.socket_path_raw d in
      let d = put_int-IsFunctional "MNEMONIC_CLIENT_TIMEOUT_SEC" c.client_timeout_sec d in
      let d = put_int-IsFunctional "MNEMONIC_POLL_INTERVAL_SEC" c.poll_interval_sec d in
      let d = put_string-IsFunctional "MNEMONIC_LOGGING" (log_string c.logging) d in
      let d = put_string-IsFunctional "MNEMONIC_AUTH_TOKEN" c.auth_token d in
      let d = put_list-IsFunctional "MNEMONIC_ALLOWED_ORIGINS" c.allowed_origins d in
      let d = put_string-IsFunctional "MNEMONIC_EMBEDDINGS_ENDPOINT" c.embeddings.endpoint d in
      let d = put_string-IsFunctional "MNEMONIC_EMBEDDINGS_MODEL" c.embeddings.model d in
      let d = put_string-IsFunctional "MNEMONIC_EMBEDDINGS_AUTH_TOKEN" c.embeddings.auth_token d in
      let d = put_string-IsFunctional "MNEMONIC_INDEX_TYPE" c.index.type d in
      let d = put_int-IsFunctional "MNEMONIC_INDEX_DIMENSIONS" c.index.dimensions d in
      let d = put_int-IsFunctional "MNEMONIC_INDEX_CONNECTIONS" c.index.connections d in
      let d = put_float-IsFunctional "MNEMONIC_INDEX_LEVEL_FACTOR" c.index.level_factor d in
      let d = put_int-IsFunctional "MNEMONIC_INDEX_EF_SEARCH" c.index.ef_search d in
      let d = put_string-IsFunctional "MNEMONIC_STORE_TYPE" c.store.type d in
      put_string-IsFunctional "MNEMONIC_STORE_PATH" c.store.sqlite_path_raw d

  pub to_env_map-Distinct : (c : Config F) → Distinct (keys (to_env_map c))
  unfolding to_env_map
  to_env_map-Distinct c =
      let skip = format_bool c.embeddings.skip_preflight in
      let status = format_bool c.unauthenticated_status in
      let inner = insert "MNEMONIC_EMBEDDINGS_SKIP_PREFLIGHT" skip (set_values c) in
      (insert-IsFunctional "MNEMONIC_UNAUTHENTICATED_STATUS" status inner (
        insert-IsFunctional "MNEMONIC_EMBEDDINGS_SKIP_PREFLIGHT" skip (set_values c)
          (set_values-IsFunctional c))).distinct
