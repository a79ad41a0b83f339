-- ===== src/Sqlite/State.antt =====
-- sqlite.go: the store, its options, and what it takes from the database. The table `entries` is
-- a list of rows, whose order stands for the order in which a SELECT without an ORDER BY visits
-- them. A statement is a function on the table; one that fails leaves the table as it is, and so
-- does a transaction that is not committed.
use Prim.Native.String.{◌++◌ as ◌⊹◌}
use mnemonic.Prelude.{
  ℕ, String, Bool, true, false, List, [], ◌∷◌, Option, none, some, ◌==◌, if◌then◌else◌,
}
use mnemonic.Store.Entry.{Error, Result, ok, err, wrapped, external}

-- The columns of the table. `tags` is a text of JSON. A time that is stored is read back.
pub record Row (F : Type 0) : Type 0 where
  pub id : String
  pub content : String
  pub tags : String
  pub category : String
  pub scope : String
  pub score : F
  pub hit_count : ℕ
  pub last_hit : ℕ
  pub created : ℕ
  pub source : String

-- The statements of the program, as far as they can fail: `update_hits` by its ID.
pub data Statement : Type 0 where
  select_entries iterate_rows select_by_id insert_row update_score delete_row update_scope :
      Statement
  begin_transaction commit_transaction create_schema select_exp : Statement
  update_hits : String → Statement

-- What the database, the machine and the library of JSON do during one method call.
pub record Db (F : Type 0) : Type 0 where
  -- `time.Now()`
  pub now : ℕ
  -- eight random bytes, printed with `%x`; `none` if `rand.Read` fails
  pub random_id : Option String
  -- the error of a statement, `none` if it runs
  pub failure : Statement → Option Error
  -- the error of reading a row into Go's variables
  pub scan_failure : Row F → Option Error
  -- what `RowsAffected` gives where a statement has changed so many rows
  pub rows_affected : ℕ → ℕ × Option Error
  -- `json.Marshal` and `json.Unmarshal` of a slice of strings; null is the empty slice
  pub encode_strings : List String → Result String
  pub json_strings : String → Option (List String)
  -- SQL's `julianday` of a stored time, NULL if it is none, and of 'now'
  pub julianday : ℕ → Option F
  pub julian_now : F
  -- whether `os.MkdirAll` succeeds; the rows that `sql.Open` finds by data source name
  pub mkdir_all : String → Bool
  pub directory : String → String
  pub open_database : String → Result (List (Row F))
  pub close_failure : Option Error

pub record Options : Type 0 where
  pub auto_hit_counting : Bool
  pub configured_scopes : List String

unfoldable pub with_auto_hit_counting : Bool → Options → Options
with_auto_hit_counting enabled o = record o { auto_hit_counting = enabled }

unfoldable pub with_configured_scopes : List String → Options → Options
with_configured_scopes scopes o = record o { configured_scopes = scopes }

-- The loop over the options, from their defaults.
unfoldable pub apply_options : List (Options → Options) → Options → Options
apply_options [] o = o
apply_options (f ∷ fs) o = apply_options fs (f o)

unfoldable pub default_options : Options
default_options = record { auto_hit_counting = true; configured_scopes = [] }

-- `configured_scopes` is a set, in the order in which `maps.Keys` visits it. `closed` is a field
-- `db` that is nil.
pub record SqliteStore (F : Type 0) : Type 0 where
  pub rows : List (Row F)
  pub closed : Bool
  pub auto_hit_counting : Bool
  pub sql_weighted_sort : Bool
  pub configured_scopes : List String

unfoldable pub sqlite_dsn : String → String
sqlite_dsn path =
    if path == ":memory:"
    then "file::memory:?_pragma=journal_mode(wal)"
    else "file:" ⊹ path ⊹ "?_pragma=journal_mode(wal)"

module _ {F : Type 0} where
  unfoldable pub ensure_schema : Db F → Result (Unit {0})
  ensure_schema db = elim (db.failure create_schema) [
    | none ↦ ok tt
    | some x ↦ err (wrapped "initializing sqlite schema" x)
  ]

  unfoldable pub supports_sql_weighted_sort : Db F → Bool
  supports_sql_weighted_sort db = elim (db.failure select_exp) [ none ↦ true | some _ ↦ false ]

  -- `New` from the opened database on. The error of closing it again joins the first one.
  unfoldable pub initialize : Db F → Options → List (Row F) → Result (SqliteStore F)
  unfolding ensure_schema supports_sql_weighted_sort
  initialize db o rows = elim (ensure_schema db) [
    | err x ↦ elim db.close_failure [
      | none ↦ err (wrapped "initializing sqlite schema" x)
      | some y ↦
          err (wrapped "failed to close sqlite database" (wrapped "initializing sqlite schema" x))
    ]
    | ok _ ↦ ok (record {
      rows = rows;
      closed = false;
      auto_hit_counting = o.auto_hit_counting;
      sql_weighted_sort = supports_sql_weighted_sort db;
      configured_scopes = o.configured_scopes;
    })
  ]

  unfoldable pub open_store : Db F → String → List (Options → Options) → Result (SqliteStore F)
  unfolding initialize sqlite_dsn apply_options default_options
  open_store db path opts = elim (db.open_database (sqlite_dsn path)) [
    | err x ↦ err (wrapped "opening sqlite database" x)
    | ok rows ↦ initialize db (apply_options opts default_options) rows
  ]

  unfoldable pub new : Db F → String → List (Options → Options) → Result (SqliteStore F)
  unfolding open_store
  new db path opts =
      if path == ""
      then err (external "path is required")
      else if path == ":memory:"
      then open_store db path opts
      else if db.mkdir_all (db.directory path)
      then open_store db path opts
      else err (wrapped "creating sqlite store directory" (external path))

  unfoldable pub close : Db F → SqliteStore F → Result (Unit {0}) × SqliteStore F
  close db s =
      if s.closed
      then (ok tt, s)
      else (elim db.close_failure [ none ↦ ok tt | some x ↦ err x ], record s { closed = true })
