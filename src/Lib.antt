-- ===== src/Lib.antt =====
-- Mnemonic keeps short pieces of knowledge, its entries, for coding agents. A store holds them
-- (internal/store), a controller finds similar ones by their embeddings (internal/controller), and
-- a daemon serves both over a socket (internal/daemon, internal/server). This development is about
-- the stores and what is built on them.
--
-- - Platform: what the machine gives: the floating-point numbers and the case table of Unicode.
--   No law is assumed of them; a theorem that needs one names it (IsSeparated in Store/RankingLaws).
-- - Store: internal/store/entry.go, store.go, allowed.go, mandatory.go and ranking.go. A time is a
--   number of nanoseconds since the zero time, so that IsZero is 0. The count of hits is a natural:
--   that Go's int wraps around, and that a file can hold a negative count, is not modelled.
-- - Yaml: internal/store/yamlstore/yaml.go. Yaml/State is the struct YAMLStore with `persist` and
--   the helpers; Yaml/Tags the tags; Yaml/Queries All, AllByCategory, Get, Query, QueryByCategory,
--   ListHeads and markHits; Yaml/Changes Upsert, Promote, Score and Delete; Yaml/Flush flush and
--   Close; Yaml/Load New and loadScope. A method takes what the operating system and the libraries
--   do during the call (`Os`), and gives its result and the store after it. Go's maps are
--   association lists, whose order stands for the order in which a `range` visits the map; no
--   theorem asks for an order. The proofs see the store as a finite map from IDs to entries, the
--   `view` of Yaml/View, which is defined by the search of Delete and Score; `IsWf` is the
--   invariant of the store.
-- - Snapshot: internal/store/snapshot_store.go and noop_store.go. Snapshot/Following sets it beside
--   the YAML store.
-- - Lint: internal/lint/lint.go. What the linter gets from its controller are arguments. The screen
--   of the command lint (cmd/mnemonic/lint.go) is Lint/Review: its state, and what each key does.
-- - Sqlite: internal/store/sqlitestore/sqlite.go. The table is a list of rows, a statement of SQL a
--   function on it (Sqlite/State, Sqlite/Rows, Sqlite/Queries, Sqlite/Changes). What the database
--   does during a call is an argument (`Db`): a statement, a row or a commit can fail, and a
--   transaction that is not committed leaves the table as it was. Sqlite/Api makes it one of the
--   stores that a server can have; Sqlite/Transfer is what the commands of
--   cmd/mnemonic/sqlite_import.go and sqlite_export.go do with two open stores.
-- - Server: internal/server/middleware.go, where a handler takes the request and the headers set so
--   far, and gives the response; and the tools of internal/server/server.go and model.go
--   (Server/Model, Server/Handlers), over any store and, where it has one, its semantic search;
--   Server/Composed takes a controller for both.
-- - Controller: internal/controller/controller.go. Controller/Interface holds what the controller
--   asks of a store, of an index manager and of an embedder; Yaml/Api, Snapshot/Api and
--   Sqlite/Api fill the interface of stores, Vectors/Api that of index managers, and Controller/Api
--   makes a controller the store of a daemon or a server. An embedder is what it answers during one
--   call of the controller. An integer `k` that is not positive is 0.
-- - Config: internal/config/config.go. Config/State holds the settings and the overrides,
--   Config/Values the maps of texts and what Load reads from the files. An integer of a setting is
--   a ℤ of its own. Config/Settings is the table of the variables.
-- - Embed: internal/embed/embedding.go, over the replies of the service.
-- - Hnsw: internal/index/hnsw/hnsw.go, internal/controller/index_hnsw.go and metadata.go
--   (Hnsw/Manager, and Hnsw/Loading for Load, Import and Validate). The graph is a library's; the
--   laws asked of it are what it documents (Hnsw/Coverage).
-- - Vectors: internal/index/sqlitevec/sqlitevec.go (Vectors/Index) and
--   internal/controller/index_sqlite.go (Vectors/Manager). The two tables are lists of rows; SQLite
--   and its extension vec1 are the arguments `VecDb`, the laws asked of them `VecLaws`.
-- - Compact: internal/compact/options.go (Compact/Modes), internal/compact/compact.go
--   (Compact/Compacter) and the command compact of cmd/mnemonic/compact.go (Compact/Command). A
--   model, an embedder, a reply of the service and what a backend answers are arguments.
-- - Daemon: internal/daemon/daemon_admin.go and the routes of daemon.go (Daemon/Admin), over any
--   store of Controller/Interface; and the client of cmd/mnemonic/admin_backend.go (Daemon/Client),
--   which sends what it asks through a transport. A route of a request holds its ID as the URL
--   writes it, which the client escapes twice. Daemon/Stopping is stop.go, Daemon/Watching
--   watch.go.
-- - Tests: the theorems at concrete inputs.
--
-- All loops of this code run over finite lists, so they are structural recursions. Only the digits
-- of a number are on fuel, the number itself and one more, which is enough (Config/Digits); and
-- the wait for a daemon's end, on one round for each pause of its timeout and two more
-- (Daemon/Stopping). The clock stands still during one call of a store.
--
-- Not modelled: the mutexes (a method of a store holds its own from start to end), the log lines,
-- and the texts of the errors, of which the constructors of `Error` keep what they name. Of the
-- program's parts, the start and the end of the daemon and of the HTTP server, internal/logging
-- and the other commands of cmd/mnemonic, which read flags, write to the terminal and call the
-- parts above.
pub mod Prelude
pub mod Platform
pub mod Store
pub mod Yaml
pub mod Snapshot
pub mod Lint
pub mod Sqlite
pub mod Server
pub mod Controller
pub mod Config
pub mod Embed
pub mod Hnsw
pub mod Vectors
pub mod Compact
pub mod Daemon
pub mod Tests
