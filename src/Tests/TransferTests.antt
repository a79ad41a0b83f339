-- ===== src/Tests/TransferTests.antt =====
-- A transfer into a SQLite store.
use mnemonic.Prelude.{ℕ, [], ◌∷◌, ◌≡◌, refl}
use mnemonic.Store.Entry.{Entry, ok}
use mnemonic.Controller.Interface.{StoreApi}
use mnemonic.Sqlite.Rows.{sanitize_tags}
use mnemonic.Sqlite.Queries.{get}
use mnemonic.Sqlite.Changes.{upsert_entry}
use mnemonic.Sqlite.Api.{Session, sqlite_api}
use mnemonic.Sqlite.Transfer.{IsDated, transfer, get-transfer}
use mnemonic.Tests.Sample.{sample, first, second, tenths}
use mnemonic.Tests.SqliteTests.{db, store, can_read}
use mnemonic.Tests.ControllerTests.{rules, stores}

abbrev session : Session ℕ
session = record { store = store; calls = λ n. db }

-- Its score is zero, and it comes twice.
abbrev spent : Entry ℕ
spent = record second { score = 0 }

first-IsDated : IsDated first
first-IsDated = record { named = refl; dated = refl }

second-IsDated : IsDated second
second-IsDated = record { named = refl; dated = refl }

spent-IsDated : IsDated spent
spent-IsDated = record { named = refl; dated = refl }

-- A source whose All gives one ID twice, as that of the YAML store can.
abbrev source : StoreApi ℕ
source = record stores { all_in = λ s scopes. (ok (first ∷ second ∷ spent ∷ []), s) }

get-transfer_example :
    get db (transfer source (sqlite_api rules) [] session).2.store "b"
    ≡ ok (record second { score = tenths 10 })
unfolding transfer upsert_entry sanitize_tags
get-transfer_example =
    get-transfer rules db source [] session (first ∷ second ∷ spent ∷ []) refl (λ n. can_read)
      (first-IsDated, (second-IsDated, (spent-IsDated, tt))) refl "b"
