-- ===== src/Lib.antt =====
-- Models and theorems of the Rust core of the wallet app (paths from the root of the repository).
--
-- The core keeps the wallets of a user in a local SQLite database, their keys and mnemonics in the
-- secure storage of the app, and asks the server for what is missing. The parts and their files:
--
-- - Common: shared types and lemmas. `Result`, the `?` operator and calls that change a state
--   (`Exec`) are in Common/Outcome, `BTreeMap` and `HashMap` in the files of those names, decimal
--   numbers in Common/Decimal, strings as code points in Common/Strings.
-- - Errors: the error enums of rust/src/proton_wallet/{db,storage,crypto,provider,features}.
-- - Migration: rust/src/proton_wallet/db/database/migration.rs and migration_container.rs
--   (`add_migration`, `find_migration_path`, `run_migrations`). A migration is an effect on a world.
--   The search is recursion on fuel; each round raises the version, so end - start + 1 rounds are
--   enough, see Migration/Path. Migration/Pick treats one round, Migration/Container what is
--   stored, Migration/Greedy dead ends.
-- - Schema: the statements of rust/src/proton_wallet/db/database/ as the text that a connection
--   runs; the connection is a parameter.
-- - AppDatabase: rust/src/proton_wallet/db/app_database.rs (`init`, `build_database`, `reset`).
-- - Db: the data access objects of rust/src/proton_wallet/db/dao/ with the models of db/model/. What
--   they use of SQLite is the record `Table` of Db/Table, with the documented behaviour of the
--   statements as its laws; Db/Memory is a table that meets them. Db/Base has the queries that every
--   table has, Db/Dao the shape of insert, update and upsert, and one file each the ten tables.
-- - Api: the records of rust/src/proton_api/wallet.rs; the client is a parameter. Api/Records,
--   Api/Requests, Api/Addresses and Api/Events are the conversions of rust/src/proton_api/.
-- - Storage: the stores of rust/src/proton_wallet/storage/, which call back into the app, and the
--   conversions of user and address keys into locked keys.
-- - Provider: rust/src/proton_wallet/provider/: Provider/Derivation chooses the derivation path of
--   a new account (recursion on fuel, 10001 rounds are enough, see Provider/Derivation/Fresh),
--   Provider/Wallet loads wallets and mnemonics, Provider/WalletKeys the wallet keys, whose cache
--   is a partial map in Provider/WalletKeys/View, Provider/UserKeys the user keys,
--   Provider/Mnemonic decrypts mnemonics and names, Provider/Auth makes the proofs of a login
--   password, and Provider/Tables has the providers of single tables. A provider is the state it
--   keeps with the world outside it; the order of the values of a `HashMap` is a parameter.
-- - Crypto: rust/src/proton_wallet/crypto/: the wallet key and what it encrypts, the mailbox password
--   and relocking; Crypto/Pgp the PGP keys (private_key.rs, public_key.rs), Crypto/Message messages,
--   legacy mnemonics and signatures of addresses, Crypto/TransactionId the ids of transactions,
--   Crypto/WalletLock the wallet key locked with a user key. AES-GCM, base64, UTF-8, HMAC and PGP are
--   parameters, with what the code relies on as laws of their records; a panic on a key of a wrong
--   length is `none`.
-- - Features: rust/src/proton_wallet/features/: password scope, second factor and seed in
--   Features/PasswordScope, the recovery phrase in Features/Recovery, new wallets and accounts in
--   Features/Wallets.
-- - AuthStore: rust/src/api/api_service/wallet_auth_store.rs, with the global callback and flag as
--   parts of its state and the spawned calls as a list.
-- - ApiService: rust/src/api/api_service/proton_api_service.rs and the global service of
--   rust/src/api/proton_api.rs: creation, login and logout over the store of AuthStore. A panic is
--   `none`.
-- - Bridge: rust/src/api/errors.rs, the errors that the app sees; the sources of an error are a
--   list, since a chain of them is finite, and Bridge/Bitcoin searches it. Bridge/Transition is
--   rust/src/api/proton_wallet/features/transition_layer.rs; each call holds the lock of the PGP
--   library, so the calls run one after the other.
-- - ProtonWallet: rust/src/proton_wallet/wallet.rs and rust/src/api/proton_wallet/wallet.rs, the
--   object of an account: its opening, and the feature that shows a seed, put together from the
--   providers in one state (the tables, the cache of wallet keys, and the world outside).
-- - Tests: runs at concrete inputs.
--
-- The components interact by calls: a provider calls a DAO, a store and the client, and converts
-- their errors. Calls are modelled one after the other: what another task does between two locks of
-- a connection or a cache is not modelled. A 32-bit number is a natural number; the casts that can
-- cut one are written out. Logging is left out. Not modelled: the inside of the PGP and SRP
-- libraries, the API wrappers, the bindings of the Bitcoin library, generated code, the modules that
-- are not compiled (provider/proton_user_settings.rs, features/buy/buy_bitcoin.rs) and the user
-- interface.
pub mod Common
pub mod Errors
pub mod Migration
pub mod Schema
pub mod AppDatabase
pub mod Api
pub mod Crypto
pub mod Storage
pub mod Db
pub mod Provider
pub mod Features
pub mod AuthStore
pub mod Bridge
pub mod ApiService
pub mod ProtonWallet
pub mod Tests
