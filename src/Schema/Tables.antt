-- ===== src/Schema/Tables.antt =====
-- rust/src/proton_wallet/db/database/: the migrations of exchange_rate.rs, transaction.rs and wallet.rs.
use flutter_app.Common.{[], ◌∷◌, Exec, pure, ◌>>◌, Text, codes}
use flutter_app.Errors.{DatabaseError}
use flutter_app.Schema.{
  Connection, exchange_rate, transactions, wallet, lines, create_query, create_table, drop_table,
  add_index,
}

abbrev exchange_rate_columns : Text
exchange_rate_columns = lines (
    "` (\n" ∷ "                id INTEGER PRIMARY KEY AUTOINCREMENT,\n"
    ∷ "                server_id TEXT NOT NULL,\n" ∷ "                bitcoin_unit TEXT NOT NULL,\n"
    ∷ "                fiat_currency TEXT NOT NULL,\n" ∷ "                sign TEXT NOT NULL,\n"
    ∷ "                exchange_rate_time TEXT NOT NULL,\n"
    ∷ "                exchange_rate INTEGER NOT NULL,\n"
    ∷ "                cents INTEGER NOT NULL\n" ∷ "            )\n" ∷ "            " ∷ [])

abbrev transaction_columns : Text
transaction_columns = lines (
    "` (\n" ∷ "                id INTEGER PRIMARY KEY AUTOINCREMENT,\n"
    ∷ "                type INTEGER NOT NULL,\n" ∷ "                label TEXT NOT NULL,\n"
    ∷ "                external_transaction_id TEXT NOT NULL,\n"
    ∷ "                create_time INTEGER NOT NULL,\n"
    ∷ "                modify_time INTEGER NOT NULL,\n"
    ∷ "                hashed_transaction_id TEXT NOT NULL,\n"
    ∷ "                transaction_id TEXT NOT NULL,\n"
    ∷ "                transaction_time TEXT NOT NULL,\n"
    ∷ "                exchange_rate_id TEXT NOT NULL,\n"
    ∷ "                server_wallet_id TEXT NOT NULL,\n"
    ∷ "                server_account_id TEXT NOT NULL,\n"
    ∷ "                server_id TEXT NOT NULL,\n" ∷ "                sender TEXT,\n"
    ∷ "                tolist TEXT,\n" ∷ "                subject TEXT,\n"
    ∷ "                body TEXT,\n" ∷ "                is_suspicious INTEGER NOT NULL,\n"
    ∷ "                is_private INTEGER NOT NULL,\n"
    ∷ "                is_anonymous INTEGER NOT NULL\n" ∷ "            )\n" ∷ "            " ∷ [])

abbrev wallet_columns : Text
wallet_columns = lines (
    "` (\n" ∷ "                id INTEGER PRIMARY KEY AUTOINCREMENT,\n"
    ∷ "                name TEXT NOT NULL,\n" ∷ "                passphrase INTEGER NOT NULL,\n"
    ∷ "                public_key TEXT NOT NULL,\n" ∷ "                imported INTEGER NOT NULL,\n"
    ∷ "                priority INTEGER NOT NULL,\n" ∷ "                status INTEGER NOT NULL,\n"
    ∷ "                type INTEGER NOT NULL,\n" ∷ "                create_time INTEGER NOT NULL,\n"
    ∷ "                modify_time INTEGER NOT NULL,\n" ∷ "                user_id TEXT NOT NULL,\n"
    ∷ "                wallet_id TEXT NOT NULL,\n"
    ∷ "                account_count INTEGER NOT NULL,\n"
    ∷ "                balance REAL NOT NULL,\n" ∷ "                fingerprint TEXT,\n"
    ∷ "                show_wallet_recovery INTEGER NOT NULL,\n"
    ∷ "                migration_required INTEGER NOT NULL,\n" ∷ "                legacy INTEGER,\n"
    ∷ "                UNIQUE (wallet_id)\n" ∷ "            )\n" ∷ "            " ∷ [])

module _ {W : Type 0} (conn : Connection W) where
  -- `ExchangeRateDatabase::migration_0`, in exchange_rate.rs
  unfoldable pub exchange_rate_migration_0 : Exec DatabaseError W (Unit {0})
  unfolding drop_table create_table add_index
  exchange_rate_migration_0 = do
    drop_table conn exchange_rate
    create_table conn (create_query exchange_rate_columns exchange_rate)
    add_index conn exchange_rate (codes "server_id")
    pure tt

  -- `TransactionDatabase::migration_0`, in transaction.rs
  unfoldable pub transaction_migration_0 : Exec DatabaseError W (Unit {0})
  unfolding drop_table create_table add_index
  transaction_migration_0 = do
    drop_table conn transactions
    create_table conn (create_query transaction_columns transactions)
    add_index conn transactions (codes "server_id")
    pure tt

  -- `WalletDatabase::migration_0`, in wallet.rs
  unfoldable pub wallet_migration_0 : Exec DatabaseError W (Unit {0})
  unfolding drop_table create_table add_index
  wallet_migration_0 = do
    drop_table conn wallet
    create_table conn (create_query wallet_columns wallet)
    add_index conn wallet (codes "wallet_id")
    pure tt
