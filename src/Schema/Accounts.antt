-- ===== src/Schema/Accounts.antt =====
-- rust/src/proton_wallet/db/database/: the migrations of account.rs, address.rs, bitcoin_address.rs and contacts.rs.
use flutter_app.Common.{[], ◌∷◌, Exec, pure, ◌>>◌, Text, codes}
use flutter_app.Errors.{DatabaseError}
use flutter_app.Schema.{
  Connection, accounts, address, bitcoin_address, contacts, lines, create_query, create_table,
  drop_table, add_index, drop_column, add_column,
}

abbrev account_columns : Text
account_columns = lines (
    "` (\n" ∷ "                id INTEGER PRIMARY KEY AUTOINCREMENT,\n"
    ∷ "                account_id TEXT,\n" ∷ "                wallet_id TEXT,\n"
    ∷ "                derivation_path TEXT,\n" ∷ "                label TEXT,\n"
    ∷ "                script_type INTEGER,\n" ∷ "                create_time INTEGER,\n"
    ∷ "                modify_time INTEGER,\n" ∷ "                fiat_currency TEXT,\n"
    ∷ "                priority INTEGER,\n" ∷ "                last_used_index INTEGER,\n"
    ∷ "                UNIQUE (wallet_id, derivation_path)\n" ∷ "            )\n" ∷ "            "
    ∷ [])

abbrev address_columns : Text
address_columns = lines (
    "` (\n" ∷ "                id INTEGER PRIMARY KEY AUTOINCREMENT,\n"
    ∷ "                server_id TEXT NOT NULL,\n" ∷ "                email TEXT NOT NULL,\n"
    ∷ "                server_wallet_id TEXT NOT NULL,\n"
    ∷ "                server_account_id TEXT NOT NULL\n" ∷ "            )\n" ∷ "            " ∷ [])

abbrev bitcoin_address_columns : Text
bitcoin_address_columns = lines (
    "` (\n" ∷ "                id INTEGER PRIMARY KEY AUTOINCREMENT,\n"
    ∷ "                server_id TEXT NOT NULL,\n" ∷ "                wallet_id INTEGER NOT NULL,\n"
    ∷ "                account_id INTEGER NOT NULL,\n"
    ∷ "                bitcoin_address TEXT NOT NULL,\n"
    ∷ "                bitcoin_address_index INTEGER NOT NULL,\n"
    ∷ "                in_email_integration_pool INTEGER NOT NULL,\n"
    ∷ "                used INTEGER NOT NULL,\n"
    ∷ "                server_wallet_id TEXT NOT NULL,\n"
    ∷ "                server_account_id TEXT NOT NULL\n" ∷ "            )\n" ∷ "            " ∷ [])

abbrev contacts_columns : Text
contacts_columns = lines (
    "` (\n" ∷ "                id INTEGER PRIMARY KEY AUTOINCREMENT,\n"
    ∷ "                server_contact_id TEXT NOT NULL,\n" ∷ "                name TEXT NOT NULL,\n"
    ∷ "                email TEXT NOT NULL,\n" ∷ "                canonical_email TEXT NOT NULL,\n"
    ∷ "                is_proton INTEGER NOT NULL\n" ∷ "            )\n" ∷ "            " ∷ [])

module _ {W : Type 0} (conn : Connection W) where
  -- `AccountDatabase::migration_0`, in account.rs
  unfoldable pub account_migration_0 : Exec DatabaseError W (Unit {0})
  unfolding drop_table create_table add_index
  account_migration_0 = do
    drop_table conn accounts
    create_table conn (create_query account_columns accounts)
    add_index conn accounts (codes "wallet_id")
    add_index conn accounts (codes "account_id")
    pure tt

  -- `AddressDatabase::migration_0`, in address.rs
  unfoldable pub address_migration_0 : Exec DatabaseError W (Unit {0})
  unfolding drop_table create_table add_index
  address_migration_0 = do
    drop_table conn address
    create_table conn (create_query address_columns address)
    add_index conn address (codes "server_id")
    pure tt

  -- `BitcoinAddressDatabase::migration_0`, in bitcoin_address.rs
  unfoldable pub bitcoin_address_migration_0 : Exec DatabaseError W (Unit {0})
  unfolding drop_table create_table add_index
  bitcoin_address_migration_0 = do
    drop_table conn bitcoin_address
    create_table conn (create_query bitcoin_address_columns bitcoin_address)
    add_index conn bitcoin_address (codes "server_id")
    pure tt

  -- `ContactsDatabase::migration_0`, in contacts.rs
  unfoldable pub contacts_migration_0 : Exec DatabaseError W (Unit {0})
  unfolding drop_table create_table add_index
  contacts_migration_0 = do
    drop_table conn contacts
    create_table conn (create_query contacts_columns contacts)
    add_index conn contacts (codes "server_contact_id")
    pure tt

  -- `AccountDatabase::migration_1`: a failure to drop the column is only logged.
  unfoldable pub account_migration_1 : Exec DatabaseError W (Unit {0})
  unfolding drop_column add_column
  account_migration_1 w =
      let (_, w') = drop_column conn accounts (codes "pool_size") w in
      (do add_column conn accounts (codes "pool_size") (codes "INTEGER DEFAULT 10"); pure tt) w'
