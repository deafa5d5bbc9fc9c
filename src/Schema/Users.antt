-- ===== src/Schema/Users.antt =====
-- rust/src/proton_wallet/db/database/: the migrations of proton_user_key.rs, proton_user.rs and wallet_user_settings.rs.
use flutter_app.Common.{[], ◌∷◌, Exec, pure, ◌>>◌, Text, codes}
use flutter_app.Errors.{DatabaseError}
use flutter_app.Schema.{
  Connection, proton_user_key, proton_user, wallet_user_settings, lines, create_query, create_table,
  drop_table, add_index,
}

abbrev proton_user_key_columns : Text
proton_user_key_columns = lines (
    "` (\n" ∷ "                key_id TEXT NOT NULL, \n"
    ∷ "                user_id TEXT NOT NULL, \n" ∷ "                version INTEGER NOT NULL, \n"
    ∷ "                private_key TEXT NOT NULL, \n" ∷ "                token TEXT NULL, \n"
    ∷ "                fingerprint TEXT NULL, \n" ∷ "                recovery_secret TEXT NULL, \n"
    ∷ "                recovery_secret_signature TEXT NULL, \n"
    ∷ "                active INTEGER NOT NULL,\n" ∷ "                'primary' INTEGER NOT NULL,\n"
    ∷ "                PRIMARY KEY (key_id, user_id))\n" ∷ "            " ∷ [])

abbrev proton_user_columns : Text
proton_user_columns = lines (
    "` (\n" ∷ "                id INTEGER NOT NULL PRIMARY KEY AUTOINCREMENT, \n"
    ∷ "                user_id TEXT NOT NULL, \n" ∷ "                name TEXT NOT NULL, \n"
    ∷ "                used_space INTEGER NOT NULL, \n"
    ∷ "                currency TEXT NOT NULL, \n" ∷ "                credit INTEGER NOT NULL, \n"
    ∷ "                create_time INTEGER NOT NULL, \n"
    ∷ "                max_space INTEGER NOT NULL, \n"
    ∷ "                max_upload INTEGER NOT NULL, \n"
    ∷ "                role INTEGER NOT NULL, \n" ∷ "                private INTEGER NOT NULL, \n"
    ∷ "                subscribed INTEGER NOT NULL, \n"
    ∷ "                services INTEGER NOT NULL, \n"
    ∷ "                delinquent INTEGER NOT NULL, \n"
    ∷ "                organization_private_key TEXT NULL, \n"
    ∷ "                email TEXT NULL, \n" ∷ "                display_name TEXT NULL\n"
    ∷ "            )\n" ∷ "            " ∷ [])

abbrev wallet_user_settings_columns : Text
wallet_user_settings_columns = lines (
    "` (\n" ∷ "                user_id TEXT NOT NULL, \n"
    ∷ "                bitcoin_unit TEXT NOT NULL, \n"
    ∷ "                fiat_currency TEXT NOT NULL, \n"
    ∷ "                hide_empty_used_addresses INTEGER NOT NULL CHECK (hide_empty_used_addresses IN (0, 1)), \n"
    ∷ "                show_wallet_recovery INTEGER NOT NULL CHECK (show_wallet_recovery IN (0, 1)), \n"
    ∷ "                two_factor_amount_threshold REAL NOT NULL, \n"
    ∷ "                receive_inviter_notification INTEGER NOT NULL CHECK (receive_inviter_notification IN (0, 1)), \n"
    ∷ "                receive_email_integration_notification INTEGER NOT NULL CHECK (receive_email_integration_notification IN (0, 1)), \n"
    ∷ "                wallet_created INTEGER NOT NULL CHECK (wallet_created IN (0, 1)), \n"
    ∷ "                accept_terms_and_conditions INTEGER NOT NULL CHECK (accept_terms_and_conditions IN (0, 1)), \n"
    ∷ "                PRIMARY KEY (user_id)\n" ∷ "            )\n" ∷ "            " ∷ [])

module _ {W : Type 0} (conn : Connection W) where
  -- `ProtonUserKeyDatabase::migration_0`, in proton_user_key.rs
  unfoldable pub proton_user_key_migration_0 : Exec DatabaseError W (Unit {0})
  unfolding drop_table create_table add_index
  proton_user_key_migration_0 = do
    drop_table conn proton_user_key
    create_table conn (create_query proton_user_key_columns proton_user_key)
    add_index conn proton_user_key (codes "key_id")
    pure tt

  -- `ProtonUserDatabase::migration_0`, in proton_user.rs
  unfoldable pub proton_user_migration_0 : Exec DatabaseError W (Unit {0})
  unfolding drop_table create_table add_index
  proton_user_migration_0 = do
    drop_table conn proton_user
    create_table conn (create_query proton_user_columns proton_user)
    add_index conn proton_user (codes "user_id")
    pure tt

  -- `WalletUserSettingsDatabase::migration_0`, in wallet_user_settings.rs
  unfoldable pub wallet_user_settings_migration_0 : Exec DatabaseError W (Unit {0})
  unfolding drop_table create_table add_index
  wallet_user_settings_migration_0 = do
    drop_table conn wallet_user_settings
    create_table conn (create_query wallet_user_settings_columns wallet_user_settings)
    pure tt
