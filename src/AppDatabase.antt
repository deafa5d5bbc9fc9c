-- ===== src/AppDatabase.antt =====
-- rust/src/proton_wallet/db/app_database.rs: the local database with its versions, its migrations
-- and the way from an old version to the present one.
pub mod Build
use flutter_app.Common.{
  ℕ, Bool, true, false, none, some, List, [], ◌∷◌, Result, ok, Exec, pure, ◌>>◌,
}
use flutter_app.Errors.{DatabaseError}
use flutter_app.Migration
use flutter_app.Migration.{
  SimpleMigration, MigrationContainer, add_migration, add_migrations, find_migration_path, migrate,
  migrate_all,
}
use flutter_app.Schema.{Connection, accounts, drop_table}
use flutter_app.Schema.Accounts.{
  account_migration_0, account_migration_1, address_migration_0, bitcoin_address_migration_0,
  contacts_migration_0,
}
use flutter_app.Schema.Tables.{
  exchange_rate_migration_0, transaction_migration_0, wallet_migration_0,
}
use flutter_app.Schema.Users.{
  proton_user_key_migration_0, proton_user_migration_0, wallet_user_settings_migration_0,
}

-- `AppDatabase` without its DAOs, which all hold the one connection.
pub record AppDatabase (W : Type 0) : Type 0 where
  pub version : ℕ
  pub reset_version : ℕ
  pub db_reset : Bool
  pub migration_container : MigrationContainer W

module _ {W : Type 0} (conn : Connection W) where
  unfoldable pub new : AppDatabase W
  new = record {
    version = 3;
    reset_version = 1;
    db_reset = false;
    migration_container = Migration.new;
  }

  -- `let _ = call.await;`
  abbrev pub ignore : Exec DatabaseError W (Unit {0}) → W → W
  ignore call w = (call w).1

  -- the closure of the migration from 1 to 2
  unfoldable pub first_migration : W → W
  first_migration w0 =
      let w1 = ignore (wallet_migration_0 conn) w0 in
      let w2 = ignore (account_migration_0 conn) w1 in
      let w3 = ignore (address_migration_0 conn) w2 in
      let w4 = ignore (bitcoin_address_migration_0 conn) w3 in
      let w5 = ignore (contacts_migration_0 conn) w4 in
      let w6 = ignore (exchange_rate_migration_0 conn) w5 in
      let w7 = ignore (proton_user_migration_0 conn) w6 in
      let w8 = ignore (proton_user_key_migration_0 conn) w7 in
      let w9 = ignore (transaction_migration_0 conn) w8 in
      ignore (wallet_user_settings_migration_0 conn) w9

  -- the closure of the migration from 2 to 3
  unfoldable pub second_migration : W → W
  second_migration w = ignore (account_migration_1 conn) w

  unfoldable pub app_migrations : List (SimpleMigration W)
  app_migrations =
      record { start_version = 1; end_version = 2; migrate_fn = first_migration }
      ∷ record { start_version = 2; end_version = 3; migrate_fn = second_migration }
      ∷ []

  unfoldable pub build_migration : AppDatabase W → AppDatabase W
  unfolding app_migrations add_migrations
  build_migration db = record db {
    migration_container = add_migrations db.migration_container app_migrations;
  }

  unfoldable pub init : AppDatabase W → Result DatabaseError (Unit {0}) × AppDatabase W
  unfolding build_migration
  init db = (ok tt, build_migration db)

  unfoldable pub check_and_update_version : Exec DatabaseError W (Unit {0})
  check_and_update_version = pure tt

  unfoldable pub build_database :
      AppDatabase W → (old_version : ℕ) → Exec DatabaseError W (Unit {0})
  unfolding migrate_all check_and_update_version
  build_database db old_version w =
      elim (find_migration_path db.migration_container old_version db.version) [
        | some ms ↦ check_and_update_version (migrate_all ms w)
        | none ↦ check_and_update_version w
      ]

  unfoldable pub drop_all_tables : Exec DatabaseError W (Unit {0})
  drop_all_tables w = let (_, w') = drop_table conn accounts w in (ok tt, w')

  unfoldable pub reset : AppDatabase W → Exec DatabaseError W (Unit {0})
  unfolding drop_all_tables build_database
  reset db = do drop_all_tables; build_database db 1

  unfoldable pub needs_resync : AppDatabase W → Bool
  needs_resync db = db.db_reset
