-- ===== src/AppDatabase/Build.antt =====
-- What the initialised database does from each old version.
use flutter_app.Common.{ℕ, zero, suc, ◌≡◌, refl, ok, ◌==◌, if◌then◌else◌, arith}
use flutter_app.Common.BTreeMap.{get, insert, keys, sort}
use flutter_app.Migration.{
  SimpleMigration, find_migration_path, walk, pick, add_migration, migrate_all, migrate,
}
use flutter_app.Schema.{Connection, accounts, drop_table}
use flutter_app.AppDatabase.{
  AppDatabase, new, init, build_database, first_migration, second_migration, reset,
}

module _ {W : Type 0} (conn : Connection W) where
  abbrev pub initialised : AppDatabase W
  initialised = (init conn (new conn)).1

  -- What the schema has been through when the build from version `v` is over.
  abbrev pub upgraded : ℕ → W → W
  upgraded v w =
      if v == 1
      then second_migration conn (first_migration conn w)
      else if v == 2
      then second_migration conn w
      else w

  -- what the search for a path in the initialised database computes with
  searched : Unit {0}
  unfolding flutter_app.Migration.new new init find_migration_path walk pick get insert keys sort
      add_migration build_database migrate
  searched = tt

  -- Building the initialised database from version 1 runs the two migrations in order, from
  -- version 2 the second alone, and from every other version, 0 included, none; it returns
  -- normally from each of them.
  pub build_database-upgraded :
      (v : ℕ) (w : W) → build_database conn initialised v w ≡ (ok tt, upgraded v w)
  unfolding searched
  build_database-upgraded zero w = refl
  build_database-upgraded (suc zero) w = refl
  build_database-upgraded (suc (suc zero)) w = refl
  build_database-upgraded (suc (suc (suc n))) w = ground arith

  -- A reset drops the table of accounts and then runs both migrations, whether or not the drop and
  -- the statements of the migrations succeed.
  pub reset-upgraded :
      (w : W) → reset conn initialised w ≡ (ok tt, upgraded 1 (drop_table conn accounts w).1)
  unfolding reset
  reset-upgraded w = build_database-upgraded 1 (drop_table conn accounts w).1

  -- Initialising the database again changes nothing.
  pub init-init : (init conn initialised).1 ≡ initialised
  unfolding searched
  init-init = refl
