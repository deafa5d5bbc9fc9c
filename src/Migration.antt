-- ===== src/Migration.antt =====
-- rust/src/proton_wallet/db/database/migration.rs and migration_container.rs: the versioned
-- migrations of the local database and the search for a path of migrations.
pub mod Pick
pub mod Path
pub mod Container
pub mod Greedy
use flutter_app.Common.{
  ℕ, zero, suc, ◌+◌, ◌-◌, Bool, true, false, ◌&&◌, Option, none, some, List, [], ◌∷◌, ltb, leb,
  if◌then◌else◌, ok, err, Exec, codes,
}
use flutter_app.Errors.{DatabaseError, migration}
use flutter_app.Common.BTreeMap.{BTreeMap, get, insert, keys, sort}

-- `SimpleMigration`. The closure's effect is a change of the world `W`, whatever that is.
pub record SimpleMigration (W : Type 0) : Type 0 where
  pub start_version : ℕ
  pub end_version : ℕ
  pub migrate_fn : W → W

module _ {W : Type 0} where
  unfoldable pub migrate : SimpleMigration W → W → W
  migrate m w = m.migrate_fn w

-- `MigrationContainer`: by start version, then by end version.
pub record MigrationContainer (W : Type 0) : Type 0 where
  pub migrations : BTreeMap (BTreeMap (SimpleMigration W))

abbrev pub or_default {ℓ} : {V : Type ℓ} → Option (BTreeMap V) → BTreeMap V
or_default none = []
or_default (some m) = m

module _ {W : Type 0} where
  unfoldable pub new : MigrationContainer W
  new = record { migrations = [] }

  -- `entry(start).or_default()` and `target_map.insert(end, migration)`
  unfoldable pub add_migration : MigrationContainer W → SimpleMigration W → MigrationContainer W
  add_migration c m =
      let target_map = or_default (get m.start_version c.migrations) in
      record {
        migrations = insert m.start_version (insert m.end_version m target_map) c.migrations;
      }

  unfoldable pub add_migrations :
      MigrationContainer W → List (SimpleMigration W) → MigrationContainer W
  unfolding add_migration
  add_migrations c [] = c
  add_migrations c (m ∷ ms) = add_migrations (add_migration c m) ms

  -- The inner `for` of `find_migration_path`: the first key that the tests let through, with its
  -- migration; `none` is `found == false`.
  unfoldable pub pick :
      BTreeMap (SimpleMigration W) → (current end : ℕ) → List ℕ → Option (ℕ × SimpleMigration W)
  pick target_map current end [] = none
  pick target_map current end (target ∷ rest) =
      let later = pick target_map current end rest in
      if leb target end && ltb current target
      then elim (get target target_map) [ some m ↦ some (target, m) | none ↦ later ]
      else later

  -- The outer `while`, with fuel; the outer `none` means that the fuel ran out.
  unfoldable pub walk :
      MigrationContainer W → ℕ → (current end : ℕ) → Option (Option (List (SimpleMigration W)))
  walk c zero current end = none
  walk c (suc fuel) current end = elim (ltb current end) [
    | false ↦ some (some [])
    | true ↦ elim (get current c.migrations) [
      | none ↦ some none
      | some target_map ↦ elim (pick target_map current end (sort (keys target_map))) [
        | none ↦ some none
        | some (target, m) ↦ elim (walk c fuel target end) [
          | none ↦ none
          | some none ↦ some none
          | some (some rest) ↦ some (some (m ∷ rest))
        ]
      ]
    ]
  ]

  -- `find_migration_path`. Each round raises the version, so `end - start + 1` rounds are enough.
  unfoldable pub find_migration_path :
      MigrationContainer W → (start end : ℕ) → Option (List (SimpleMigration W))
  find_migration_path c start end = elim (walk c (suc (end - start)) start end) [
    | none ↦ none
    | some found ↦ found
  ]

  -- `for migration in migrations { migration.migrate().await; }`
  unfoldable pub migrate_all : List (SimpleMigration W) → W → W
  unfolding migrate
  migrate_all [] w = w
  migrate_all (m ∷ ms) w = migrate_all ms (migrate m w)

  -- `run_migrations`
  unfoldable pub run_migrations :
      MigrationContainer W → (start end : ℕ) → Exec DatabaseError W (Unit {0})
  unfolding migrate_all
  run_migrations c start end w = elim (find_migration_path c start end) [
    | some ms ↦ (ok tt, migrate_all ms w)
    | none ↦ (err (migration (codes "No valid migration path found")), w)
  ]
