-- ===== src/Tests/Migrations.antt =====
-- The migrations at work: rust/src/proton_wallet/db/database/migration_container.rs and
-- app_database.rs.
use flutter_app.Common.{ℕ, ◌+◌, ◌*◌, ◌≡◌, ◌⊎◌, refl, none, some, List, [], ◌∷◌, ok, arith}
use flutter_app.Common.BTreeMap.{get, insert, keys, sort}
use flutter_app.Migration.{
  SimpleMigration, MigrationContainer, new, add_migrations, pick, walk, find_migration_path,
}
use flutter_app.Migration.Path.{
  Linked, Stuck, Steps, find_migration_path_cases, find_migration_path-Linked,
}
use flutter_app.Migration.Container.{stored, add_migrations-IsKeyed}
use flutter_app.Migration.Greedy.{find_migration_path-dead_end}
use flutter_app.Schema.{Connection}
use flutter_app.AppDatabase.{init}
use flutter_app.AppDatabase.Build.{initialised, init-init}

-- The world is a number, and each migration leaves a digit of it.
abbrev digit : (start end d : ℕ) → SimpleMigration ℕ
digit start end d = record {
  start_version = start;
  end_version = end;
  migrate_fn = λ n. n * 10 + d;
}

abbrev two_steps : List (SimpleMigration ℕ)
two_steps = digit 1 2 7 ∷ digit 2 3 8 ∷ []

-- a step from 1 to 2 that leads no further, and one from 1 straight to 3
abbrev trap : List (SimpleMigration ℕ)
trap = digit 1 2 7 ∷ digit 1 3 8 ∷ []

abbrev chain : MigrationContainer ℕ
chain = add_migrations new two_steps

abbrev trapped : MigrationContainer ℕ
trapped = add_migrations new trap

two_steps_path : find_migration_path chain 1 3 ≡ some two_steps
unfolding find_migration_path walk pick get insert keys sort add_migrations new
two_steps_path = refl

find_migration_path-Linked_example : Linked chain 3 1 two_steps
find_migration_path-Linked_example =
    find_migration_path-Linked chain 1 3 two_steps (add_migrations-IsKeyed two_steps) (omega arith)
      two_steps_path

find_migration_path_cases_example :
    ((find_migration_path chain 1 3 ≡ none) × Stuck chain 3 1)
    ⊎ ((ms : List (SimpleMigration ℕ)) × (find_migration_path chain 1 3 ≡ some ms)
        × Steps chain 3 1 ms)
find_migration_path_cases_example = find_migration_path_cases chain 1 3

first_stored : stored trapped 1 2 ≡ some (digit 1 2 7)
unfolding get insert add_migrations new
first_stored = refl

dead : (t : ℕ) → stored trapped 2 t ≡ none
unfolding get insert add_migrations new
dead t = refl

straight : stored trapped 1 3 ≡ some (digit 1 3 8)
unfolding get insert add_migrations new
straight = refl

find_migration_path-dead_end_example : find_migration_path trapped 1 3 ≡ none
find_migration_path-dead_end_example =
    find_migration_path-dead_end trapped 1 2 3 (digit 1 2 7) (omega arith) (omega arith)
      first_stored (λ t p q. dead t) (λ u p q. absurd (omega arith))

-- A connection that keeps the number of the statements it ran.
abbrev pub counting : Connection ℕ
counting = record { execute = λ query n. (ok 0, n + 1) }

init-init_example : (init counting (initialised counting)).1 ≡ initialised counting
init-init_example = init-init counting
