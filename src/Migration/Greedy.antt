-- ===== src/Migration/Greedy.antt =====
-- Dead ends of the search for a path of migrations, and what `run_migrations` does with its answer:
-- rust/src/proton_wallet/db/database/migration_container.rs.
use flutter_app.Common.{ℕ, ◌≤◌, ◌<◌, ◌≡◌, inl, inr, ◌⊎◌, none, some, List, arith}
use flutter_app.Common.BTreeMap.{get}
use flutter_app.Migration.{SimpleMigration, MigrationContainer, find_migration_path}
use flutter_app.Migration.Path.{Step, Steps, done, step, find_migration_path_cases}
use flutter_app.Migration.Container.{stored}

module _ {W : Type 0} (c : MigrationContainer W) where
  stored-Step :
      {end v t : ℕ} {m : SimpleMigration W} (s : Step c end v t m) (u : ℕ)
      → stored c v u ≡ get u s.target_map
  stored-Step {v} s u = ground (arith, s.from_version)

  module _ (a b end : ℕ) (m : SimpleMigration W) (rises : a < b) (short : b < end)
      (first : stored c a b ≡ some m) (dead : (t : ℕ) → b < t → t ≤ end → stored c b t ≡ none) where
    not_Steps-b : {ms : List (SimpleMigration W)} → ¬ Steps c end b ms
    not_Steps-b (done h) = absurd (omega arith)
    not_Steps-b (step {t = t} s rest) =
        cc (dead t s.picked.above s.picked.within, stored-Step s t, s.picked.found)

    not_Steps-a :
        ((u : ℕ) → a < u → u < b → stored c a u ≡ none)
        → {ms : List (SimpleMigration W)} → ¬ Steps c end a ms
    not_Steps-a least (done h) = absurd (omega arith)
    not_Steps-a least (step {t = t} s rest) = elim (order t) [
      | inl below ↦ cc (least t s.picked.above below, stored-Step s t, s.picked.found)
      | inr (inl same) ↦ not_Steps-b (rw same at rest)
      | inr (inr above) ↦ cc (s.picked.least b rises above, stored-Step s b, first)
    ]
      where
        order : (t : ℕ) → (t < b) ⊎ ((t ≡ b) ⊎ (b < t))
        order t = grind arith

    -- If the least later version that a migration leads to from `a` is `b`, short of the end
    -- version, and no migration leads on from `b` within the end version, then no path is found,
    -- whatever other migrations start at `a`, one that leads straight to the end version included.
    pub find_migration_path-dead_end :
        ((u : ℕ) → a < u → u < b → stored c a u ≡ none) → find_migration_path c a end ≡ none
    find_migration_path-dead_end least = elim (find_migration_path_cases c a end) [
      | inl (missing, _) ↦ missing
      | inr (ms, _, s) ↦ absurd (not_Steps-a least s)
    ]
