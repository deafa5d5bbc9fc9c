-- ===== src/Migration/Container.antt =====
-- What the container holds after `add_migration`, and the invariant that every container built by
-- it has.
use flutter_app.Common.{
  ℕ, ◌≡◌, refl, ◌&&◌, Option, none, some, List, [], ◌∷◌, ◌==◌, if◌then◌else◌, arith,
}
use flutter_app.Common.BTreeMap.{BTreeMap, get, insert, get-insert}
use flutter_app.Migration.{
  SimpleMigration, MigrationContainer, or_default, new, add_migration, add_migrations,
}
use flutter_app.Migration.Path.{IsKeyed}

module _ {W : Type 0} where
  abbrev at : Option (BTreeMap (SimpleMigration W)) → ℕ → Option (SimpleMigration W)
  at none t = none
  at (some targets) t = get t targets

  -- the migration stored from version `v` to version `t`
  abbrev pub stored : MigrationContainer W → (v t : ℕ) → Option (SimpleMigration W)
  stored c v t = at (get v c.migrations) t

  get-or_default :
      (o : Option (BTreeMap (SimpleMigration W))) (t : ℕ) → get t (or_default o) ≡ at o t
  unfolding get
  get-or_default none t = refl
  get-or_default (some m) t = refl

  -- After a migration is added it is the one stored between its two versions, in place of any that
  -- was there, and every other pair of versions has what it had.
  pub stored-add_migration :
      (c : MigrationContainer W) (m : SimpleMigration W) (v t : ℕ)
      → stored (add_migration c m) v t
        ≡ (if (v == m.start_version) && (t == m.end_version) then some m else stored c v t)
  unfolding add_migration
  stored-add_migration c m v t =
      let targets = or_default (get m.start_version c.migrations) in
      ground (
        arith,
        get-insert m.start_version v (insert m.end_version m targets) c.migrations,
        get-insert m.end_version t m targets,
        get-or_default (get m.start_version c.migrations) t,
      )

  -- Every stored migration stands between its own two versions.
  pub record IsFiled (c : MigrationContainer W) : Type 0 where
    pub filed :
        (v t : ℕ) (m : SimpleMigration W)
        → stored c v t ≡ some m
        → (m.start_version ≡ v) × (m.end_version ≡ t)

  IsFiled-new : IsFiled new
  unfolding new get
  IsFiled-new = record { filed = λ v t m h. cc }

  add_migration-IsFiled :
      (c : MigrationContainer W) (m : SimpleMigration W) → IsFiled c → IsFiled (add_migration c m)
  add_migration-IsFiled c m f = record {
    filed = λ v t n h. ground (arith, stored-add_migration c m v t, f.filed v t n);
  }

  add_migrations-IsFiled :
      (c : MigrationContainer W) (ms : List (SimpleMigration W))
      → IsFiled c
      → IsFiled (add_migrations c ms)
  unfolding add_migrations
  add_migrations-IsFiled c [] f = f
  add_migrations-IsFiled c (m ∷ ms) f =
      add_migrations-IsFiled (add_migration c m) ms (add_migration-IsFiled c m f)

  IsFiled→IsKeyed : (c : MigrationContainer W) → IsFiled c → IsKeyed c
  IsFiled→IsKeyed c f = record {
    start_key = λ v t targets m e g. (f.filed v t m (rw (e, at) g)).0;
    end_key = λ v t targets m e g. (f.filed v t m (rw (e, at) g)).1;
  }

  -- A container to which any migrations were added, in any order, stores each migration under its
  -- own versions.
  pub add_migrations-IsKeyed : (ms : List (SimpleMigration W)) → IsKeyed (add_migrations new ms)
  add_migrations-IsKeyed ms = IsFiled→IsKeyed _ (add_migrations-IsFiled new ms IsFiled-new)
