-- ===== src/Migration/Path.antt =====
-- The search for a path of migrations, its end and what it finds:
-- `find_migration_path` of rust/src/proton_wallet/db/database/migration_container.rs.
use flutter_app.Common.{
  ℕ, zero, suc, ◌-◌, ◌≤◌, ◌<◌, ◌≡◌, refl, sym, subst, inl, inr, ◌⊎◌, Option, none, some, List, [],
  ◌∷◌, ltb, Bool-cases, Option-cases, arith,
}
use flutter_app.Common.BTreeMap.{BTreeMap, get, keys, sort}
use flutter_app.Migration.{SimpleMigration, MigrationContainer, pick, walk, find_migration_path}
use flutter_app.Migration.Pick.{NoneBelow, Picked, pick-Picked, pick-NoneBelow}

module _ {W : Type 0} (c : MigrationContainer W) where
  -- One step of the search at `v`: to `t`, by `m`.
  pub record Step (end v t : ℕ) (m : SimpleMigration W) : Type 0 where
    pub target_map : BTreeMap (SimpleMigration W)
    pub from_version : get v c.migrations ≡ some target_map
    pub picked : Picked target_map v end t m

  -- A version below `end` at which no migration leads to a later version in reach.
  pub data Stuck (end : ℕ) : ℕ → Type 0 where
    no_map : {v : ℕ} → v < end → get v c.migrations ≡ none → Stuck end v
    no_target :
        {v : ℕ} (target_map : BTreeMap (SimpleMigration W))
        → v < end
        → get v c.migrations ≡ some target_map
        → NoneBelow target_map v end (suc end)
        → Stuck end v
    after : {v t : ℕ} {m : SimpleMigration W} → Step end v t m → Stuck end t → Stuck end v

  pub data Steps (end : ℕ) : ℕ → List (SimpleMigration W) → Type 0 where
    done : {v : ℕ} → end ≤ v → Steps end v []
    step :
        {v t : ℕ} {m : SimpleMigration W} {ms : List (SimpleMigration W)}
        → Step end v t m
        → Steps end t ms
        → Steps end v (m ∷ ms)

  abbrev Outcome : (end v : ℕ) → Option (Option (List (SimpleMigration W))) → Type 0
  Outcome end v none = ⊥
  Outcome end v (some none) = Stuck end v
  Outcome end v (some (some ms)) = Steps end v ms

  abbrev prepend :
      SimpleMigration W
      → Option (Option (List (SimpleMigration W)))
      → Option (Option (List (SimpleMigration W)))
  prepend m none = none
  prepend m (some none) = some none
  prepend m (some (some rest)) = some (some (m ∷ rest))

  prepend-Outcome :
      (end v t : ℕ) (m : SimpleMigration W) (r : Option (Option (List (SimpleMigration W))))
      → Step end v t m
      → Outcome end t r
      → Outcome end v (prepend m r)
  prepend-Outcome end v t m none s h = absurd h
  prepend-Outcome end v t m (some none) s h = after s h
  prepend-Outcome end v t m (some (some rest)) s h = step s h

  abbrev Becomes : (end v fuel : ℕ) → Option (Option (List (SimpleMigration W))) → Type 0
  Becomes end v fuel r = walk c (suc fuel) v end ≡ r

  -- With fuel for each version that is left, the loop ends, with a path or stuck.
  walk-Outcome : (fuel v end : ℕ) → end - v < fuel → Outcome end v (walk c fuel v end)
  unfolding walk
  walk-Outcome zero v end h = elim h [ ]
  walk-Outcome (suc fuel) v end h = elim (Bool-cases (ltb v end)) [
    | inr stop ↦
        let e : Becomes end v fuel (some (some [])) = rw (stop, walk) in
        subst (Outcome end v) (sym e) (done (ground arith))
    | inl go ↦ elim (Option-cases (get v c.migrations)) [
      | inl no_entry ↦
          let e : Becomes end v fuel (some none) = rw (go, no_entry, walk) in
          subst (Outcome end v) (sym e) (no_map (ground arith) no_entry)
      | inr (targets, entry) ↦ elim (Option-cases (pick targets v end (sort (keys targets)))) [
        | inl missing ↦
            let e : Becomes end v fuel (some none) = rw (go, entry, missing, walk) in
            subst (Outcome end v) (sym e)
              (no_target targets (ground arith) entry (pick-NoneBelow targets v end missing))
        | inr ((t, m), taken) ↦
            let p = pick-Picked targets v end taken in
            let e : Becomes end v fuel (prepend m (walk c fuel t end)) =
              ground (arith, go, entry, taken) in
            subst (Outcome end v) (sym e) (
              prepend-Outcome end v t m (walk c fuel t end)
                (record { target_map = targets; from_version = entry; picked = p })
                (walk-Outcome fuel t end (omega (arith, p.above, p.within))))
      ]
    ]
  ]

  Outcome-cases :
      (end v : ℕ) (r : Option (Option (List (SimpleMigration W))))
      (found : Option (List (SimpleMigration W)))
      → Outcome end v r
      → found ≡ (elim r [ none ↦ none | some o ↦ o ])
      → ((found ≡ none) × Stuck end v)
        ⊎ ((ms : List (SimpleMigration W)) × (found ≡ some ms) × Steps end v ms)
  Outcome-cases end v none found h e = absurd h
  Outcome-cases end v (some none) found h e = inl (e, h)
  Outcome-cases end v (some (some ms)) found h e = inr (ms, e, h)

  -- For every container and all versions the search for a path ends: either without a path, and
  -- then the steps to the least later version lead to a version below the end version from which
  -- no migration leads further within it; or with a path made of such steps.
  pub find_migration_path_cases :
      (start end : ℕ)
      → ((find_migration_path c start end ≡ none) × Stuck end start)
        ⊎ ((ms : List (SimpleMigration W)) × (find_migration_path c start end ≡ some ms)
            × Steps end start ms)
  unfolding find_migration_path
  find_migration_path_cases start end =
      Outcome-cases end start (walk c (suc (end - start)) start end) _
        (walk-Outcome (suc (end - start)) start end (omega arith)) refl

  -- The migrations start one where the other ends, rise, and lead from `v` to `w`.
  abbrev pub Linked : ℕ → ℕ → List (SimpleMigration W) → Type 0
  Linked w v [] = v ≡ w
  Linked w v (m ∷ ms) =
      (m.start_version ≡ v) × (v < m.end_version) × (m.end_version ≤ w) × Linked w m.end_version ms

  -- Each migration is stored under its own versions.
  pub record IsKeyed : Type 0 where
    pub start_key :
        (v t : ℕ) (targets : BTreeMap (SimpleMigration W)) (m : SimpleMigration W)
        → get v c.migrations ≡ some targets
        → get t targets ≡ some m
        → m.start_version ≡ v
    pub end_key :
        (v t : ℕ) (targets : BTreeMap (SimpleMigration W)) (m : SimpleMigration W)
        → get v c.migrations ≡ some targets
        → get t targets ≡ some m
        → m.end_version ≡ t

  Steps-Linked :
      {end v : ℕ} {ms : List (SimpleMigration W)}
      → IsKeyed
      → v ≤ end
      → Steps end v ms
      → Linked end v ms
  Steps-Linked k h (done g) = omega arith
  Steps-Linked {end} k h (step {v = v} {t = t} {m = m} {ms = ms} s rest) =
      let from' = k.start_key v t s.target_map m s.from_version s.picked.found in
      let to = k.end_key v t s.target_map m s.from_version s.picked.found in
      (
        from',
        omega (arith, to, s.picked.above),
        omega (arith, to, s.picked.within),
        subst (λ n. Linked end n ms) (sym to) (Steps-Linked k s.picked.within rest),
      )

  -- In a container whose migrations are stored under their own versions, a path that is found from
  -- a version up to a later or equal one consists of migrations that each start where the one
  -- before ends, raise the version, and together lead from the first version exactly to the last.
  pub find_migration_path-Linked :
      (start end : ℕ) (ms : List (SimpleMigration W))
      → IsKeyed
      → start ≤ end
      → find_migration_path c start end ≡ some ms
      → Linked end start ms
  find_migration_path-Linked start end ms k h e = elim (find_migration_path_cases start end) [
    | inl (missing, _) ↦ cc
    | inr (ns, found, s) ↦
        let same : ns ≡ ms = cc in subst (Linked end start) same (Steps-Linked k h s)
  ]
