-- ===== src/Migration/Pick.antt =====
-- What one round of the search picks: the least later version that a migration leads to.
use flutter_app.Common.{
  ℕ, suc, ◌≤◌, ◌<◌, ◌≡◌, inl, inr, ◌⊎◌, Option, none, some, List, [], ◌∷◌, Option-cases, All, In,
  here, there, All-In, arith,
}
use flutter_app.Common.BTreeMap.{
  BTreeMap, get, keys, sort, IsSorted, sort-IsSorted, sort-In, get-In-keys,
}
use flutter_app.Migration.{SimpleMigration, pick}

module _ {W : Type 0} (target_map : BTreeMap (SimpleMigration W)) (current end : ℕ) where
  -- No migration leads from `current` to a version above it and below `bound`.
  abbrev pub NoneBelow : ℕ → Type 0
  NoneBelow bound = (u : ℕ) → current < u → u < bound → get u target_map ≡ none

  pub record Picked (target : ℕ) (m : SimpleMigration W) : Type 0 where
    pub above : current < target
    pub within : target ≤ end
    pub found : get target target_map ≡ some m
    pub least : NoneBelow target

  -- `u` is not a later version in reach, or no migration leads there.
  abbrev Skipped : ℕ → Type 0
  Skipped u = current < u → u ≤ end → get u target_map ≡ none

  pick-eq-none : (ks : List ℕ) → pick target_map current end ks ≡ none → All Skipped ks
  unfolding pick
  pick-eq-none [] h = tt
  pick-eq-none (k ∷ ks) h = ((λ p q. ground arith), pick-eq-none ks (ground arith))

  -- A pick is the head of the keys, or comes from the rest when the head is skipped.
  pick_cons :
      (k : ℕ) (ks : List ℕ) {target : ℕ} {m : SimpleMigration W}
      → pick target_map current end (k ∷ ks) ≡ some (target, m)
      → ((k ≡ target) × (current < target) × (target ≤ end) × (get target target_map ≡ some m))
        ⊎ ((pick target_map current end ks ≡ some (target, m)) × Skipped k)
  unfolding pick
  pick_cons k ks h = ground arith

  -- Ascending keys make the picked one the least.
  pick-eq-some :
      (ks : List ℕ) {target : ℕ} {m : SimpleMigration W}
      → IsSorted ks
      → pick target_map current end ks ≡ some (target, m)
      → (current < target)
        × (target ≤ end)
        × (get target target_map ≡ some m)
        × ((u : ℕ) → In u ks → current < u → u < target → get u target_map ≡ none)
  unfolding pick
  pick-eq-some [] s h = cc
  pick-eq-some (k ∷ ks) {target} {m} s h = elim (pick_cons k ks h) [
    | inl (same, above, within, found) ↦ (above, within, found, head_least same)
    | inr (later, skipped) ↦
        let (above, within, found, least) = pick-eq-some ks s.1 later in
        (above, within, found, tail_least skipped within least)
  ]
    where
      head_least :
          k ≡ target → (u : ℕ) → In u (k ∷ ks) → current < u → u < target → get u target_map ≡ none
      head_least same u here p q = absurd (omega arith)
      head_least same u (there i) p q = absurd (omega (arith, All-In (λ y. k ≤ y) s.0 i))

      tail_least :
          Skipped k
          → target ≤ end
          → ((u : ℕ) → In u ks → current < u → u < target → get u target_map ≡ none)
          → (u : ℕ) → In u (k ∷ ks)
          → current < u
          → u < target
          → get u target_map ≡ none
      tail_least skipped within least u here p q = skipped p (omega arith)
      tail_least skipped within least u (there i) p q = least u i p q

  abbrev picked : Option (ℕ × SimpleMigration W)
  picked = pick target_map current end (sort (keys target_map))

  -- The pick is the least later version that a migration leads to.
  pub pick-Picked :
      {target : ℕ} {m : SimpleMigration W} → picked ≡ some (target, m) → Picked target m
  pick-Picked {target} {m} h =
      let (above, within, found, least) =
        pick-eq-some (sort (keys target_map)) (sort-IsSorted _) h in
      record {
        above = above;
        within = within;
        found = found;
        least = λ u p q. elim (Option-cases (get u target_map)) [
          | inl none' ↦ none'
          | inr (x, some') ↦
              least u (sort-In (keys target_map) (get-In-keys u target_map some')) p q
        ];
      }

  -- Without a pick no migration leads to a later version in reach.
  pub pick-NoneBelow : picked ≡ none → NoneBelow (suc end)
  pick-NoneBelow h u p q = elim (Option-cases (get u target_map)) [
    | inl none' ↦ none'
    | inr (x, some') ↦
        All-In Skipped (pick-eq-none (sort (keys target_map)) h)
          (sort-In (keys target_map) (get-In-keys u target_map some')) p (omega arith)
  ]
