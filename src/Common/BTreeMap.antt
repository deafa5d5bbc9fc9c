-- ===== src/Common/BTreeMap.antt =====
-- `BTreeMap<u32, V>`: the entries in ascending order of their keys; and `slice::sort` on `u32`.
use Prim.Native.Nat.{ℕ, ◌≤◌}
use mathlib.Core.Path.{◌≡◌, refl}
use mathlib.Core.Logic.{inl, inr}
use mathlib.Core.Option.{Option, none, some}
use mathlib.Core.List.{List, [], ◌∷◌}
use native.Mathlib.Omega.{arith}
use flutter_app.Common.Tests.{ltb, leb, ◌==◌, if◌then◌else◌, Bool-cases}
use flutter_app.Common.Lists.{All, In, here, there}

abbrev pub BTreeMap {ℓ} : Type ℓ → Type ℓ
BTreeMap V = List (ℕ × V)

module _ {ℓ} {V : Type ℓ} where
  unfoldable pub get : ℕ → BTreeMap V → Option V
  get k [] = none
  get k ((j, w) ∷ m) = if k == j then some w else get k m

  unfoldable pub insert : ℕ → V → BTreeMap V → BTreeMap V
  insert k v [] = (k, v) ∷ []
  insert k v ((j, w) ∷ m) =
      let rest = insert k v m in
      if ltb k j then (k, v) ∷ (j, w) ∷ m else if k == j then (k, v) ∷ m else (j, w) ∷ rest

  unfoldable pub keys : BTreeMap V → List ℕ
  keys [] = []
  keys ((j, w) ∷ m) = j ∷ keys m

  -- A key reads what was inserted under it last.
  pub get-insert :
      (k j : ℕ) (v : V) (m : BTreeMap V)
      → get j (insert k v m) ≡ (if j == k then some v else get j m)
  unfolding get insert
  get-insert k j v [] = refl
  get-insert k j v ((i, w) ∷ m) = ground (arith, get-insert k j v m)

  pub get-In-keys : (k : ℕ) (m : BTreeMap V) {v : V} → get k m ≡ some v → In k (keys m)
  unfolding get keys
  get-In-keys k [] h = cc
  get-In-keys k ((j, w) ∷ m) {v} h = elim (Bool-cases (k == j)) [
    | inl same ↦ let e : j ≡ k = ground arith in rw e here
    | inr other ↦ there (get-In-keys k m {v = v} (ground arith))
  ]

-- Insertion sort stands for the stable sort of the standard library.
unfoldable pub insert_sorted : ℕ → List ℕ → List ℕ
insert_sorted x [] = x ∷ []
insert_sorted x (y ∷ ys) = let rest = insert_sorted x ys in if leb x y then x ∷ y ∷ ys else y ∷ rest

unfoldable pub sort : List ℕ → List ℕ
unfolding insert_sorted
sort [] = []
sort (x ∷ xs) = insert_sorted x (sort xs)

abbrev pub IsSorted : List ℕ → Type 0
IsSorted [] = Unit
IsSorted (x ∷ xs) = All (λ y. x ≤ y) xs × IsSorted xs

All-le_trans : (a b : ℕ) (xs : List ℕ) → a ≤ b → All (λ y. b ≤ y) xs → All (λ y. a ≤ y) xs
All-le_trans a b [] h all = tt
All-le_trans a b (x ∷ xs) h all = (omega arith, All-le_trans a b xs h all.1)

All-insert_sorted :
    (a x : ℕ) (xs : List ℕ) → a ≤ x → All (λ y. a ≤ y) xs → All (λ y. a ≤ y) (insert_sorted x xs)
unfolding insert_sorted
All-insert_sorted a x [] h all = (h, tt)
All-insert_sorted a x (y ∷ ys) h all = elim (Bool-cases (leb x y)) [
  | inl small ↦ rw small (h, (all.0, all.1))
  | inr large ↦ rw large (all.0, All-insert_sorted a x ys h all.1)
]

insert_sorted-IsSorted : (x : ℕ) (xs : List ℕ) → IsSorted xs → IsSorted (insert_sorted x xs)
unfolding insert_sorted
insert_sorted-IsSorted x [] s = (tt, tt)
insert_sorted-IsSorted x (y ∷ ys) s = elim (Bool-cases (leb x y)) [
  | inl small ↦ rw small ((ground arith, All-le_trans x y ys (ground arith) s.0), (s.0, s.1))
  | inr large ↦
      rw large (All-insert_sorted y x ys (ground arith) s.0, insert_sorted-IsSorted x ys s.1)
]

pub sort-IsSorted : (xs : List ℕ) → IsSorted (sort xs)
unfolding sort
sort-IsSorted [] = tt
sort-IsSorted (x ∷ xs) = insert_sorted-IsSorted x (sort xs) (sort-IsSorted xs)

insert_sorted-In : (x : ℕ) (xs : List ℕ) {a : ℕ} → In a (x ∷ xs) → In a (insert_sorted x xs)
unfolding insert_sorted
insert_sorted-In x [] m = m
insert_sorted-In x (y ∷ ys) here = elim (Bool-cases (leb x y)) [
  | inl small ↦ rw small here
  | inr large ↦ rw large (there (insert_sorted-In x ys here))
]
insert_sorted-In x (y ∷ ys) (there here) = elim (Bool-cases (leb x y)) [
  | inl small ↦ rw small (there here)
  | inr large ↦ rw large here
]
insert_sorted-In x (y ∷ ys) (there (there m)) = elim (Bool-cases (leb x y)) [
  | inl small ↦ rw small (there (there m))
  | inr large ↦ rw large (there (insert_sorted-In x ys (there m)))
]

pub sort-In : (xs : List ℕ) {a : ℕ} → In a xs → In a (sort xs)
unfolding sort
sort-In [] m = m
sort-In (x ∷ xs) here = insert_sorted-In x (sort xs) here
sort-In (x ∷ xs) (there m) = insert_sorted-In x (sort xs) (there (sort-In xs m))
