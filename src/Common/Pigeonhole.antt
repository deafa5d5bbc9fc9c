-- ===== src/Common/Pigeonhole.antt =====
-- If each of `n` tests is passed by some element of a list, and no element passes two of them, the
-- list has at least `n` elements.
use Prim.Native.Nat.{ℕ, zero, suc, ◌+◌, ◌≤◌, ◌<◌}
use mathlib.Core.Path.{◌≡◌, refl}
use mathlib.Core.Logic.{inl, inr}
use mathlib.Core.Bool.{Bool, true, false}
use mathlib.Core.List.{List, [], ◌∷◌}
use native.Mathlib.Omega.{arith}
use flutter_app.Common.Tests.{Bool-cases, if◌then◌else◌}
use flutter_app.Common.Lists.{length, count}

module _ {A : Type 0} (f : ℕ → A → Bool) where
  total : ℕ → List A → ℕ
  total zero xs = 0
  total (suc n) xs = count (f n) xs + total n xs

  hits : ℕ → A → ℕ
  hits zero x = 0
  hits (suc n) x = let rest = hits n x in if f n x then suc rest else rest

  total-nil : (n : ℕ) → total n [] ≡ 0
  unfolding total
  total-nil zero = refl
  total-nil (suc n) = omega (arith, total-nil n)

  total-cons : (n : ℕ) (x : A) (xs : List A) → total n (x ∷ xs) ≡ hits n x + total n xs
  unfolding total hits
  total-cons zero x xs = omega arith
  total-cons (suc n) x xs = ground (arith, total-cons n x xs)

  hits-none : (n : ℕ) (x : A) → ((j : ℕ) → j < n → f j x ≡ false) → hits n x ≡ 0
  unfolding hits
  hits-none zero x h = refl
  hits-none (suc n) x h = ground (arith, h n, hits-none n x (λ j p. h j (omega arith)))

  hits-le_one : (n : ℕ) (x : A) → ((i j : ℕ) → f i x ≡ true → f j x ≡ true → i ≡ j) → hits n x ≤ 1
  unfolding hits
  hits-le_one zero x h = omega arith
  hits-le_one (suc n) x h = elim (Bool-cases (f n x)) [
    | inl hit ↦ rw hit (omega (arith, hits-none n x (other hit)))
    | inr miss ↦ rw miss (hits-le_one n x h)
  ]
    where
      other : f n x ≡ true → (j : ℕ) → j < n → f j x ≡ false
      other hit j p = elim (Bool-cases (f j x)) [
        | inl also ↦ absurd (omega (arith, h j n also hit))
        | inr miss ↦ miss
      ]

  total-le-length :
      (n : ℕ) (xs : List A)
      → ((x : A) (i j : ℕ) → f i x ≡ true → f j x ≡ true → i ≡ j)
      → total n xs ≤ length xs
  total-le-length n [] h = omega (arith, total-nil n)
  total-le-length n (x ∷ xs) h =
      omega (arith, total-cons n x xs, hits-le_one n x (h x), total-le-length n xs h)

  total-ge : (n : ℕ) (xs : List A) → ((i : ℕ) → i < n → 1 ≤ count (f i) xs) → n ≤ total n xs
  unfolding total
  total-ge zero xs h = omega arith
  total-ge (suc n) xs h = omega (arith, h n (omega arith), total-ge n xs (λ i p. h i (omega arith)))

  pub pigeonhole :
      (n : ℕ) (xs : List A)
      → ((x : A) (i j : ℕ) → f i x ≡ true → f j x ≡ true → i ≡ j)
      → ((i : ℕ) → i < n → 1 ≤ count (f i) xs)
      → n ≤ length xs
  pigeonhole n xs apart hit = omega (arith, total-le-length n xs apart, total-ge n xs hit)
