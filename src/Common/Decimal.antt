-- ===== src/Common/Decimal.antt =====
-- `Display` of an unsigned integer: its decimal digits, most significant first.
use Prim.Native.Nat.{ℕ, zero, suc, ◌+◌, ◌-◌, ◌*◌, ◌/◌, ◌%◌, ◌<◌}
use mathlib.Core.Path.{◌≡◌, refl, sym, ap, ◌∙◌}
use mathlib.Core.Logic.{inl, inr}
use mathlib.Core.Bool.{false}
use mathlib.Core.List.{[], ◌∷◌, ◌++◌}
use native.Mathlib.Omega.{arith}
use flutter_app.Common.Tests.{ltb, ◌==◌, if◌then◌else◌, Bool-cases}
use flutter_app.Common.Strings.{Text}

-- `digits f n rest` is the digits of `n` before `rest`; `f` bounds their number.
unfoldable pub digits : ℕ → ℕ → Text → Text
digits zero n rest = rest
digits (suc f) n rest =
    let more = digits f (n / 10) ((48 + n % 10) ∷ rest) in
    if ltb n 10 then (48 + n) ∷ rest else more

unfoldable pub decimal : ℕ → Text
unfolding digits
decimal n = digits (suc n) n []

-- Reads digits up to a quote (39) or the end.
read : ℕ → Text → ℕ
read v [] = v
read v (c ∷ cs) = let more = read (v * 10 + (c - 48)) cs in if c == 39 then v else more

read-digit : (v d : ℕ) (rest : Text) → d < 10 → read v ((48 + d) ∷ rest) ≡ read (v * 10 + d) rest
unfolding read
read-digit v d rest h =
    let same : v * 10 + (48 + d - 48) ≡ v * 10 + d = omega arith in
    let other : (48 + d == 39) ≡ false = ground arith in rw other (ap (λ t. read t rest) same)

read-digits : (f n : ℕ) (rest : Text) → n < f → read 0 (digits f n rest) ≡ read n rest
unfolding digits
read-digits zero n rest h = elim h [ ]
read-digits (suc f) n rest h = elim (Bool-cases (ltb n 10)) [
  | inl small ↦
      let same : 0 * 10 + n ≡ n = omega arith in
      rw small (read-digit 0 n rest (ground arith) ∙ ap (λ t. read t rest) same)
  | inr large ↦
      let same : n / 10 * 10 + n % 10 ≡ n = omega arith in
      rw large (
        read-digits f (n / 10) ((48 + n % 10) ∷ rest) (ground arith)
        ∙ read-digit (n / 10) (n % 10) rest (omega arith)
        ∙ ap (λ t. read t rest) same)
]

digits-append : (f n : ℕ) (rest : Text) (t : Text) → digits f n rest ++ t ≡ digits f n (rest ++ t)
unfolding digits
digits-append zero n rest t = refl
digits-append (suc f) n rest t = ground (arith, digits-append f (n / 10) ((48 + n % 10) ∷ rest) t)

-- A decimal followed by a quote determines its number.
pub decimal-injective : (m n : ℕ) → decimal m ++ 39 ∷ [] ≡ decimal n ++ 39 ∷ [] → m ≡ n
unfolding decimal read
decimal-injective m n h =
    let left = read-digits (suc m) m (39 ∷ []) (omega arith) in
    let right = read-digits (suc n) n (39 ∷ []) (omega arith) in
    sym left
    ∙ ap (read 0)
        (sym (digits-append (suc m) m [] (39 ∷ [])) ∙ h ∙ digits-append (suc n) n [] (39 ∷ []))
    ∙ right

digits-first :
    (f n : ℕ) (rest : Text) → n < f → (d : ℕ) × (t : Text) × (digits f n rest ≡ d ∷ t) × (d < 58)
unfolding digits
digits-first zero n rest h = elim h [ ]
digits-first (suc f) n rest h = elim (Bool-cases (ltb n 10)) [
  | inl small ↦ (48 + n, rest, rw small, ground arith)
  | inr large ↦ rw large (digits-first f (n / 10) ((48 + n % 10) ∷ rest) (ground arith))
]

-- A decimal begins with a character below `:`, which is a digit.
pub decimal-first : (n : ℕ) → (d : ℕ) × (t : Text) × (decimal n ≡ d ∷ t) × (d < 58)
unfolding decimal
decimal-first n = digits-first (suc n) n [] (omega arith)
