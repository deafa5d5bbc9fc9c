-- ===== src/Provider/Derivation/Taken.antt =====
-- What the loop of `get_new_derivation_path` asks of an index, said of the accounts one by one.
use flutter_app.Common.{
  ℕ, ◌≤◌, ◌≡◌, ◌≢◌, refl, inl, inr, ◌⊎◌, Bool, true, false, ◌||◌, List, [], ◌∷◌, ◌++◌, any, count,
  Text, codes, text_eq, text_eq_iff, Bool-cases, arith, In, here, there,
}
use flutter_app.Db.Account.{AccountModel}
use flutter_app.Provider.Derivation.{is_derivation_path_exist, format_derivation_path, is_taken}

module _ {A : Type 0} (p : A → Bool) where
  any-In : (xs : List A) → any p xs ≡ true → (x : A) × In x xs × (p x ≡ true)
  any-In [] h = cc
  any-In (x ∷ xs) h = elim (Bool-cases (p x)) [
    | inl yes' ↦ (x, here, yes')
    | inr no' ↦ let (y, i, q) = any-In xs (ground (arith, h)) in (y, there i, q)
  ]

  any-no : (xs : List A) → any p xs ≡ false → (x : A) → In x xs → p x ≡ false
  any-no [] h y i = elim i [ ]
  any-no (x ∷ xs) h y here = ground (arith, h)
  any-no (x ∷ xs) h y (there i) = any-no xs (ground (arith, h)) y i

  count-In : (xs : List A) (x : A) → In x xs → p x ≡ true → 1 ≤ count p xs
  count-In [] y i q = elim i [ ]
  count-In (x ∷ xs) y here q = rw (q, count) (omega arith)
  count-In (x ∷ xs) y (there i) q = elim (Bool-cases (p x)) [
    | inl yes' ↦ rw (yes', count) (omega arith)
    | inr no' ↦ rw (no', count) (count-In xs y i q)
  ]

or-false : (p q : Bool) → (p || q) ≡ false → (p ≡ false) × (q ≡ false)
or-false true q h = cc
or-false false q h = (refl, h)

or-true : (p q : Bool) → (p || q) ≡ true → (p ≡ true) ⊎ (q ≡ true)
or-true true q h = inl refl
or-true false q h = inr h

true-or : (p q : Bool) → (p ≡ true) ⊎ (q ≡ true) → (p || q) ≡ true
true-or true q h = refl
true-or false q (inl h) = cc
true-or false q (inr h) = h

-- text that is not equal is another text
text_eq-ne : (a b : Text) → text_eq a b ≡ false → a ≢ b
text_eq-ne a b h e = let same = (text_eq_iff a b).1 e in cc

module _ (b c : ℕ) where
  -- The account has the path of the index, with or without `m/` in front.
  abbrev pub Holds : ℕ → AccountModel → Type 0
  Holds i account =
      (account.derivation_path ≡ format_derivation_path b c i)
      ⊎ (account.derivation_path ≡ codes "m/" ++ format_derivation_path b c i)

  abbrev pub takes : ℕ → AccountModel → Bool
  takes i account =
      text_eq account.derivation_path (format_derivation_path b c i)
      || text_eq account.derivation_path (codes "m/" ++ format_derivation_path b c i)

  pub takes-Holds : (x : AccountModel) (i : ℕ) → takes i x ≡ true → Holds i x
  takes-Holds x i h =
      let bare = format_derivation_path b c i in
      let far = codes "m/" ++ bare in
      elim (or-true (text_eq x.derivation_path bare) (text_eq x.derivation_path far) h) [
        | inl e ↦ inl ((text_eq_iff x.derivation_path bare).0 e)
        | inr e ↦ inr ((text_eq_iff x.derivation_path far).0 e)
      ]

  Holds-takes : (x : AccountModel) (i : ℕ) → Holds i x → takes i x ≡ true
  Holds-takes x i h =
      let bare = format_derivation_path b c i in
      let far = codes "m/" ++ bare in
      true-or (text_eq x.derivation_path bare) (text_eq x.derivation_path far) (elim h [
        | inl e ↦ inl ((text_eq_iff x.derivation_path bare).1 e)
        | inr e ↦ inr ((text_eq_iff x.derivation_path far).1 e)
      ])

  module _ (accounts : List AccountModel) where
    -- some account has the path of the index
    abbrev pub Used : ℕ → Type 0
    Used i = (account : AccountModel) × In account accounts × Holds i account

    -- no account has the path of the index
    abbrev pub Free : ℕ → Type 0
    Free i =
        (account : AccountModel)
        → In account accounts
        → (account.derivation_path ≢ format_derivation_path b c i)
          × (account.derivation_path ≢ codes "m/" ++ format_derivation_path b c i)

    pub is_taken-Used : (i : ℕ) → is_taken accounts b c i ≡ true → Used i
    unfolding is_taken is_derivation_path_exist
    is_taken-Used i h =
        let bare = format_derivation_path b c i in
        let far = codes "m/" ++ bare in
        elim (or-true (any (λ a. text_eq a.derivation_path bare) accounts)
          (any (λ a. text_eq a.derivation_path far) accounts) h) [
            | inl e ↦
                let (x, m, q) = any-In (λ a. text_eq a.derivation_path bare) accounts e in
                (x, m, inl ((text_eq_iff x.derivation_path bare).0 q))
            | inr e ↦
                let (x, m, q) = any-In (λ a. text_eq a.derivation_path far) accounts e in
                (x, m, inr ((text_eq_iff x.derivation_path far).0 q))
          ]

    pub is_taken-Free : (i : ℕ) → is_taken accounts b c i ≡ false → Free i
    unfolding is_taken is_derivation_path_exist
    is_taken-Free i h x m =
        let bare = format_derivation_path b c i in
        let far = codes "m/" ++ bare in
        let (near, away) =
          or-false (any (λ a. text_eq a.derivation_path bare) accounts)
            (any (λ a. text_eq a.derivation_path far) accounts) h in
        (
          text_eq-ne x.derivation_path bare
              (any-no (λ a. text_eq a.derivation_path bare) accounts near x m),
          text_eq-ne x.derivation_path far
              (any-no (λ a. text_eq a.derivation_path far) accounts away x m),
        )

    pub count-Used : (i : ℕ) → Used i → 1 ≤ count (takes i) accounts
    count-Used i (x, m, h) = count-In (takes i) accounts x m (Holds-takes x i h)
