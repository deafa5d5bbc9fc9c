-- ===== src/Provider/Derivation/Fresh.antt =====
-- The path that `get_new_derivation_path` of rust/src/proton_wallet/provider/wallet.rs returns, and
-- the end of its loop.
use flutter_app.Common.{
  ℕ, zero, suc, ◌+◌, ◌-◌, ◌≤◌, ◌<◌, ◌≡◌, refl, sym, subst, ◌∙◌, ap, inl, inr, ◌⊎◌, true, false,
  some, List, keep, length, Result, ok, err, ltb, ltb→lt, Text, codes, text_eq, Bool-cases, arith,
  append-cancel_left,
}
use flutter_app.Common.Pigeonhole.{pigeonhole}
use flutter_app.Errors.{ProviderError, reached_max_account_size}
use flutter_app.Db.Table.{Table}
use flutter_app.Db.Base.Laws.{Has, get_all_by_column_id_live}
use flutter_app.Db.Account.{AccountModel, wallet_id_column, get_all_by_wallet_id}
use flutter_app.Provider.Derivation.{
  format_derivation_path, is_taken, find_path, get_new_derivation_path,
}
use flutter_app.Provider.Derivation.Taken.{
  takes, takes-Holds, Used, Free, is_taken-Used, is_taken-Free, count-Used,
}
use flutter_app.Provider.Derivation.Paths.{format-injective, format-ne-prefixed}

leq-cases : (low j : ℕ) → low ≤ j → (low ≡ j) ⊎ (low < j)
leq-cases low j p = grind arith

not_ltb : (n low : ℕ) → ltb n (low + 1) ≡ false → low + 1 ≤ n
not_ltb n low h = ground arith

module _ (accounts : List AccountModel) (b c : ℕ) where
  -- `i` is the first index from `low` on whose path is free
  pub record IsFirstFree (low i : ℕ) : Type 0 where
    pub from' : low ≤ i
    pub in_range : i ≤ 10000
    pub free : Free b c accounts i
    pub below : (j : ℕ) → low ≤ j → j < i → Used b c accounts j

  abbrev pub AllTaken : ℕ → Type 0
  AllTaken low = (j : ℕ) → low ≤ j → j ≤ 10000 → Used b c accounts j

  abbrev pub Found : ℕ → Result ProviderError Text → Type 0
  Found low r =
      ((i : ℕ) × (r ≡ ok (format_derivation_path b c i)) × IsFirstFree low i)
      ⊎ ((r ≡ err (reached_max_account_size 10000)) × AllTaken low)

  step-AllTaken : (low : ℕ) → Used b c accounts low → AllTaken (low + 1) → AllTaken low
  step-AllTaken low here' later j p q = elim (leq-cases low j p) [
    | inl same ↦ rw (← same) here'
    | inr above ↦ later j (omega arith) q
  ]

  step-Found :
      (low : ℕ) (r : Result ProviderError Text)
      → Used b c accounts low
      → Found (low + 1) r
      → Found low r
  step-Found low r taken (inl (i, e, f)) = inl (
    i,
    e,
    record {
      from' = omega (arith, f.from');
      in_range = f.in_range;
      free = f.free;
      below = λ j p q. elim (leq-cases low j p) [
        | inl same ↦ rw (← same) taken
        | inr above ↦ f.below j (omega arith) q
      ];
    },
  )
  step-Found low r taken (inr (e, all)) = inr (e, step-AllTaken low taken all)

  find_path-Found :
      (fuel low : ℕ)
      → 10000 - low < fuel
      → low ≤ 10000
      → (r : Result ProviderError Text) × (find_path accounts b c fuel low ≡ some r) × Found low r
  unfolding find_path
  find_path-Found zero low h p = absurd (omega arith)
  find_path-Found (suc fuel) low h p = elim (Bool-cases (is_taken accounts b c low)) [
    | inr free ↦ (
      ok (format_derivation_path b c low),
      (rw (find_path, free)),
      inl (
        low,
        refl,
        record {
          from' = omega arith;
          in_range = p;
          free = is_taken-Free b c accounts low free;
          below = λ j q r. absurd (omega arith);
        },
      ),
    )
    | inl taken ↦ elim (Bool-cases (ltb 10000 (low + 1))) [
      | inl last ↦ (
        err (reached_max_account_size 10000),
        (rw (find_path, taken, last)),
        inr (
          refl,
          step-AllTaken low (is_taken-Used b c accounts low taken)
              (λ j q r. absurd (omega (arith, ltb→lt 10000 (low + 1) last))),
        ),
      )
      | inr more ↦
          let (r, e, found) =
            find_path-Found fuel (low + 1) (omega (arith, not_ltb 10000 low more))
              (omega (arith, not_ltb 10000 low more)) in
          (
            r,
            (rw (find_path, taken, more, e)),
            step-Found low r (is_taken-Used b c accounts low taken) found,
          )
    ]
  ]

module _ (table : Table AccountModel) (wallet_id : Text) (b c : ℕ) (s : table.Store) where
  -- the accounts of the wallet
  abbrev pub accounts_of : List AccountModel
  accounts_of = keep (λ account. text_eq account.wallet_id wallet_id) (table.rows s)

  module _ (live : table.Live s) (has : Has table wallet_id_column s) where
    searched :
        (r : Result ProviderError Text) × (get_new_derivation_path table wallet_id b c s ≡ (r, s))
        × Found accounts_of b c 0 r
    unfolding get_new_derivation_path get_all_by_wallet_id
    searched =
        let (r, e, found) = find_path-Found accounts_of b c 10001 0 (omega arith) (omega arith) in
        (r, (rw (get_all_by_column_id_live table wallet_id_column wallet_id s live has, e)), found)

    -- On a table of accounts that serves queries, `get_new_derivation_path` changes nothing and
    -- either returns the path of the first index from 0 to 10000 whose path no account of the wallet
    -- has, with or without `m/` in front, or fails with `ReachedMaxAccountSize` and no index is free.
    pub get_new_derivation_path_lem :
        (Found accounts_of b c 0 (get_new_derivation_path table wallet_id b c s).0)
        × ((get_new_derivation_path table wallet_id b c s).1 ≡ s)
    get_new_derivation_path_lem =
        let (r, e, found) = searched in
        (subst (Found accounts_of b c 0) (sym (ap (λ p. p.0) e)) found, ap (λ p. p.1) e)

takes-apart :
    (b c : ℕ) (x : AccountModel) (i j : ℕ) → takes b c i x ≡ true → takes b c j x ≡ true → i ≡ j
takes-apart b c x i j h k = elim (takes-Holds b c x i h) [
  | inl e ↦ elim (takes-Holds b c x j k) [
    | inl f ↦ format-injective b c i j (sym e ∙ f)
    | inr f ↦ absurd (format-ne-prefixed b c i j (sym e ∙ f))
  ]
  | inr e ↦ elim (takes-Holds b c x j k) [
    | inl f ↦ absurd (format-ne-prefixed b c j i (sym f ∙ e))
    | inr f ↦ format-injective b c i j (append-cancel_left (codes "m/") _ _ (sym e ∙ f))
  ]
]

module _ (accounts : List AccountModel) (b c : ℕ) where
  AllTaken-length : AllTaken accounts b c 0 → 10001 ≤ length accounts
  AllTaken-length all =
      pigeonhole (takes b c) 10001 accounts (takes-apart b c)
        (λ i p. count-Used b c accounts i (all i (omega arith) (omega arith)))

  -- The search for a path ends with the path of the first index that is free, where the wallet has at most 10000
  -- accounts, whatever their derivation paths are.
  pub find_path-succeeds :
      length accounts ≤ 10000
      → (i : ℕ) × (find_path accounts b c 10001 0 ≡ some (ok (format_derivation_path b c i)))
        × IsFirstFree accounts b c 0 i
  find_path-succeeds few =
      let (r, e, found) = find_path-Found accounts b c 10001 0 (omega arith) (omega arith) in
      elim found [
        | inl (i, e', f) ↦ (i, rw (← e') e, f)
        | inr (e', all) ↦ absurd (omega (arith, AllTaken-length all))
      ]
