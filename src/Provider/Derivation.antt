-- ===== src/Provider/Derivation.antt =====
-- The choice of a derivation path for a new account: `get_new_derivation_path` of
-- rust/src/proton_wallet/provider/wallet.rs with its helpers.
pub mod Paths
pub mod Taken
pub mod Fresh
use flutter_app.Common.{
  ℕ, zero, suc, ◌+◌, Bool, true, false, ◌||◌, Option, none, some, List, any, ◌++◌, Result, ok, err,
  ltb, Text, codes, text_eq, decimal, Exec,
}
use flutter_app.Errors.{ProviderError, reached_max_account_size}
use flutter_app.Db.Table.{Table}
use flutter_app.Db.Account.{AccountModel, get_all_by_wallet_id}

unfoldable pub is_derivation_path_exist : List AccountModel → Text → Bool
is_derivation_path_exist accounts path =
    any (λ account. text_eq account.derivation_path path) accounts

-- `format!("{bip_version}'/{coin_type}'/{account_index}'")`
unfoldable pub format_derivation_path : (bip_version coin_type account_index : ℕ) → Text
format_derivation_path bip_version coin_type account_index =
    decimal bip_version
    ++ (codes "'/" ++ (decimal coin_type ++ (codes "'/" ++ (decimal account_index ++ codes "'"))))

module _ (accounts : List AccountModel) (bip_version coin_type : ℕ) where
  -- the test of the loop: the path, or the path behind `m/`, is taken
  unfoldable pub is_taken : ℕ → Bool
  is_taken index =
      let path = format_derivation_path bip_version coin_type index in
      is_derivation_path_exist accounts path
      || is_derivation_path_exist accounts (codes "m/" ++ path)

  -- The loop, with fuel; `none` means that the fuel ran out.
  unfoldable pub find_path : ℕ → ℕ → Option (Result ProviderError Text)
  find_path zero new_account_index = none
  find_path (suc fuel) new_account_index = elim (is_taken new_account_index) [
    | true ↦ elim (ltb 10000 (new_account_index + 1)) [
      | true ↦ some (err (reached_max_account_size 10000))
      | false ↦ find_path fuel (new_account_index + 1)
    ]
    | false ↦ some (ok (format_derivation_path bip_version coin_type new_account_index))
  ]

-- the result of the loop, where the fuel was enough
abbrev pub finished : Option (Result ProviderError Text) → Result ProviderError Text
finished none = err (reached_max_account_size 10000)
finished (some r) = r

-- `get_new_derivation_path`, over the table of accounts. The loop tries the indices 0 to 10000, so
-- 10001 rounds are enough.
unfoldable pub get_new_derivation_path :
    (table : Table AccountModel)
    → (wallet_id : Text) → (bip_version coin_type : ℕ) → Exec ProviderError table.Store Text
unfolding find_path
get_new_derivation_path table wallet_id bip_version coin_type s =
    let (found, s') = get_all_by_wallet_id table wallet_id s in
    (
      elim found [
        | err e ↦ err (ProviderError.database e)
        | ok accounts ↦ finished (find_path accounts bip_version coin_type 10001 0)
      ],
      s',
    )
