-- ===== src/Storage/WalletKey.antt =====
-- rust/src/proton_wallet/storage/wallet_key.rs: the wallet keys kept by the app, which
-- the store reaches through two callbacks.
use flutter_app.Common.{Option, none, some, List, ok, err, Exec, codes}
use flutter_app.Errors.{WalletStorageError, callback_not_set}
use flutter_app.Api.{ApiWalletKey}

-- `WalletKeyStore`
pub record WalletKeyStore (W : Type 0) : Type 0 where
  pub get_wallet_keys : Exec WalletStorageError W (List ApiWalletKey)
  pub save_api_wallet_keys : List ApiWalletKey → Exec WalletStorageError W (Unit {0})

-- `WalletKeySecureStore`: the two callbacks into the app, where they are set
pub record WalletKeySecureStore (W : Type 0) : Type 0 where
  pub get_wallet_keys_callback : Option (W → List ApiWalletKey × W)
  pub save_wallet_keys_callback : Option (List ApiWalletKey → W → W)

module _ {W : Type 0} where
  unfoldable pub new : WalletKeySecureStore W
  new = record { get_wallet_keys_callback = none; save_wallet_keys_callback = none }

  unfoldable pub set_get_wallet_keys_callback :
      WalletKeySecureStore W → (W → List ApiWalletKey × W) → WalletKeySecureStore W
  set_get_wallet_keys_callback s callback = record s { get_wallet_keys_callback = some callback }

  unfoldable pub set_save_wallet_keys_callback :
      WalletKeySecureStore W → (List ApiWalletKey → W → W) → WalletKeySecureStore W
  set_save_wallet_keys_callback s callback = record s { save_wallet_keys_callback = some callback }

  unfoldable pub clear : WalletKeySecureStore W → WalletKeySecureStore W
  clear s = record s { get_wallet_keys_callback = none; save_wallet_keys_callback = none }

  unfoldable pub get_wallet_keys :
      WalletKeySecureStore W → Exec WalletStorageError W (List ApiWalletKey)
  get_wallet_keys s w = elim s.get_wallet_keys_callback [
    | some callback ↦ let (r, w') = callback w in (ok r, w')
    | none ↦ (err (callback_not_set (codes "Get wallet key")), w)
  ]

  unfoldable pub save_api_wallet_keys :
      WalletKeySecureStore W → List ApiWalletKey → Exec WalletStorageError W (Unit {0})
  save_api_wallet_keys s items w = elim s.save_wallet_keys_callback [
    | some callback ↦ (ok tt, callback items w)
    | none ↦ (err (callback_not_set (codes "Save wallet key")), w)
  ]

  -- the store as the providers see it
  abbrev pub store : WalletKeySecureStore W → WalletKeyStore W
  store s = record {
    get_wallet_keys = get_wallet_keys s;
    save_api_wallet_keys = save_api_wallet_keys s;
  }
