-- ===== src/Storage/WalletMnemonic.antt =====
-- rust/src/proton_wallet/storage/wallet_mnemonic.rs and wallet_mnemonic_ext.rs: the mnemonics kept by the app, which
-- the store reaches through two callbacks.
use flutter_app.Common.{Option, none, some, List, ok, err, Exec, codes, Text, [], ◌∷◌}
use flutter_app.Errors.{WalletStorageError, callback_not_set}
use flutter_app.Api.{ApiWalletData}

-- `MnemonicData`
pub record MnemonicData : Type 0 where
  pub wallet_id : Text
  pub mnemonic : Option Text

-- `MnemonicData::from` of an `ApiWalletData`
unfoldable pub mnemonic_data : ApiWalletData → MnemonicData
mnemonic_data value = record { wallet_id = value.wallet.id; mnemonic = value.wallet.mnemonic }

-- `Vec::from` of a `WalletDatasWrap`
unfoldable pub mnemonic_datas : List ApiWalletData → List MnemonicData
unfolding mnemonic_data
mnemonic_datas [] = []
mnemonic_datas (w ∷ ws) = mnemonic_data w ∷ mnemonic_datas ws

-- `WalletMnemonicStore`
pub record WalletMnemonicStore (W : Type 0) : Type 0 where
  pub get_wallet_mnemonics : Exec WalletStorageError W (List MnemonicData)
  pub save_api_wallet_mnemonics : List MnemonicData → Exec WalletStorageError W (Unit {0})

-- `WalletMnemonicSecureStore`: the two callbacks into the app, where they are set
pub record WalletMnemonicSecureStore (W : Type 0) : Type 0 where
  pub get_wallet_mnemonics_callback : Option (W → List MnemonicData × W)
  pub save_wallet_mnemonics_callback : Option (List MnemonicData → W → W)

module _ {W : Type 0} where
  unfoldable pub new : WalletMnemonicSecureStore W
  new = record { get_wallet_mnemonics_callback = none; save_wallet_mnemonics_callback = none }

  unfoldable pub set_get_wallet_mnemonic_callback :
      WalletMnemonicSecureStore W → (W → List MnemonicData × W) → WalletMnemonicSecureStore W
  set_get_wallet_mnemonic_callback s callback = record s {
    get_wallet_mnemonics_callback = some callback;
  }

  unfoldable pub set_save_wallet_mnemonic_callback :
      WalletMnemonicSecureStore W → (List MnemonicData → W → W) → WalletMnemonicSecureStore W
  set_save_wallet_mnemonic_callback s callback = record s {
    save_wallet_mnemonics_callback = some callback;
  }

  unfoldable pub clear : WalletMnemonicSecureStore W → WalletMnemonicSecureStore W
  clear s = record s { get_wallet_mnemonics_callback = none; save_wallet_mnemonics_callback = none }

  unfoldable pub get_wallet_mnemonics :
      WalletMnemonicSecureStore W → Exec WalletStorageError W (List MnemonicData)
  get_wallet_mnemonics s w = elim s.get_wallet_mnemonics_callback [
    | some callback ↦ let (r, w') = callback w in (ok r, w')
    | none ↦ (err (callback_not_set (codes "Get wallet mnemonic")), w)
  ]

  unfoldable pub save_api_wallet_mnemonics :
      WalletMnemonicSecureStore W → List MnemonicData → Exec WalletStorageError W (Unit {0})
  save_api_wallet_mnemonics s items w = elim s.save_wallet_mnemonics_callback [
    | some callback ↦ (ok tt, callback items w)
    | none ↦ (err (callback_not_set (codes "Save wallet mnemonic")), w)
  ]

  -- the store as the providers see it
  abbrev pub store : WalletMnemonicSecureStore W → WalletMnemonicStore W
  store s = record {
    get_wallet_mnemonics = get_wallet_mnemonics s;
    save_api_wallet_mnemonics = save_api_wallet_mnemonics s;
  }
