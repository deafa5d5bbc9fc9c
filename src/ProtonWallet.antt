-- ===== src/ProtonWallet.antt =====
-- rust/src/proton_wallet/wallet.rs and rust/src/api/proton_wallet/wallet.rs: the object of one account,
-- its database, its stores, and the features that are put together from the providers. A panic is
-- `none`.
pub mod Seed
use flutter_app.Common.{
  ℕ, Option, none, some, List, [], Result, ok, err, Exec, map_err, within, Text,
}
use flutter_app.Errors.{
  ApiError, DatabaseError, FeaturesError, ProviderError, WalletCryptoError, WalletStorageError,
}
use flutter_app.Api.{ApiWalletKey, ApiWalletData, WalletClient}
use flutter_app.Schema.{Connection}
use flutter_app.AppDatabase
use flutter_app.Db.Table.{Table}
use flutter_app.Db.Wallet.{WalletModel}
use flutter_app.Db.UserKey.{ProtonUserKeyModel}
use flutter_app.Storage.UserKey.{LockedKey, ProtonUsersClient, UserKeyStore}
use flutter_app.Storage.WalletKey.{WalletKeyStore}
use flutter_app.Storage.WalletMnemonic.{WalletMnemonicStore}
use flutter_app.Crypto.{Bytes, AesGcm, Base64, Utf8}
use flutter_app.Crypto.Label.{EncryptedBinary}
use flutter_app.Crypto.WalletKey.{UnlockedWalletKey}
use flutter_app.Provider.UserKeys.{UserKeys, UserKeysProvider, provider}
use flutter_app.Provider.WalletKeys
use flutter_app.Provider.WalletKeys.{Keys, LockedWalletKey}
use flutter_app.Provider.Wallet
use flutter_app.Provider.Wallet.{Wallets}
use flutter_app.Provider.Mnemonic
use flutter_app.Provider.Mnemonic.{WalletDataProvider, WalletKeysProvider}
use flutter_app.Provider.Auth.{AuthClient, SrpClient}
use flutter_app.Features.PasswordScope
use flutter_app.Features.PasswordScope.{PasswordScope, MnemonicResult, unlock_password_change}

-- `ProtonWallet`, less its database, whose connection is in the state
pub record ProtonWallet (W : Type 0) : Type 0 where
  pub user_id : Text
  pub user_key_store : UserKeyStore W
  pub wallet_key_store : WalletKeyStore W
  pub wallet_mnemonic_store : WalletMnemonicStore W

unfoldable pub new :
    {W : Type 0} → UserKeyStore W → WalletKeyStore W → WalletMnemonicStore W → ProtonWallet W
new user_key_store wallet_key_store wallet_mnemonic_store = record {
  user_id = [];
  user_key_store = user_key_store;
  wallet_key_store = wallet_key_store;
  wallet_mnemonic_store = wallet_mnemonic_store;
}

-- `Result::unwrap` before what follows
abbrev unwrap_then : {E A S B : Type 0} → Result E A × S → (S → Option B × S) → Option B × S
unwrap_then (ok a, s) f = f s
unwrap_then (err e, s) f = (none, s)

-- `FrbProtonWallet::new`, on a connection whose state is `D`
unfoldable pub open_wallet :
    {D W : Type 0}
    → Connection D
    → UserKeyStore W
    → WalletKeyStore W
    → WalletMnemonicStore W
    → D
    → Option (ProtonWallet W) × D
unfolding AppDatabase.new AppDatabase.init AppDatabase.build_database new
open_wallet conn user_key_store wallet_key_store wallet_mnemonic_store d =
    let (initialised, db) = AppDatabase.init conn (AppDatabase.new conn) in
    unwrap_then (initialised, d)
      (λ d.
        unwrap_then (AppDatabase.build_database conn db 1 d)
          (λ d. (some (new user_key_store wallet_key_store wallet_mnemonic_store), d)))

-- The tables of wallets and of user keys, the cache of the wallet keys, and the world outside.
pub record Data (S U W : Type 0) : Type 0 where
  pub wallets : S
  pub user_keys : U
  pub wallet_keys : Option (List ApiWalletKey)
  pub outside : W

-- The clients and ciphers that the features are built with; `now` is the time of a conversion, and
-- the last three are the PGP calls.
pub record Parts (F W R : Type 0) : Type 0 where
  pub auth_client : AuthClient W
  pub users_client : ProtonUsersClient W
  pub wallet_client : WalletClient W
  pub srp : SrpClient
  pub aes : AesGcm R
  pub base64 : Base64
  pub utf : Utf8
  pub zero_balance : F
  pub clock : ApiWalletData → ℕ
  pub arrange : List ApiWalletKey → List ApiWalletKey
  pub unlock_user_keys : List LockedKey → Text → List Text
  pub unlock_wallet_key : LockedWalletKey → List Text → Result WalletCryptoError UnlockedWalletKey
  pub decrypt_legacy : List LockedKey → Text → Bytes → Result WalletCryptoError EncryptedBinary

module _ {F W R : Type 0} (wallet_table : Table (WalletModel F))
    (user_key_table : Table ProtonUserKeyModel) (parts : Parts F W R)
    (wallet : ProtonWallet W) where
  abbrev pub State : Type 0
  State = Data wallet_table.Store user_key_table.Store W

  -- calls of the components in the whole state
  abbrev pub in_outside : {E A : Type 0} → Exec E W A → Exec E State A
  in_outside call = within (λ e. e) (λ s. s.outside) (λ s w. record s { outside = w }) call

  abbrev pub in_user_keys :
      {A : Type 0}
      → Exec ProviderError (UserKeys user_key_table.Store W) A
      → Exec ProviderError State A
  in_user_keys call =
      within (λ e. e) (λ s. record { database = s.user_keys; outside = s.outside })
        (λ s k. record s { user_keys = k.database; outside = k.outside }) call

  abbrev pub in_wallets :
      {A : Type 0}
      → Exec ProviderError (Wallets wallet_table.Store W) A
      → Exec ProviderError State A
  in_wallets call =
      within (λ e. e) (λ s. record { database = s.wallets; outside = s.outside })
        (λ s k. record s { wallets = k.database; outside = k.outside }) call

  -- The world outside the cache of wallet keys is that of the user keys.
  abbrev beyond : {E A : Type 0} → Exec E W A → Exec E (UserKeys user_key_table.Store W) A
  beyond call = within (λ e. e) (λ s. s.outside) (λ s w. record s { outside = w }) call

  abbrev pub in_wallet_keys :
      {A : Type 0}
      → Exec ProviderError (Keys (UserKeys user_key_table.Store W)) A
      → Exec ProviderError State A
  in_wallet_keys call =
      within (λ e. e)
        (λ s. record {
          wallet_keys = s.wallet_keys;
          outside = record { database = s.user_keys; outside = s.outside };
        })
        (λ s k. record s {
          wallet_keys = k.wallet_keys;
          user_keys = k.outside.database;
          outside = k.outside.outside;
        })
        call

  -- the providers that `get_backup_mnemonic` makes
  abbrev pub user_keys_provider : UserKeysProvider (UserKeys user_key_table.Store W)
  user_keys_provider =
      provider wallet.user_id user_key_table wallet.user_key_store parts.users_client

  unfoldable pub wallet_keys_provider : WalletKeysProvider State
  unfolding WalletKeys.get_unlocked_wallet_key
  wallet_keys_provider = record {
    get_unlocked_wallet_key = λ wallet_id. in_wallet_keys (
        WalletKeys.get_unlocked_wallet_key
          (record {
            get_wallet_keys = beyond wallet.wallet_key_store.get_wallet_keys;
            save_api_wallet_keys =
                λ keys. beyond (wallet.wallet_key_store.save_api_wallet_keys keys);
          })
          (record { get_wallets = beyond parts.wallet_client.get_wallets }) parts.arrange
          user_keys_provider parts.unlock_user_keys parts.unlock_wallet_key wallet_id);
  }

  unfoldable pub wallet_data_provider : WalletDataProvider F State
  unfolding Wallet.get_wallet Wallet.get_wallet_mnemonic
  wallet_data_provider = record {
    get_wallet = λ wallet_id. in_wallets (
        Wallet.get_wallet parts.zero_balance parts.clock wallet_table wallet.wallet_mnemonic_store
          parts.wallet_client wallet_id);
    get_wallet_mnemonic = λ wallet_id. in_wallets (
        Wallet.get_wallet_mnemonic parts.zero_balance parts.clock wallet_table
          wallet.wallet_mnemonic_store parts.wallet_client wallet_id);
  }

  abbrev pub users : UserKeysProvider State
  users = record {
    get_user_keys = in_user_keys user_keys_provider.get_user_keys;
    get_user_key_passphrase = in_user_keys user_keys_provider.get_user_key_passphrase;
  }

  unfoldable pub scope : PasswordScope State
  unfolding unlock_password_change
  scope = record {
    unlock = λ login_password twofa.
        in_outside (unlock_password_change parts.auth_client parts.srp login_password twofa);
  }

  -- `view_seed` of the feature that `get_backup_mnemonic` puts together
  unfoldable pub view_seed :
      (wallet_id login_password twofa : Text) → Exec FeaturesError State MnemonicResult
  unfolding PasswordScope.view_seed Mnemonic.get_wallet_mnemonic Mnemonic.get_wallet_name
      wallet_keys_provider wallet_data_provider scope
  view_seed wallet_id login_password twofa =
      PasswordScope.view_seed scope parts.utf
        (Mnemonic.get_wallet_mnemonic wallet_data_provider wallet_keys_provider parts.aes
          parts.base64 users parts.decrypt_legacy)
        (Mnemonic.get_wallet_name wallet_data_provider wallet_keys_provider parts.aes parts.base64
          parts.utf)
        wallet_id login_password twofa
