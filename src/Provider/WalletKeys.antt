-- ===== src/Provider/WalletKeys.antt =====
-- rust/src/proton_wallet/provider/wallet_keys.rs: the wallet keys in memory, in the store and on the
-- server. The calls of one task are modelled with no other task in between.
pub mod Merge
pub mod Locked
pub mod Served
pub mod Unlocked
pub mod View
pub mod Backwards
pub mod Refined
use flutter_app.Common.{
  Option, none, some, List, [], ◌∷◌, find, is_empty, ok, err, Exec, pure, fail, lift, map_err,
  ◌>>=◌, ◌>>◌, if◌then◌else◌, Result, Text, text_eq, within,
}
use flutter_app.Common.HashMap.{HashMap, insert, values}
use flutter_app.Errors.{
  ProviderError, ApiError, WalletStorageError, WalletCryptoError, wallet_key_empty,
  wallet_key_not_found, wallet_storage, wallet_crypto,
}
use flutter_app.Api.{ApiWalletKey, ApiWalletData, WalletClient}
use flutter_app.Storage.WalletKey.{WalletKeyStore}
use flutter_app.Storage.UserKey.{LockedKey}
use flutter_app.Provider.UserKeys.{UserKeysProvider}

-- `LockedWalletKey` of rust/src/proton_wallet/crypto/wallet_key.rs
pub record LockedWalletKey : Type 0 where
  pub encrypted : Text
  pub signature : Text

-- `LockedWalletKey::from` of an `ApiWalletKey`
unfoldable pub locked : ApiWalletKey → LockedWalletKey
locked key = record { encrypted = key.wallet_key; signature = key.wallet_key_signature }

-- the keys of the wallets, in the order of the wallets
unfoldable pub wallet_keys_of : List ApiWalletData → List ApiWalletKey
wallet_keys_of [] = []
wallet_keys_of (w ∷ ws) = w.wallet_key ∷ wallet_keys_of ws

-- the `for` loops of `save_api_wallet_keys`
unfoldable pub insert_all : HashMap ApiWalletKey → List ApiWalletKey → HashMap ApiWalletKey
insert_all m [] = m
insert_all m (key ∷ keys) = insert_all (insert key.wallet_id key m) keys

-- The cache of the provider, and the world that its store and client live in.
pub record Keys (W : Type 0) : Type 0 where
  pub wallet_keys : Option (List ApiWalletKey)
  pub outside : W

-- `arrange` is the order in which a `HashMap` gives its values.
module _ {W : Type 0} (store : WalletKeyStore W) (client : WalletClient W)
    (arrange : List ApiWalletKey → List ApiWalletKey) where
  abbrev pub api_error : ApiError → ProviderError
  api_error e = ProviderError.andromeda_api e

  -- a call of the store or of the client
  abbrev pub outer :
      {E A : Type 0} → (E → ProviderError) → Exec E W A → Exec ProviderError (Keys W) A
  outer from' call = within from' (λ s. s.outside) (λ s w. record s { outside = w }) call

  unfoldable pub find_from_memory : Text → Keys W → Option ApiWalletKey
  find_from_memory wallet_id s = elim s.wallet_keys [
    | some keys ↦ find (λ key. text_eq key.wallet_id wallet_id) keys
    | none ↦ none
  ]

  abbrev set_memory : List ApiWalletKey → Exec ProviderError (Keys W) (Unit {0})
  set_memory keys s = (ok tt, record s { wallet_keys = some keys })

  unfoldable pub load_wallet_keys_from_store : Exec ProviderError (Keys W) (List ApiWalletKey)
  load_wallet_keys_from_store = do
    keys ← outer wallet_storage store.get_wallet_keys
    set_memory keys
    pure keys

  abbrev pub memory : Keys W → List ApiWalletKey
  memory s = elim s.wallet_keys [ some keys ↦ keys | none ↦ [] ]

  unfoldable pub save_api_wallet_keys : List ApiWalletKey → Exec ProviderError (Keys W) (Unit {0})
  unfolding insert_all values
  save_api_wallet_keys keys s =
      if is_empty keys
      then (err wallet_key_empty, s)
      else (let merged_map = insert_all (insert_all [] (memory s)) keys in
          outer wallet_storage (store.save_api_wallet_keys keys)
            (record s { wallet_keys = some (arrange (values merged_map)) }))

  unfoldable pub fetch_from_server : Exec ProviderError (Keys W) (Unit {0})
  unfolding wallet_keys_of save_api_wallet_keys
  fetch_from_server = do
    api_wallets ← outer api_error client.get_wallets
    save_api_wallet_keys (wallet_keys_of api_wallets)

  abbrev pub return_found :
      Option ApiWalletKey
      → Exec ProviderError (Keys W) LockedWalletKey
      → Exec ProviderError (Keys W) LockedWalletKey
  return_found (some key) rest s = (ok (locked key), s)
  return_found none rest s = rest s

  -- `if let Some(wallet_key) = self.find_from_memory(wallet_id).await { return Ok(wallet_key.into()); }`
  abbrev pub unless_in_memory :
      Text
      → Exec ProviderError (Keys W) LockedWalletKey
      → Exec ProviderError (Keys W) LockedWalletKey
  unless_in_memory wallet_id rest s = return_found (find_from_memory wallet_id s) rest s

  unfoldable pub get_locked_wallet_key : Text → Exec ProviderError (Keys W) LockedWalletKey
  unfolding find_from_memory load_wallet_keys_from_store fetch_from_server locked
  get_locked_wallet_key wallet_id = unless_in_memory wallet_id (
      load_wallet_keys_from_store
      >> unless_in_memory wallet_id
          (fetch_from_server >> unless_in_memory wallet_id (fail wallet_key_not_found)))

  unfoldable pub clear : Exec ProviderError (Keys W) (Unit {0})
  clear s = (ok tt, record s { wallet_keys = none })

  unfoldable pub reset : Exec ProviderError (Keys W) (Unit {0})
  unfolding clear fetch_from_server
  reset = do clear; fetch_from_server

  -- `unlock_user_keys` and `unlock_wallet_key` are the PGP calls of `LockedPrivateKeys::unlock_with`
  -- and `LockedWalletKey::unlock_with`, on the user keys of a passphrase that open.
  module _ {K U : Type 0} (user_keys_provider : UserKeysProvider W)
      (unlock_user_keys : List LockedKey → Text → List K)
      (unlock_wallet_key : LockedWalletKey → List K → Result WalletCryptoError U) where
    unfoldable pub get_unlocked_wallet_key : Text → Exec ProviderError (Keys W) U
    unfolding get_locked_wallet_key
    get_unlocked_wallet_key wallet_id = do
      locked_wallet_key ← get_locked_wallet_key wallet_id
      user_keys ← outer (λ e. e) user_keys_provider.get_user_keys
      key_secret ← outer (λ e. e) user_keys_provider.get_user_key_passphrase
      lift (
          map_err wallet_crypto
            (unlock_wallet_key locked_wallet_key (unlock_user_keys user_keys key_secret)))
