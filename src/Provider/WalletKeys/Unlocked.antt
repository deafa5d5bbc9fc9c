-- ===== src/Provider/WalletKeys/Unlocked.antt =====
-- What `get_unlocked_wallet_key` returns.
use flutter_app.Common.{
  continue-ok, map_err-ok, ◌≡◌, sym, ap, ◌∙◌, some, List, Result, ok, map_err, Exec, lift, ◌>>=◌,
  within, Text,
}
use flutter_app.Errors.{ProviderError, WalletCryptoError, wallet_crypto}
use flutter_app.Api.{ApiWalletKey, WalletClient}
use flutter_app.Storage.WalletKey.{WalletKeyStore}
use flutter_app.Storage.UserKey.{LockedKey}
use flutter_app.Provider.UserKeys.{UserKeysProvider}
use flutter_app.Provider.WalletKeys.{
  Keys, LockedWalletKey, locked, get_locked_wallet_key, get_unlocked_wallet_key, find_from_memory,
}
use flutter_app.Provider.WalletKeys.Locked.{get_locked_wallet_key-ok}

module _ {W K U : Type 0} (store : WalletKeyStore W) (client : WalletClient W)
    (arrange : List ApiWalletKey → List ApiWalletKey) (user_keys_provider : UserKeysProvider W)
    (unlock_user_keys : List LockedKey → Text → List K)
    (unlock_wallet_key : LockedWalletKey → List K → Result WalletCryptoError U) where
  abbrev unlock : (l : LockedWalletKey) → Exec ProviderError (Keys W) U
  unlock l =
      within (λ e. e) (λ s. s.outside) (λ s w. record s { outside = w })
        user_keys_provider.get_user_keys
      >>= λ user_keys.
          within (λ e. e) (λ s. s.outside) (λ s w. record s { outside = w })
            user_keys_provider.get_user_key_passphrase
          >>= λ key_secret.
              lift (
                map_err wallet_crypto (unlock_wallet_key l (unlock_user_keys user_keys key_secret)))

  -- the world after the locked key was found, and after the user keys were asked for
  abbrev pub after_locked : Text → Keys W → W
  after_locked wallet_id s = (get_locked_wallet_key store client arrange wallet_id s).1.outside

  abbrev pub after_keys : Text → Keys W → W
  after_keys wallet_id s = (user_keys_provider.get_user_keys (after_locked wallet_id s)).1

  -- An unlocked key that is returned is what the PGP calls make of the locked key of the wallet that
  -- was asked for, which is in memory after the search for it, with the user keys and the passphrase
  -- that the user key provider gave, in this order, after that search.
  pub get_unlocked_wallet_key-ok :
      (wallet_id : Text) (s : Keys W) (u : U)
      → (get_unlocked_wallet_key store client arrange user_keys_provider unlock_user_keys
          unlock_wallet_key wallet_id s).0
        ≡ ok u
      → (key : ApiWalletKey) × (user_keys : List LockedKey) × (key_secret : Text) × (key.wallet_id
          ≡ wallet_id)
        × (find_from_memory store client arrange wallet_id
              (get_locked_wallet_key store client arrange wallet_id s).1
            ≡ some key)
        × ((user_keys_provider.get_user_keys (after_locked wallet_id s)).0 ≡ ok user_keys)
        × ((user_keys_provider.get_user_key_passphrase (after_keys wallet_id s)).0 ≡ ok key_secret)
        × (unlock_wallet_key (locked key) (unlock_user_keys user_keys key_secret) ≡ ok u)
  unfolding get_unlocked_wallet_key
  get_unlocked_wallet_key-ok wallet_id s u h =
      let (l, got, h1) = continue-ok _ unlock _ u h in
      let (user_keys, keys, h2) = continue-ok _ _ _ u h1 in
      let (key_secret, secret, h3) = continue-ok _ _ _ u h2 in
      let (key, found, own, same) =
        get_locked_wallet_key-ok store client arrange wallet_id s l got in
      (
        key,
        user_keys,
        key_secret,
        own,
        found,
        map_err-ok (λ e. e) (user_keys_provider.get_user_keys (after_locked wallet_id s)).0
            user_keys keys,
        map_err-ok (λ e. e) (user_keys_provider.get_user_key_passphrase (after_keys wallet_id s)).0
            key_secret secret,
        ap (λ x. unlock_wallet_key x (unlock_user_keys user_keys key_secret)) (sym same)
            ∙ map_err-ok ProviderError.wallet_crypto
                (unlock_wallet_key l (unlock_user_keys user_keys key_secret)) u h3,
      )
