-- ===== src/Provider/Mnemonic.antt =====
-- rust/src/proton_wallet/provider/wallet_mnemonic.rs and wallet_name.rs: the mnemonic and the name of
-- a wallet in the clear, from the providers of wallets, wallet keys and user keys.
pub mod Clear
use flutter_app.Common.{
  ℕ, Bool, true, false, Option, none, some, List, Result, ok, err, Exec, map_err, and_then, lift,
  pure, ◌>>=◌, ◌==◌, Text, within, if◌then◌else◌,
}
use flutter_app.Errors.{ProviderError, WalletCryptoError, wallet_crypto, decode}
use flutter_app.Db.Wallet.{WalletModel}
use flutter_app.Storage.UserKey.{LockedKey}
use flutter_app.Provider.UserKeys.{UserKeysProvider}
use flutter_app.Crypto.{Bytes, AesGcm, Base64, Utf8}
use flutter_app.Crypto.WalletKey.{UnlockedWalletKey}
use flutter_app.Crypto.Label.{
  Binary, EncryptedBinary, as_utf8_string, encrypted_new_from_base64, decrypt_with,
}

-- `WalletDataProvider` and `WalletKeysProvider`, as far as these providers call them, in a world `W`
-- that holds their states
pub record WalletDataProvider (F W : Type 0) : Type 0 where
  pub get_wallet : Text → Exec ProviderError W (WalletModel F)
  pub get_wallet_mnemonic : Text → Exec ProviderError W Text

pub record WalletKeysProvider (W : Type 0) : Type 0 where
  pub get_unlocked_wallet_key : Text → Exec ProviderError W UnlockedWalletKey

-- `legacy == Some(1)`
abbrev pub is_legacy : Option ℕ → Bool
is_legacy none = false
is_legacy (some n) = n == 1

abbrev pub crypto : {W A : Type 0} → Result WalletCryptoError A → Exec ProviderError W A
crypto r = lift (map_err wallet_crypto r)

module _ {F W R : Type 0} (wallets : WalletDataProvider F W) (keys : WalletKeysProvider W)
    (aes : AesGcm R) (base64 : Base64) where
  -- `decrypt_legacy` stands for the PGP calls that unlock the user keys with the passphrase and
  -- decrypt the bytes.
  module _ (user_keys_provider : UserKeysProvider W)
      (decrypt_legacy : List LockedKey
        → Text
        → Bytes
        → Result WalletCryptoError EncryptedBinary) where
    unfoldable pub legacy_mnemonic : Text → Exec ProviderError W EncryptedBinary
    legacy_mnemonic wallet_mnemonic = do
      user_keys ← user_keys_provider.get_user_keys
      key_secret ← user_keys_provider.get_user_key_passphrase
      crypto (
          and_then (map_err decode (base64.decode wallet_mnemonic))
            (λ bytes. decrypt_legacy user_keys key_secret bytes))

    unfoldable pub get_wallet_mnemonic : Text → Exec ProviderError W Binary
    unfolding legacy_mnemonic encrypted_new_from_base64 decrypt_with
    get_wallet_mnemonic wallet_id = do
      wallet_data ← wallets.get_wallet wallet_id
      wallet_mnemonic ← wallets.get_wallet_mnemonic wallet_id
      unlocked_wallet_key ← keys.get_unlocked_wallet_key wallet_id
      encrypted_mnemonic ←
          (if is_legacy wallet_data.legacy
            then legacy_mnemonic wallet_mnemonic
            else crypto (encrypted_new_from_base64 base64 wallet_mnemonic))
      crypto (decrypt_with aes encrypted_mnemonic unlocked_wallet_key)

  unfoldable pub get_wallet_name : Utf8 → Text → Exec ProviderError W Text
  unfolding encrypted_new_from_base64 decrypt_with as_utf8_string
  get_wallet_name utf wallet_id = do
    wallet_data ← wallets.get_wallet wallet_id
    unlocked_wallet_key ← keys.get_unlocked_wallet_key wallet_id
    encrypted_name ← crypto (encrypted_new_from_base64 base64 wallet_data.name)
    clear_name ← crypto (decrypt_with aes encrypted_name unlocked_wallet_key)
    crypto (as_utf8_string utf clear_name)
