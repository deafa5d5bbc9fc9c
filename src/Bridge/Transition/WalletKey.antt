-- ===== src/Bridge/Transition/WalletKey.antt =====
-- rust/src/api/proton_wallet/features/transition_layer.rs: the calls that encrypt, decrypt and use a
-- wallet key.
use flutter_app.Common.{
  Option, none, some, List, first, Result, ok, err, Exec, map_err, and_then, Text,
}
use flutter_app.Errors.{WalletCryptoError, no_unlocked_user_key_found}
use flutter_app.Api.{ApiWalletKey}
use flutter_app.Bridge.{BridgeError, Debug, from_wallet_crypto, from_features}
use flutter_app.Storage.UserKey.{
  ProtonUserKey, user_key_conversion_from_key, user_key_conversion_from_keys,
}
use flutter_app.Crypto.{Bytes, Base64, Utf8}
use flutter_app.Crypto.Label.{encrypted_to_base64}
use flutter_app.Crypto.WalletKey.{UnlockedWalletKey, restore_base64}
use flutter_app.Crypto.Pgp.{
  PgpProvider, UnlockedPrivateKeys, from_primary, from_user_keys, unlock_with,
}
use flutter_app.Crypto.Message.{legacy_new_from_base64, legacy_decrypt_with}
use flutter_app.Crypto.TransactionId
use flutter_app.Crypto.TransactionId.{from_text, as_utf8_string, hmac_hash_with}
use flutter_app.Crypto.WalletLock
use flutter_app.Provider.WalletKeys.{LockedWalletKey, locked}

module _ {S P W : Type 0} (pgp : PgpProvider S P W) (utf : Utf8) (debug : Debug) where
  -- the keys of one user key, unlocked with its passphrase
  unfoldable pub unlocked_primary : ProtonUserKey → Text → UnlockedPrivateKeys S P
  unfolding from_primary unlock_with user_key_conversion_from_key
  unlocked_primary user_key user_key_passphrase =
      unlock_with pgp (from_primary (user_key_conversion_from_key user_key))
        (utf.as_bytes user_key_passphrase)

  abbrev pub bridged :
      Option (Result WalletCryptoError UnlockedWalletKey)
      → Option (Result BridgeError UnlockedWalletKey)
  bridged none = none
  bridged (some r) = some (map_err (from_wallet_crypto debug) r)

  -- `none` is the panic of a key of a wrong length
  unfoldable pub decrypt_wallet_key :
      ApiWalletKey
      → ProtonUserKey
      → (user_key_passphrase : Text) → Option (Result BridgeError UnlockedWalletKey)
  unfolding unlocked_primary locked WalletLock.unlock_with
  decrypt_wallet_key wallet_key user_key user_key_passphrase = bridged (
      WalletLock.unlock_with pgp utf (locked wallet_key)
        (unlocked_primary user_key user_key_passphrase).user_keys)

  unfoldable pub decrypt_wallet_key_legacy :
      Base64
      → (encrypted_mnemonic_text : Text) → List ProtonUserKey
      → (user_key_password : Text) → Result BridgeError Text
  unfolding legacy_new_from_base64 from_user_keys user_key_conversion_from_keys unlock_with
      legacy_decrypt_with encrypted_to_base64
  decrypt_wallet_key_legacy base64 encrypted_mnemonic_text user_keys user_key_password =
      map_err (from_wallet_crypto debug) (
        and_then (legacy_new_from_base64 base64 encrypted_mnemonic_text) (λ mnemonic.
          and_then
            (legacy_decrypt_with pgp mnemonic (
              unlock_with pgp (from_user_keys (user_key_conversion_from_keys user_keys))
                (utf.as_bytes user_key_password)))
            (λ encrypted. ok (encrypted_to_base64 base64 encrypted))))

  unfoldable pub encrypt_wallet_key :
      UnlockedWalletKey
      → ProtonUserKey
      → (user_key_passphrase : Text) → Exec BridgeError W LockedWalletKey
  unfolding unlocked_primary WalletLock.lock_with
  encrypt_wallet_key wallet_key user_key user_key_passphrase w =
      elim (first (unlocked_primary user_key user_key_passphrase).user_keys) [
        | none ↦ (err (from_features debug no_unlocked_user_key_found), w)
        | some first_key ↦
            let (r, w') = WalletLock.lock_with pgp utf wallet_key first_key w in
            (map_err (from_wallet_crypto debug) r, w')
      ]

-- HMAC-SHA256 is a parameter.
unfoldable pub get_hmac_hashed_string :
    (hmac : Bytes → Bytes → Result Text Bytes)
    → Utf8
    → Base64
    → Debug
    → (base64_secure_key transaction_id : Text) → Result BridgeError Text
unfolding restore_base64 hmac_hash_with TransactionId.new_from_str from_wallet_crypto
get_hmac_hashed_string hmac utf base64 debug base64_secure_key transaction_id =
    map_err (from_wallet_crypto debug) (
      and_then (restore_base64 base64 base64_secure_key) (λ wallet_key.
        hmac_hash_with hmac base64 (TransactionId.new_from_str utf transaction_id) wallet_key))
