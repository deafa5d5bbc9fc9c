-- ===== src/Bridge/Transition.antt =====
-- rust/src/api/proton_wallet/features/transition_layer.rs: what the app asks of the PGP keys. Every
-- call holds the global lock of the PGP library, so the calls run one after the other.
pub mod Messages
pub mod WalletKey
pub mod Signature
pub mod Keys
use flutter_app.Common.{
  ℕ, Bool, Option, none, some, List, [], ◌∷◌, first, Result, ok, err, Exec, map_err, and_then,
  unwrap_or, Text, codes,
}
use flutter_app.Errors.{WalletCryptoError, no_unlocked_user_key_found}
use flutter_app.Api.{ApiWalletKey}
use flutter_app.Bridge.{
  BridgeError, Debug, from_wallet_crypto, from_features, from_crypto, from_utf8_error,
}
use flutter_app.Storage.UserKey.{
  ProtonUserKey, LockedKey, user_key_conversion_from_key, user_key_conversion_from_keys,
}
use flutter_app.Storage.AddressKey.{
  ProtonAddressKey, address_key_conversion, address_key_conversions,
}
use flutter_app.Crypto.{Bytes, Base64, Utf8}
use flutter_app.Crypto.Label.{new_from_str, encrypted_to_base64}
use flutter_app.Crypto.WalletKey.{UnlockedWalletKey, restore_base64}
use flutter_app.Crypto.Pgp.{
  PgpProvider, UnlockedPrivateKeys, from_keys, from_primary, from_user_keys, unlock_with,
  add_armored_keys, add_address_keys,
}
use flutter_app.Crypto.Message
use flutter_app.Crypto.Message.{
  EncryptedMessage, as_armored, legacy_new_from_base64, legacy_decrypt_with, verify,
}
use flutter_app.Crypto.TransactionId
use flutter_app.Crypto.TransactionId.{from_text, as_utf8_string, hmac_hash_with}
use flutter_app.Crypto.WalletLock
use flutter_app.Provider.WalletKeys.{LockedWalletKey, locked}

pub record FrbTlEncryptedTransactionId : Type 0 where
  pub encrypted_transaction_id : Text
  pub index : ℕ

pub record FrbTlTransactionId : Type 0 where
  pub transaction_id : Text
  pub index : ℕ

pub record FrbSenderBody : Type 0 where
  pub to_list : Text
  pub sender : Text
  pub body : Text

-- `Iterator::collect` into a `Result`
abbrev pub collect : {E A : Type 0} → List (Result E A) → Result E (List A)
collect [] = ok []
collect (r ∷ rs) = and_then r (λ a. and_then (collect rs) (λ rest. ok (a ∷ rest)))

abbrev pub map_all : {A B : Type 0} → (A → B) → List A → List B
map_all f [] = []
map_all f (x ∷ xs) = f x ∷ map_all f xs

module _ {S P W : Type 0} (pgp : PgpProvider S P W) (utf : Utf8) (debug : Debug) where
  -- the keys of the user and of the addresses, unlocked with the password
  unfoldable pub unlocked :
      List ProtonUserKey → List ProtonAddressKey → Text → UnlockedPrivateKeys S P
  unfolding from_keys unlock_with user_key_conversion_from_keys address_key_conversions
  unlocked user_keys addr_keys user_key_password =
      unlock_with pgp
        (from_keys (user_key_conversion_from_keys user_keys) (address_key_conversions addr_keys))
        (utf.as_bytes user_key_password)

  -- the id in the clear, empty where it cannot be decrypted or read
  unfoldable pub decrypted_id : UnlockedPrivateKeys S P → Text → Text
  unfolding from_text TransactionId.decrypt_with TransactionId.default as_utf8_string
  decrypted_id keys enc_transaction_id =
      let id =
        unwrap_or (TransactionId.decrypt_with pgp (from_text utf enc_transaction_id) keys)
          TransactionId.default in
      unwrap_or (as_utf8_string utf id) []

  unfoldable pub decrypt_transaction_ids :
      List ProtonUserKey
      → List ProtonAddressKey
      → (user_key_password : Text) → List FrbTlEncryptedTransactionId
      → Result BridgeError (List FrbTlTransactionId)
  unfolding unlocked decrypted_id
  decrypt_transaction_ids user_keys addr_keys user_key_password enc_transaction_ids =
      let keys = unlocked user_keys addr_keys user_key_password in
      collect (
        map_all
          (λ (t : FrbTlEncryptedTransactionId). ok (record {
            transaction_id = decrypted_id keys t.encrypted_transaction_id;
            index = t.index;
          }))
          enc_transaction_ids)

  unfoldable pub decrypt_transaction_id :
      List ProtonUserKey
      → List ProtonAddressKey
      → (user_key_password enc_transaction_id : Text) → Result BridgeError Text
  unfolding unlocked decrypted_id
  decrypt_transaction_id user_keys addr_keys user_key_password enc_transaction_id =
      ok (decrypted_id (unlocked user_keys addr_keys user_key_password) enc_transaction_id)

  -- a part of a message in the clear, empty where there is none or it cannot be decrypted or read
  unfoldable pub decrypted_part : UnlockedPrivateKeys S P → Option Text → Text
  unfolding from_text TransactionId.decrypt_with as_utf8_string
  decrypted_part keys none = []
  decrypted_part keys (some enc_message) =
      unwrap_or
        (and_then (TransactionId.decrypt_with pgp (from_text utf enc_message) keys)
          (λ id. as_utf8_string utf id))
        []

  unfoldable pub decrypt_messages :
      List ProtonUserKey
      → List ProtonAddressKey
      → (user_key_password : Text) → (enc_to_list enc_sender enc_body : Option Text)
      → Result BridgeError FrbSenderBody
  unfolding unlocked decrypted_part
  decrypt_messages user_keys addr_keys user_key_password enc_to_list enc_sender enc_body =
      let keys = unlocked user_keys addr_keys user_key_password in
      ok (record {
        to_list = decrypted_part keys enc_to_list;
        sender = decrypted_part keys enc_sender;
        body = decrypted_part keys enc_body;
      })

  abbrev signer :
      Option (List ProtonUserKey)
      → Option (List ProtonAddressKey)
      → Option Text
      → Option (UnlockedPrivateKeys S P)
  signer (some user_keys) (some addr_keys) (some password) =
      some (unlocked user_keys addr_keys password)
  signer user_keys addr_keys password = none

  -- the message encrypted to keys that were added, or the error of adding them
  unfoldable pub encrypted_to :
      Result WalletCryptoError (Unit {0}) × List P
      → (message : Text) → Option (UnlockedPrivateKeys S P)
      → Exec BridgeError W Text
  unfolding new_from_str Message.encrypt_with as_armored from_wallet_crypto
  encrypted_to (err e, encryptor_keys) message signing_keys w =
      (err (from_wallet_crypto debug e), w)
  encrypted_to (ok _, encryptor_keys) message signing_keys w =
      let (r, w') =
        Message.encrypt_with pgp (new_from_str utf message) encryptor_keys signing_keys w in
      (map_err (from_wallet_crypto debug) (and_then r (as_armored utf)), w')

  unfoldable pub encrypt_messages_with_keys :
      (private_keys : List Text)
      → (message : Text) → Option (List ProtonUserKey)
      → Option (List ProtonAddressKey)
      → (user_key_password : Option Text) → Exec BridgeError W Text
  unfolding encrypted_to unlocked add_armored_keys
  encrypt_messages_with_keys private_keys message user_keys addr_keys user_key_password =
      encrypted_to (add_armored_keys pgp private_keys []) message
        (signer user_keys addr_keys user_key_password)

  unfoldable pub encrypt_messages_with_userkey :
      ProtonUserKey → (message : Text) → Exec BridgeError W Text
  unfolding encrypted_to add_address_keys user_key_conversion_from_keys
  encrypt_messages_with_userkey user_key message =
      encrypted_to (add_address_keys pgp (user_key_conversion_from_keys (user_key ∷ [])) []) message
        none
