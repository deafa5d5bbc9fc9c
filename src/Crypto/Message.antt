-- ===== src/Crypto/Message.antt =====
-- rust/src/proton_wallet/crypto/message.rs, wallet_message.rs, mnemonic_legacy.rs and
-- wallet_bitcoin_address.rs: what is encrypted or signed with PGP keys.
use flutter_app.Common.{
  Bool, true, false, Option, none, some, List, Result, ok, err, Exec, map_err, and_then, Text,
}
use flutter_app.Errors.{WalletCryptoError, crypto_error, decode}
use flutter_app.Crypto.{Bytes, Base64, Utf8}
use flutter_app.Crypto.Label.{Binary, EncryptedBinary}
use flutter_app.Crypto.Label
use flutter_app.Crypto.Pgp.{
  PgpProvider, UnlockedKey, UnlockedPrivateKeys, DataEncoding, armor, bytes,
}

-- `EncryptedMessage`
pub record EncryptedMessage : Type 0 where
  pub encrypted : Bytes

-- `EncryptedMessage::as_armored`
unfoldable pub as_armored : Utf8 → EncryptedMessage → Result WalletCryptoError Text
unfolding Label.as_utf8_string
as_armored utf message = Label.as_utf8_string utf (record { bytes = message.encrypted })

-- `EncryptedWalletMnemonicLegacy`
pub record EncryptedWalletMnemonicLegacy : Type 0 where
  pub encoding : DataEncoding
  pub encrypted : Bytes

abbrev legacy : Bytes → EncryptedWalletMnemonicLegacy
legacy encrypted = record { encoding = bytes; encrypted = encrypted }

-- `EncryptedWalletMnemonicLegacy::new_from_base64`
unfoldable pub legacy_new_from_base64 :
    Base64 → Text → Result WalletCryptoError EncryptedWalletMnemonicLegacy
legacy_new_from_base64 base64 text =
    and_then (map_err decode (base64.decode text)) (λ encrypted. ok (legacy encrypted))

module _ {S P W : Type 0} (pgp : PgpProvider S P W) where
  abbrev pub signing_keys_of : Option (UnlockedPrivateKeys S P) → List (UnlockedKey S P)
  signing_keys_of none = List.[]
  signing_keys_of (some keys) = keys.addr_keys

  abbrev pub message : Result Text Bytes → Result WalletCryptoError EncryptedMessage
  message (ok encrypted) = ok (record { encrypted = encrypted })
  message (err e) = err (crypto_error e)

  -- `Message::encrypt_with`
  unfoldable pub encrypt_with :
      Binary
      → (pub_keys : List P) → Option (UnlockedPrivateKeys S P)
      → Exec WalletCryptoError W EncryptedMessage
  encrypt_with clear pub_keys signing_keys w =
      let (r, w') = pgp.encrypt_raw pub_keys (signing_keys_of signing_keys) clear.bytes w in
      (message r, w')

  -- `EncryptedMessage::decrypt_with`
  unfoldable pub decrypt_with :
      EncryptedMessage → (address_keys : List (UnlockedKey S P)) → Result WalletCryptoError Binary
  decrypt_with encrypted address_keys =
      and_then (map_err crypto_error (pgp.decrypt address_keys armor encrypted.encrypted))
        (λ clear. ok (record { bytes = clear }))

  -- `EncryptedWalletMnemonicLegacy::decrypt_with`
  unfoldable pub legacy_decrypt_with :
      EncryptedWalletMnemonicLegacy
      → UnlockedPrivateKeys S P
      → Result WalletCryptoError EncryptedBinary
  legacy_decrypt_with mnemonic unlocked_keys =
      and_then
        (map_err crypto_error
          (pgp.decrypt unlocked_keys.user_keys mnemonic.encoding mnemonic.encrypted))
        (λ clear. ok (record { bytes = clear }))

  abbrev is_ok : Result Text (Unit {0}) → Bool
  is_ok (ok _) = true
  is_ok (err e) = false

  -- `WalletBTCAddress::verify`, of the bytes of an address
  unfoldable pub verify :
      Utf8
      → Bytes
      → (pub_keys : List P) → (signature context : Text) → Result WalletCryptoError Bool
  verify utf address pub_keys signature context =
      ok (is_ok (pgp.verify_detached pub_keys context address (utf.as_bytes signature)))
