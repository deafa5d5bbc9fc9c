-- ===== src/Crypto/TransactionId.antt =====
-- rust/src/proton_wallet/crypto/transaction_id.rs: the id of a transaction, in the clear and encrypted
-- to the user's own keys.
use flutter_app.Common.{[], ◌∷◌, ◌++◌, Result, ok, err, Exec, map_err, and_then, Text}
use flutter_app.Errors.{WalletCryptoError, crypto_error, decode, utf8, hmac_invalid_length}
use flutter_app.Crypto.{Bytes, Base64, Utf8}
use flutter_app.Crypto.WalletKey.{UnlockedWalletKey, to_entropy}
use flutter_app.Crypto.Pgp.{PgpProvider, UnlockedPrivateKeys, armor, as_self_encryption_public_key}

pub record WalletTransactionId : Type 0 where
  pub clear : Bytes

pub record EncryptedWalletTransactionId : Type 0 where
  pub encrypted : Bytes

unfoldable pub new : Bytes → WalletTransactionId
new clear = record { clear = clear }

unfoldable pub new_from_str : Utf8 → Text → WalletTransactionId
unfolding new
new_from_str utf plaintext = new (utf.as_bytes plaintext)

unfoldable pub new_from_base64 : Base64 → Text → Result WalletCryptoError WalletTransactionId
unfolding new
new_from_base64 base64 text =
    and_then (map_err decode (base64.decode text)) (λ clear. ok (new clear))

unfoldable pub to_base64 : Base64 → WalletTransactionId → Text
to_base64 base64 id = base64.encode id.clear

unfoldable pub as_utf8_string : Utf8 → WalletTransactionId → Result WalletCryptoError Text
as_utf8_string utf id = map_err utf8 (utf.from_utf8 id.clear)

unfoldable pub default : WalletTransactionId
unfolding new
default = new []

-- `EncryptedWalletTransactionID::new_from_base64`, `to_base64` and `from` of a text
unfoldable pub encrypted_new_from_base64 :
    Base64 → Text → Result WalletCryptoError EncryptedWalletTransactionId
encrypted_new_from_base64 base64 text =
    and_then (map_err decode (base64.decode text)) (λ bytes. ok (record { encrypted = bytes }))

unfoldable pub encrypted_to_base64 : Base64 → EncryptedWalletTransactionId → Text
encrypted_to_base64 base64 id = base64.encode id.encrypted

unfoldable pub from_text : Utf8 → Text → EncryptedWalletTransactionId
from_text utf value = record { encrypted = utf.as_bytes value }

-- HMAC-SHA256 is a parameter.
unfoldable pub hmac_hash_with :
    (hmac : Bytes → Bytes → Result Text Bytes)
    → Base64
    → WalletTransactionId
    → UnlockedWalletKey
    → Result WalletCryptoError Text
unfolding to_entropy
hmac_hash_with hmac base64 id key =
    and_then (map_err hmac_invalid_length (hmac (to_entropy key) id.clear))
      (λ hashed_bytes. ok (base64.encode hashed_bytes))

module _ {S P W : Type 0} (pgp : PgpProvider S P W) where
  abbrev pub encrypted : Result Text Bytes → Result WalletCryptoError EncryptedWalletTransactionId
  encrypted (ok bytes) = ok (record { encrypted = bytes })
  encrypted (err e) = err (crypto_error e)

  unfoldable pub encrypt_with :
      WalletTransactionId
      → UnlockedPrivateKeys S P
      → Exec WalletCryptoError W EncryptedWalletTransactionId
  unfolding as_self_encryption_public_key
  encrypt_with id unlocked_keys w = elim (as_self_encryption_public_key unlocked_keys) [
    | err e ↦ (err e, w)
    | ok key ↦ let (r, w') = pgp.encrypt_raw (key ∷ []) [] id.clear w in (encrypted r, w')
  ]

  -- all keys are tried, those of the user and those of the addresses
  unfoldable pub decrypt_with :
      EncryptedWalletTransactionId
      → UnlockedPrivateKeys S P
      → Result WalletCryptoError WalletTransactionId
  unfolding new
  decrypt_with id unlocked_keys =
      and_then
        (map_err crypto_error
          (pgp.decrypt (unlocked_keys.user_keys ++ unlocked_keys.addr_keys) armor id.encrypted))
        (λ clear. ok (new clear))
