-- ===== src/Crypto/Label.antt =====
-- rust/src/proton_wallet/crypto/binary.rs, label.rs and mnemonic.rs: labels and mnemonics, which hold
-- bytes and differ in their types alone.
use flutter_app.Common.{Result, ok, err, Exec, map_err, Text}
use flutter_app.Errors.{WalletCryptoError, decode, utf8}
use flutter_app.Crypto.{Bytes, AesGcm, Base64, Utf8}
use flutter_app.Crypto.WalletKey
use flutter_app.Crypto.WalletKey.{UnlockedWalletKey}

-- A `Binary`, as `WalletName` or `WalletMnemonic`, and an `EncryptedBinary`, as `EncryptedLabel` or
-- `EncryptedWalletMnemonic`.
pub record Binary : Type 0 where
  pub bytes : Bytes

pub record EncryptedBinary : Type 0 where
  pub bytes : Bytes

abbrev binary : Result WalletCryptoError Bytes → Result WalletCryptoError Binary
binary (ok bytes) = ok (record { bytes = bytes })
binary (err e) = err e

abbrev encrypted : Result WalletCryptoError Bytes → Result WalletCryptoError EncryptedBinary
encrypted (ok bytes) = ok (record { bytes = bytes })
encrypted (err e) = err e

-- `Binary::new_from_str`, `new_from_base64`, `to_base64` and `as_utf8_string`
unfoldable pub new_from_str : Utf8 → Text → Binary
new_from_str utf plaintext = record { bytes = utf.as_bytes plaintext }

unfoldable pub new_from_base64 : Base64 → Text → Result WalletCryptoError Binary
new_from_base64 base64 text = binary (map_err decode (base64.decode text))

unfoldable pub to_base64 : Base64 → Binary → Text
to_base64 base64 b = base64.encode b.bytes

unfoldable pub as_utf8_string : Utf8 → Binary → Result WalletCryptoError Text
as_utf8_string utf b = map_err utf8 (utf.from_utf8 b.bytes)

-- `EncryptedBinary::new_from_base64` and `to_base64`
unfoldable pub encrypted_new_from_base64 : Base64 → Text → Result WalletCryptoError EncryptedBinary
encrypted_new_from_base64 base64 text = encrypted (map_err decode (base64.decode text))

unfoldable pub encrypted_to_base64 : Base64 → EncryptedBinary → Text
encrypted_to_base64 base64 e = base64.encode e.bytes

module _ {W : Type 0} (aes : AesGcm W) where
  unfoldable pub encrypt_with :
      Binary → UnlockedWalletKey → Exec WalletCryptoError W EncryptedBinary
  unfolding WalletKey.encrypt
  encrypt_with b key w = let (r, w') = WalletKey.encrypt aes key b.bytes w in (encrypted r, w')

  unfoldable pub decrypt_with :
      EncryptedBinary → UnlockedWalletKey → Result WalletCryptoError Binary
  unfolding WalletKey.decrypt
  decrypt_with e key = binary (WalletKey.decrypt aes key e.bytes)
