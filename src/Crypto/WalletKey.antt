-- ===== src/Crypto/WalletKey.antt =====
-- rust/src/proton_wallet/crypto/wallet_key.rs and wallet_key_provider.rs: the wallet key and what it
-- encrypts.
use flutter_app.Common.{
  ◌++◌, Result, ok, err, Exec, map_err, and_then, Text, length, take, drop, ltb, ◌==◌,
  if◌then◌else◌,
}
use flutter_app.Errors.{
  WalletCryptoError, aes_gcm, decode, invalid_data_size, aes_gcm_invalid_key_length,
}
use flutter_app.Crypto.{Bytes, AesGcm, Base64}

-- `UnlockedWalletKey`
pub record UnlockedWalletKey : Type 0 where
  pub bytes : Bytes

-- `UnlockedWalletKey::new` on 32 bytes; on others it panics
unfoldable pub new : Bytes → UnlockedWalletKey
new bytes = record { bytes = bytes }

unfoldable pub to_base64 : Base64 → UnlockedWalletKey → Text
to_base64 base64 key = base64.encode key.bytes

unfoldable pub to_entropy : UnlockedWalletKey → Bytes
to_entropy key = key.bytes

module _ {W : Type 0} (aes : AesGcm W) where
  unfoldable pub decrypt : UnlockedWalletKey → Bytes → Result WalletCryptoError Bytes
  decrypt key encrypted_bytes =
      if ltb (length encrypted_bytes) 12
      then err invalid_data_size
      else map_err aes_gcm
          (aes.decrypt key.bytes (take 12 encrypted_bytes) (drop 12 encrypted_bytes))

  abbrev concat : Bytes → Result Text Bytes → Result WalletCryptoError Bytes
  concat iv (ok ciphertext) = ok (iv ++ ciphertext)
  concat iv (err e) = err (aes_gcm e)

  unfoldable pub encrypt : UnlockedWalletKey → Bytes → Exec WalletCryptoError W Bytes
  encrypt key clear_bytes w =
      let (iv, w') = aes.generate_nonce w in (concat iv (aes.encrypt key.bytes iv clear_bytes), w')

-- `WalletKeyProvider::restore`
unfoldable pub restore : Bytes → Result WalletCryptoError UnlockedWalletKey
unfolding new
restore key_bytes =
    if length key_bytes == 32 then ok (new key_bytes) else err aes_gcm_invalid_key_length

-- `WalletKeyProvider::restore_base64`
unfoldable pub restore_base64 : Base64 → Text → Result WalletCryptoError UnlockedWalletKey
unfolding new
restore_base64 base64 key_base64 =
    and_then (map_err decode (base64.decode key_base64)) (λ key_bytes.
      if length key_bytes == 32 then ok (new key_bytes) else err aes_gcm_invalid_key_length)
