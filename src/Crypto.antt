-- ===== src/Crypto.antt =====
-- The ciphers of rust/src/proton_wallet/crypto/. AES-GCM, base64 and UTF-8 are parameters, with what
-- the code relies on as laws.
pub mod WalletKey
pub mod Label
pub mod RoundTrip
pub mod Password
pub mod Relock
pub mod Pgp
pub mod Message
pub mod TransactionId
pub mod WalletLock
pub mod Opened
use flutter_app.Common.{ℕ, ◌≡◌, List, [], Result, ok, err, Exec, Text, length}
use flutter_app.Errors.{WalletCryptoError}

abbrev pub Bytes : Type 0
Bytes = List ℕ

-- `Aes256Gcm` and its random nonces, in a world `W`
pub record AesGcm (W : Type 0) : Type 0 where
  pub encrypt : (key nonce clear_bytes : Bytes) → Result Text Bytes
  pub decrypt : (key nonce ciphertext : Bytes) → Result Text Bytes
  pub generate_nonce : W → Bytes × W
  -- what was encrypted is decrypted with the same key and nonce, and a nonce has 12 bytes
  pub decrypt-encrypt :
      (key nonce clear_bytes ciphertext : Bytes)
      → encrypt key nonce clear_bytes ≡ ok ciphertext
      → decrypt key nonce ciphertext ≡ ok clear_bytes
  pub length-nonce : (w : W) → length (generate_nonce w).0 ≡ 12

-- `BASE64_STANDARD`
pub record Base64 : Type 0 where
  pub encode : Bytes → Text
  pub decode : Text → Result Text Bytes
  pub decode-encode : (bytes : Bytes) → decode (encode bytes) ≡ ok bytes

-- `String::as_bytes` and `str::from_utf8`
pub record Utf8 : Type 0 where
  pub as_bytes : Text → Bytes
  pub from_utf8 : Bytes → Result Text Text
  pub from_utf8-as_bytes : (s : Text) → from_utf8 (as_bytes s) ≡ ok s
  pub as_bytes-from_utf8 : (bytes : Bytes) (s : Text) → from_utf8 bytes ≡ ok s → as_bytes s ≡ bytes
  pub as_bytes-nil : as_bytes [] ≡ []
