-- ===== src/Crypto/RoundTrip.antt =====
-- Decryption of what a wallet key encrypted, also by way of base64; and what is refused:
-- rust/src/proton_wallet/crypto/.
use flutter_app.Common.{
  Result-cases, ℕ, zero, suc, ◌≤◌, ◌≡◌, refl, ap, inl, inr, false, [], ◌∷◌, ◌++◌, ok, err, and_then,
  Text, length, take, drop, ltb, ◌==◌, if◌then◌else◌, length-append, arith,
}
use flutter_app.Errors.{aes_gcm_invalid_key_length}
use flutter_app.Crypto.{Bytes, AesGcm, Base64, Utf8}
use flutter_app.Crypto.WalletKey.{
  UnlockedWalletKey, encrypt, decrypt, restore_base64, to_base64, new,
}
use flutter_app.Crypto.Label.{
  Binary, EncryptedBinary, new_from_str, as_utf8_string, encrypt_with, decrypt_with,
  encrypted_to_base64, encrypted_new_from_base64,
}

take-append : (xs ys : Bytes) (n : ℕ) → length xs ≡ n → take n (xs ++ ys) ≡ xs
take-append [] ys zero h = refl
take-append [] ys (suc n) h = absurd (omega arith)
take-append (x ∷ xs) ys zero h = absurd (omega arith)
take-append (x ∷ xs) ys (suc n) h = ap (λ zs. x ∷ zs) (take-append xs ys n (omega arith))

drop-append : (xs ys : Bytes) (n : ℕ) → length xs ≡ n → drop n (xs ++ ys) ≡ ys
drop-append [] ys zero h = refl
drop-append [] ys (suc n) h = absurd (omega arith)
drop-append (x ∷ xs) ys zero h = absurd (omega arith)
drop-append (x ∷ xs) ys (suc n) h = drop-append xs ys n (omega arith)

pub encrypted_new_from_base64-encrypted_to_base64 :
    (base64 : Base64) (e : EncryptedBinary)
    → encrypted_new_from_base64 base64 (encrypted_to_base64 base64 e) ≡ ok e
unfolding encrypted_new_from_base64 encrypted_to_base64
encrypted_new_from_base64-encrypted_to_base64 base64 e = rw (base64.decode-encode e.bytes) refl

module _ {W : Type 0} (aes : AesGcm W) where
  long : (iv ciphertext : Bytes) → length iv ≡ 12 → ltb (length (iv ++ ciphertext)) 12 ≡ false
  long iv ciphertext h =
      let e = length-append iv ciphertext in
      let le : 12 ≤ length (iv ++ ciphertext) = omega arith in ground arith

  decrypt-concat :
      (key : UnlockedWalletKey) (iv ciphertext clear_bytes : Bytes)
      → length iv ≡ 12
      → aes.encrypt key.bytes iv clear_bytes ≡ ok ciphertext
      → decrypt aes key (iv ++ ciphertext) ≡ ok clear_bytes
  unfolding decrypt
  decrypt-concat key iv ciphertext clear_bytes h e =
      rw
        (
          long iv ciphertext h,
          take-append iv ciphertext 12 h,
          drop-append iv ciphertext 12 h,
          aes.decrypt-encrypt key.bytes iv clear_bytes ciphertext e,
        )
        refl

  -- What `encrypt` returns, `decrypt` with the same key turns back into what was encrypted.
  pub decrypt-encrypt :
      (key : UnlockedWalletKey) (clear_bytes encrypted_bytes : Bytes) (w : W)
      → (encrypt aes key clear_bytes w).0 ≡ ok encrypted_bytes
      → decrypt aes key encrypted_bytes ≡ ok clear_bytes
  unfolding encrypt
  decrypt-encrypt key clear_bytes encrypted_bytes w h =
      let iv = (aes.generate_nonce w).0 in
      elim (Result-cases (aes.encrypt key.bytes iv clear_bytes)) [
        | inl (e, failed) ↦ cc (rw failed at h)
        | inr (ciphertext, done) ↦
            let whole : ok (iv ++ ciphertext) ≡ ok encrypted_bytes = rw done at h in
            let same : iv ++ ciphertext ≡ encrypted_bytes = cc in
            rw (← same) (decrypt-concat key iv ciphertext clear_bytes (aes.length-nonce w) done)
      ]

  pub decrypt_with-encrypt_with :
      (key : UnlockedWalletKey) (b : Binary) (e : EncryptedBinary) (w : W)
      → (encrypt_with aes b key w).0 ≡ ok e
      → decrypt_with aes e key ≡ ok b
  unfolding encrypt_with decrypt_with
  decrypt_with-encrypt_with key b e w h = elim (Result-cases (encrypt aes key b.bytes w).0) [
    | inl (e', failed) ↦ cc (rw failed at h)
    | inr (bytes, done) ↦
        let whole : ok (record { bytes = bytes }) ≡ ok e = rw done at h in
        let same : record { bytes = bytes } ≡ e = cc in
        rw (← same, decrypt-encrypt key b.bytes bytes w done) refl
  ]

  -- A text that is encrypted as a label with a wallet key, sent as base64, read from base64 and
  -- decrypted with the same key is the same text again.
  pub label-decrypt-encrypt :
      (base64 : Base64) (utf : Utf8) (key : UnlockedWalletKey) (plaintext : Text)
      (e : EncryptedBinary) (w : W)
      → (encrypt_with aes (new_from_str utf plaintext) key w).0 ≡ ok e
      → and_then
          (encrypted_new_from_base64 base64 (encrypted_to_base64 base64 e))
          (λ received. and_then (decrypt_with aes received key) (as_utf8_string utf))
        ≡ ok plaintext
  unfolding new_from_str as_utf8_string
  label-decrypt-encrypt base64 utf key plaintext e w h =
      rw
        (
          encrypted_new_from_base64-encrypted_to_base64 base64 e,
          decrypt_with-encrypt_with key (new_from_str utf plaintext) e w h,
          utf.from_utf8-as_bytes plaintext,
        )
        refl

-- A wallet key that is written as base64 and restored is the same key, if it has 32 bytes; and else
-- it is refused.
pub restore_base64-to_base64 :
    (base64 : Base64) (key : UnlockedWalletKey)
    → restore_base64 base64 (to_base64 base64 key)
      ≡ (if length key.bytes == 32 then ok key else err aes_gcm_invalid_key_length)
unfolding restore_base64 to_base64 new
restore_base64-to_base64 base64 key = rw (base64.decode-encode key.bytes) refl
