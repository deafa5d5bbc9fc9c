-- ===== src/Provider/Mnemonic/Clear.antt =====
-- Mnemonics and names that were encrypted with the key of their wallet:
-- rust/src/proton_wallet/provider/wallet_mnemonic.rs and wallet_name.rs.
use flutter_app.Common.{◌≡◌, refl, false, true, List, Result, ok, Text}
use flutter_app.Errors.{WalletCryptoError}
use flutter_app.Db.Wallet.{WalletModel}
use flutter_app.Storage.UserKey.{LockedKey}
use flutter_app.Provider.UserKeys.{UserKeysProvider}
use flutter_app.Crypto.{Bytes, AesGcm, Base64, Utf8}
use flutter_app.Crypto.WalletKey.{UnlockedWalletKey}
use flutter_app.Crypto.Label.{
  Binary, EncryptedBinary, new_from_str, as_utf8_string, encrypt_with, encrypted_to_base64,
}
use flutter_app.Crypto.RoundTrip.{
  decrypt_with-encrypt_with, encrypted_new_from_base64-encrypted_to_base64,
}
use flutter_app.Provider.Mnemonic.{
  WalletDataProvider, WalletKeysProvider, is_legacy, legacy_mnemonic, get_wallet_mnemonic,
  get_wallet_name,
}

module _ {F W R : Type 0} (wallets : WalletDataProvider F W) (keys : WalletKeysProvider W)
    (aes : AesGcm R) (base64 : Base64) (wallet_id : Text) (wallet : WalletModel F)
    (key : UnlockedWalletKey) where
  -- Where the providers give the wallet, not marked as legacy, the key, and a mnemonic that was
  -- encrypted with this key and written as base64, `get_wallet_mnemonic` returns the mnemonic as it
  -- was before the encryption.
  pub get_wallet_mnemonic-encrypted :
      (user_keys_provider : UserKeysProvider W)
      (decrypt_legacy : List LockedKey → Text → Bytes → Result WalletCryptoError EncryptedBinary)
      (mnemonic : Binary) (e : EncryptedBinary) (r : R) (w0 w1 w2 w3 : W)
      → (encrypt_with aes mnemonic key r).0 ≡ ok e
      → is_legacy wallet.legacy ≡ false
      → wallets.get_wallet wallet_id w0 ≡ (ok wallet, w1)
      → wallets.get_wallet_mnemonic wallet_id w1 ≡ (ok (encrypted_to_base64 base64 e), w2)
      → keys.get_unlocked_wallet_key wallet_id w2 ≡ (ok key, w3)
      → get_wallet_mnemonic wallets keys aes base64 user_keys_provider decrypt_legacy wallet_id w0
        ≡ (ok mnemonic, w3)
  unfolding get_wallet_mnemonic
  get_wallet_mnemonic-encrypted user_keys_provider decrypt_legacy mnemonic e r w0 w1 w2 w3 sent
        standard h1 h2 h3 =
      rw
        (
          h1,
          h2,
          h3,
          standard,
          encrypted_new_from_base64-encrypted_to_base64 base64 e,
          decrypt_with-encrypt_with aes key mnemonic e r sent,
        )
        refl

  -- The same for a wallet that is marked as legacy, where the PGP calls give the encrypted mnemonic
  -- with the user keys and the passphrase.
  pub get_wallet_mnemonic-legacy :
      (user_keys_provider : UserKeysProvider W)
      (decrypt_legacy : List LockedKey → Text → Bytes → Result WalletCryptoError EncryptedBinary)
      (mnemonic : Binary) (e : EncryptedBinary) (r : R) (bytes : Bytes) (user_keys : List LockedKey)
      (key_secret : Text) (w0 w1 w2 w3 w4 w5 : W)
      → (encrypt_with aes mnemonic key r).0 ≡ ok e
      → is_legacy wallet.legacy ≡ true
      → decrypt_legacy user_keys key_secret bytes ≡ ok e
      → wallets.get_wallet wallet_id w0 ≡ (ok wallet, w1)
      → wallets.get_wallet_mnemonic wallet_id w1 ≡ (ok (base64.encode bytes), w2)
      → keys.get_unlocked_wallet_key wallet_id w2 ≡ (ok key, w3)
      → user_keys_provider.get_user_keys w3 ≡ (ok user_keys, w4)
      → user_keys_provider.get_user_key_passphrase w4 ≡ (ok key_secret, w5)
      → get_wallet_mnemonic wallets keys aes base64 user_keys_provider decrypt_legacy wallet_id w0
        ≡ (ok mnemonic, w5)
  unfolding get_wallet_mnemonic legacy_mnemonic
  get_wallet_mnemonic-legacy user_keys_provider decrypt_legacy mnemonic e r bytes user_keys
        key_secret w0 w1 w2 w3 w4 w5 sent legacy opened h1 h2 h3 h4 h5 =
      rw
        (
          h1,
          h2,
          h3,
          legacy,
          h4,
          h5,
          base64.decode-encode bytes,
          opened,
          decrypt_with-encrypt_with aes key mnemonic e r sent,
        )
        refl

  -- Where the providers give the key and the wallet, whose name was encrypted with this key and
  -- written as base64, `get_wallet_name` returns the name as it was before the encryption.
  pub get_wallet_name-encrypted :
      (utf : Utf8) (name : Text) (e : EncryptedBinary) (r : R) (w0 w1 w2 : W)
      → (encrypt_with aes (new_from_str utf name) key r).0 ≡ ok e
      → wallet.name ≡ encrypted_to_base64 base64 e
      → wallets.get_wallet wallet_id w0 ≡ (ok wallet, w1)
      → keys.get_unlocked_wallet_key wallet_id w1 ≡ (ok key, w2)
      → get_wallet_name wallets keys aes base64 utf wallet_id w0 ≡ (ok name, w2)
  unfolding get_wallet_name new_from_str as_utf8_string
  get_wallet_name-encrypted utf name e r w0 w1 w2 sent same h1 h2 =
      rw
        (
          h1,
          h2,
          same,
          encrypted_new_from_base64-encrypted_to_base64 base64 e,
          decrypt_with-encrypt_with aes key (new_from_str utf name) e r sent,
          utf.from_utf8-as_bytes name,
        )
        refl
