-- ===== src/Tests/Ciphers.antt =====
-- The ciphers at work: rust/src/proton_wallet/crypto/ and the providers of mnemonics and names. The
-- cipher here is the identity, with a nonce of zeros.
use flutter_app.Common.{
  ℕ, ◌<◌, ◌≡◌, sym, ◌⊎◌, refl, List, [], ◌∷◌, ◌++◌, length, ok, err, Result, and_then, Text, codes,
}
use flutter_app.Errors.{WalletCryptoError, srp_password_too_short}
use flutter_app.Crypto.{Bytes, AesGcm, Base64, Utf8}
use flutter_app.Crypto.WalletKey.{UnlockedWalletKey, encrypt}
use flutter_app.Crypto.Label.{
  Binary, EncryptedBinary, new_from_str, encrypt_with, decrypt_with, as_utf8_string,
  encrypted_to_base64, encrypted_new_from_base64,
}
use flutter_app.Crypto.RoundTrip.{label-decrypt-encrypt}
use flutter_app.Crypto.Password.{compute_key_password, compute_key_password_lem}
use flutter_app.Crypto.Relock.{Pgp, RelockedKey}
use flutter_app.Storage.UserKey.{LockedKey}
use flutter_app.Db.Wallet.{WalletModel}
use flutter_app.Provider.Mnemonic.{WalletDataProvider, WalletKeysProvider, get_wallet_mnemonic}
use flutter_app.Provider.Mnemonic.Clear.{get_wallet_mnemonic-encrypted}
use flutter_app.Tests.UserKeys.{one_key}
use flutter_app.Tests.Tables.{savings}

abbrev pub zeros : Bytes
zeros = 0 ∷ 0 ∷ 0 ∷ 0 ∷ 0 ∷ 0 ∷ 0 ∷ 0 ∷ 0 ∷ 0 ∷ 0 ∷ 0 ∷ []

abbrev pub plain : AesGcm ℕ
plain = record {
  encrypt = λ key nonce clear_bytes. ok clear_bytes;
  decrypt = λ key nonce ciphertext. ok ciphertext;
  generate_nonce = λ w. (zeros, w);
  decrypt-encrypt = λ key nonce clear_bytes ciphertext h. sym h;
  length-nonce = λ w. refl;
}

abbrev pub base64 : Base64
base64 = record { encode = λ bytes. bytes; decode = λ text. ok text; decode-encode = λ bytes. refl }

abbrev pub utf : Utf8
utf = record {
  as_bytes = λ s. s;
  from_utf8 = λ bytes. ok bytes;
  from_utf8-as_bytes = λ s. refl;
  as_bytes-from_utf8 = λ bytes s h. cc;
  as_bytes-nil = refl;
}

abbrev pub key : UnlockedWalletKey
key = record { bytes = codes "key" }

abbrev sealed : EncryptedBinary
sealed = record { bytes = zeros ++ codes "words" }

abbrev words : Binary
words = record { bytes = codes "words" }

seals : (encrypt_with plain (new_from_str utf (codes "words")) key 0).0 ≡ ok sealed
unfolding encrypt_with new_from_str encrypt
seals = refl

label-decrypt-encrypt_example :
    and_then
      (encrypted_new_from_base64 base64 (encrypted_to_base64 base64 sealed))
      (λ received. and_then (decrypt_with plain received key) (as_utf8_string utf))
    ≡ ok (codes "words")
label-decrypt-encrypt_example =
    label-decrypt-encrypt plain base64 utf key (codes "words") sealed 0 seals

compute_key_password_lem_example :
    ((length (codes "short") < 31)
      × (compute_key_password utf (λ password salt. ok password) (codes "short") []
          ≡ err srp_password_too_short))
    ⊎ ((front suffix : Bytes) × (codes "short" ≡ front ++ suffix)
        × (length suffix ≡ 31)
        × (compute_key_password utf (λ password salt. ok password) (codes "short") [] ≡ ok suffix))
compute_key_password_lem_example =
    compute_key_password_lem utf (λ password salt. ok password) (codes "short") [] (codes "short")
      refl

-- PGP calls that open every key to its id
abbrev pub pgp : Pgp Text
pgp = record {
  unlock = λ keys secret. (codes "k" ∷ [], 0);
  relock_user_key = λ d secret. ok secret;
  id = λ d. d;
}

abbrev relocked : RelockedKey
relocked = record { private_key = codes "new"; key_id = codes "k" }

abbrev pub named : WalletModel ℕ
named = record savings { name = zeros ++ codes "words" }

abbrev wallets : WalletModel ℕ → WalletDataProvider ℕ ℕ
wallets wallet = record {
  get_wallet = λ wallet_id w. (ok wallet, w);
  get_wallet_mnemonic = λ wallet_id w. (ok (zeros ++ codes "words"), w);
}

abbrev keys : WalletKeysProvider ℕ
keys = record { get_unlocked_wallet_key = λ wallet_id w. (ok key, w) }

abbrev open_legacy : List LockedKey → Text → Bytes → Result WalletCryptoError EncryptedBinary
open_legacy user_keys key_secret bytes = ok (record { bytes = bytes })

sends : encrypted_to_base64 base64 sealed ≡ zeros ++ codes "words"
unfolding encrypted_to_base64
sends = refl

get_wallet_mnemonic-encrypted_example :
    get_wallet_mnemonic (wallets savings) keys plain base64 one_key open_legacy (codes "w") 0
    ≡ (ok words, 0)
unfolding encrypted_to_base64 encrypt_with encrypt
get_wallet_mnemonic-encrypted_example =
    get_wallet_mnemonic-encrypted (wallets savings) keys plain base64 (codes "w") savings key
      one_key open_legacy words sealed 0 0 0 0 0 refl refl refl refl refl
