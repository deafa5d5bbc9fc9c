-- ===== src/Crypto/WalletLock.antt =====
-- rust/src/proton_wallet/crypto/wallet_key.rs: the wallet key locked with a user key, and unlocked with
-- the user keys. `UnlockedWalletKey::new` panics on bytes of a wrong length; a panic is `none`.
use flutter_app.Common.{
  Option, none, some, List, Result, ok, err, Exec, map_err, and_then, Text, codes, length, ◌==◌,
  if◌then◌else◌,
}
use flutter_app.Errors.{WalletCryptoError, crypto_error, crypto_signature_verify, utf8}
use flutter_app.Crypto.{Bytes, Utf8}
use flutter_app.Crypto.WalletKey.{UnlockedWalletKey, new}
use flutter_app.Crypto.Pgp.{PgpProvider, UnlockedKey}
use flutter_app.Provider.WalletKeys.{LockedWalletKey}

-- `SIGNATURE_CONTEXT_WALLET_KEY`
abbrev pub signature_context : Text
signature_context = codes "wallet.key"

module _ {S P W : Type 0} (pgp : PgpProvider S P W) (utf : Utf8) where
  abbrev pub armored :
      Result WalletCryptoError (Bytes × Bytes) → Result WalletCryptoError LockedWalletKey
  armored r = and_then r (λ (result_data, detached_signature).
      and_then (map_err utf8 (utf.from_utf8 result_data)) (λ encrypted.
        and_then (map_err utf8 (utf.from_utf8 detached_signature))
          (λ signature. ok (record { encrypted = encrypted; signature = signature }))))

  unfoldable pub lock_with :
      UnlockedWalletKey → UnlockedKey S P → Exec WalletCryptoError W LockedWalletKey
  lock_with key user_key w =
      let (r, w') = pgp.encrypt_signed user_key signature_context key.bytes w in (armored r, w')

  abbrev pub opened :
      Result Text (Bytes × Result Text (Unit {0}))
      → Option (Result WalletCryptoError UnlockedWalletKey)
  opened (err e) = some (err (crypto_error e))
  opened (ok (bytes, err e)) = some (err (crypto_signature_verify e))
  opened (ok (bytes, ok _)) = if length bytes == 32 then some (ok (new bytes)) else none

  unfoldable pub unlock_with :
      LockedWalletKey
      → (user_keys : List (UnlockedKey S P)) → Option (Result WalletCryptoError UnlockedWalletKey)
  unlock_with locked user_keys = opened (
      pgp.decrypt_verified user_keys (utf.as_bytes locked.signature) signature_context
        (utf.as_bytes locked.encrypted))
