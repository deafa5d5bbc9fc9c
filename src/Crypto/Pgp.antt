-- ===== src/Crypto/Pgp.antt =====
-- rust/src/proton_wallet/crypto/private_key.rs and public_key.rs: locked, unlocked and public keys.
-- The PGP library is a parameter, with what the code relies on as laws.
use flutter_app.Common.{
  ◌≡◌, Option, some, List, [], ◌∷◌, ◌++◌, In, first, is_empty, Result, ok, err, ok_or, Exec, Text,
  not, if◌then◌else◌, pure, ◌>>◌,
}
use flutter_app.Errors.{WalletCryptoError, no_keys_found, crypto_error}
use flutter_app.Storage.UserKey.{LockedKey}
use flutter_app.Crypto.{Bytes}

pub data DataEncoding : Type 0 where
  armor bytes : DataEncoding

-- `DecryptedUserKey` and `DecryptedAddressKey`, with a private key `S` and a public key `P`
pub record UnlockedKey (S P : Type 0) : Type 0 where
  pub id : Text
  pub private_key : S
  pub public_key : P

-- Two halves of one key are in lists of keys at one place.
abbrev pub Holds : {S P : Type 0} → List (UnlockedKey S P) → P → Type 0
Holds {S} {P} keys public_key =
    (key : UnlockedKey S P) × In key keys × (key.public_key ≡ public_key)

-- `PGPProviderSync` with `UserKeys::unlock` and `AddressKeys::unlock`, in a world `W` of random bytes.
-- An error is what it says. `decrypt_verified` gives the clear bytes with the result of the
-- verification.
pub record PgpProvider (S P W : Type 0) : Type 0 where
  pub unlock_user_keys : List LockedKey → (secret : Bytes) → List (UnlockedKey S P) × List Text
  pub unlock_address_keys :
      List LockedKey
      → (user_keys : List (UnlockedKey S P)) → (secret : Option Bytes)
      → List (UnlockedKey S P) × List Text
  pub public_key_import : Text → Result Text P
  pub encrypt_raw : List P → (signing_keys : List (UnlockedKey S P)) → Bytes → Exec Text W Bytes
  pub decrypt : List (UnlockedKey S P) → DataEncoding → Bytes → Result Text Bytes
  pub encrypt_signed :
      UnlockedKey S P → (signing_context : Text) → Bytes → Exec WalletCryptoError W (Bytes × Bytes)
  pub decrypt_verified :
      List (UnlockedKey S P)
      → (signature : Bytes) → (verification_context : Text) → Bytes
      → Result Text (Bytes × Result Text (Unit {0}))
  pub sign_detached : UnlockedKey S P → (signing_context : Text) → Bytes → Exec Text W Bytes
  pub verify_detached :
      List P → (verification_context : Text) → Bytes → (signature : Bytes) → Result Text (Unit {0})

-- What the code relies on of a provider: a message is opened by whoever holds the private half of a key
-- that it is encrypted to, whatever other keys are tried; a signature verifies with the key and the
-- context that it was made with; and an unlocked key is one of the keys that were locked.
pub record IsPgp {S P W : Type 0} (pgp : PgpProvider S P W) : Type 0 where
  pub decrypt-encrypt_raw :
      (public_keys : List P) (signing_keys keys : List (UnlockedKey S P)) (public_key : P)
      (clear ciphertext : Bytes) (w w' : W)
      → In public_key public_keys
      → Holds keys public_key
      → pgp.encrypt_raw public_keys signing_keys clear w ≡ (ok ciphertext, w')
      → pgp.decrypt keys armor ciphertext ≡ ok clear
  pub decrypt_verified-encrypt_signed :
      (key : UnlockedKey S P) (keys : List (UnlockedKey S P)) (context : Text)
      (clear ciphertext signature : Bytes) (w w' : W)
      → In key keys
      → pgp.encrypt_signed key context clear w ≡ (ok (ciphertext, signature), w')
      → pgp.decrypt_verified keys signature context ciphertext ≡ ok (clear, ok tt)
  pub verify_detached-sign_detached :
      (key : UnlockedKey S P) (public_keys : List P) (context : Text) (clear signature : Bytes)
      (w w' : W)
      → In key.public_key public_keys
      → pgp.sign_detached key context clear w ≡ (ok signature, w')
      → pgp.verify_detached public_keys context clear signature ≡ ok tt
  pub unlocked_address_key :
      (locked : List LockedKey) (user_keys : List (UnlockedKey S P)) (secret : Option Bytes)
      (key : UnlockedKey S P)
      → In key (pgp.unlock_address_keys locked user_keys secret).0
      → (k : LockedKey) × In k locked × (pgp.public_key_import k.private_key ≡ ok key.public_key)

-- `UnlockedPrivateKeys` and `LockedPrivateKeys`
pub record UnlockedPrivateKeys (S P : Type 0) : Type 0 where
  pub user_keys : List (UnlockedKey S P)
  pub addr_keys : List (UnlockedKey S P)
  pub user_keys_failed : List Text
  pub addr_keys_failed : List Text

pub record LockedPrivateKeys : Type 0 where
  pub user_keys : List LockedKey
  pub addr_keys : List LockedKey

unfoldable pub from_keys : (user_keys addr_keys : List LockedKey) → LockedPrivateKeys
from_keys user_keys addr_keys = record { user_keys = user_keys; addr_keys = addr_keys }

unfoldable pub from_primary : LockedKey → LockedPrivateKeys
unfolding from_keys
from_primary primary_key = from_keys (primary_key ∷ []) []

unfoldable pub from_user_keys : List LockedKey → LockedPrivateKeys
unfolding from_keys
from_user_keys user_keys = from_keys user_keys []

module _ {S P : Type 0} where
  unfoldable pub from_user_key : UnlockedKey S P → UnlockedPrivateKeys S P
  from_user_key user_key = record {
    user_keys = user_key ∷ [];
    addr_keys = [];
    user_keys_failed = [];
    addr_keys_failed = [];
  }

  unfoldable pub from_addr_key : UnlockedKey S P → UnlockedPrivateKeys S P
  from_addr_key address_key = record {
    user_keys = [];
    addr_keys = address_key ∷ [];
    user_keys_failed = [];
    addr_keys_failed = [];
  }

  abbrev pub public_keys_of : List (UnlockedKey S P) → List P
  public_keys_of [] = []
  public_keys_of (key ∷ keys) = key.public_key ∷ public_keys_of keys

  unfoldable pub as_self_encryption_public_key :
      UnlockedPrivateKeys S P → Result WalletCryptoError P
  as_self_encryption_public_key keys =
      let pub_keys =
        if not (is_empty keys.addr_keys)
        then public_keys_of keys.addr_keys
        else if not (is_empty keys.user_keys)
        then public_keys_of keys.user_keys
        else [] in
      ok_or (first pub_keys) no_keys_found

module _ {S P W : Type 0} (pgp : PgpProvider S P W) where
  unfoldable pub unlock_with : LockedPrivateKeys → (secret : Bytes) → UnlockedPrivateKeys S P
  unlock_with keys user_key_secret =
      let (user_keys, user_failed) = pgp.unlock_user_keys keys.user_keys user_key_secret in
      let (addr_keys, addr_failed) =
        pgp.unlock_address_keys keys.addr_keys user_keys (some user_key_secret) in
      record {
        user_keys = user_keys;
        addr_keys = addr_keys;
        user_keys_failed = user_failed;
        addr_keys_failed = addr_failed;
      }

  -- `PublicKeys`, on the keys that it holds: `import_and_add_key`
  unfoldable pub import_and_add_key :
      (private_key : Text) → Exec WalletCryptoError (List P) (Unit {0})
  import_and_add_key private_key keys = elim (pgp.public_key_import private_key) [
    | ok key ↦ (ok tt, keys ++ (key ∷ []))
    | err e ↦ (err (crypto_error e), keys)
  ]

  unfoldable pub add_address_keys : List LockedKey → Exec WalletCryptoError (List P) (Unit {0})
  unfolding import_and_add_key
  add_address_keys [] = pure tt
  add_address_keys (key ∷ keys) = import_and_add_key key.private_key >> add_address_keys keys

  unfoldable pub add_armored_key : Text → Exec WalletCryptoError (List P) (Unit {0})
  unfolding import_and_add_key
  add_armored_key armored_key = import_and_add_key armored_key

  unfoldable pub add_armored_keys : List Text → Exec WalletCryptoError (List P) (Unit {0})
  unfolding add_armored_key
  add_armored_keys [] = pure tt
  add_armored_keys (key ∷ keys) = add_armored_key key >> add_armored_keys keys
