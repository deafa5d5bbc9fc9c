-- ===== src/Tests/Pgp.antt =====
-- PGP keys at work: rust/src/proton_wallet/crypto/ and
-- rust/src/api/proton_wallet/features/transition_layer.rs. A private key is its text, which is also
-- its public key; the clear text is its own ciphertext, and a signature is empty.
use flutter_app.Common.{
  ℕ, ◌≡◌, refl, sym, ap, none, some, List, [], ◌∷◌, In, here, there, ok, Text, codes,
}
use flutter_app.Storage.UserKey.{LockedKey}
use flutter_app.Crypto.WalletKey.{UnlockedWalletKey}
use flutter_app.Crypto.Pgp.{PgpProvider, IsPgp, UnlockedKey, UnlockedPrivateKeys}
use flutter_app.Crypto.TransactionId.{
  WalletTransactionId, EncryptedWalletTransactionId, encrypt_with,
}
use flutter_app.Crypto.WalletLock.{unlock_with, lock_with}
use flutter_app.Crypto.Opened.{unlock_with-lock_with, unlock_with_cases, Unlocked}
use flutter_app.Provider.WalletKeys.{LockedWalletKey}
use flutter_app.Tests.Ciphers.{utf}

abbrev open_key : LockedKey → UnlockedKey Text Text
open_key key = record { id = key.id; private_key = key.private_key; public_key = key.private_key }

abbrev open_keys : List LockedKey → List (UnlockedKey Text Text)
open_keys [] = []
open_keys (key ∷ keys) = open_key key ∷ open_keys keys

open_keys-In :
    (locked : List LockedKey) (key : UnlockedKey Text Text)
    → In key (open_keys locked)
    → (k : LockedKey) × In k locked × (k.private_key ≡ key.public_key)
open_keys-In [] key m = elim m [ ]
open_keys-In (k ∷ ks) key here = (k, here, refl)
open_keys-In (k ∷ ks) key (there m) =
    let (found, i, e) = open_keys-In ks key m in (found, there i, e)

abbrev pub pgp : PgpProvider Text Text ℕ
pgp = record {
  unlock_user_keys = λ locked secret. (open_keys locked, []);
  unlock_address_keys = λ locked user_keys secret. (open_keys locked, []);
  public_key_import = λ t. ok t;
  encrypt_raw = λ keys signing_keys clear w. (ok clear, w);
  decrypt = λ keys encoding text. ok text;
  encrypt_signed = λ key context clear w. (ok (clear, []), w);
  decrypt_verified = λ keys signature context text. ok (text, ok tt);
  sign_detached = λ key context clear w. (ok context, w);
  verify_detached = λ keys context clear signature. ok tt;
}

pub pgp-IsPgp : IsPgp pgp
pgp-IsPgp = record {
  decrypt-encrypt_raw = λ ps ss ks p clear text w w' m h e. sym (ap (λ z. z.0) e);
  decrypt_verified-encrypt_signed = λ key ks c clear text signature w w' m e. cc;
  verify_detached-sign_detached = λ key ks c clear signature w w' m e. refl;
  unlocked_address_key =
      λ locked users secret key m. let (k, i, e) = open_keys-In locked key m in (k, i, ap ok e);
}

abbrev pub alice : UnlockedKey Text Text
alice = record { id = codes "k"; private_key = codes "armored"; public_key = codes "armored" }

abbrev alices_keys : UnlockedPrivateKeys Text Text
alices_keys = record {
  user_keys = alice ∷ [];
  addr_keys = [];
  user_keys_failed = [];
  addr_keys_failed = [];
}

abbrev payment : WalletTransactionId
payment = record { clear = codes "tx" }

abbrev sealed_payment : EncryptedWalletTransactionId
sealed_payment = record { encrypted = codes "tx" }

seals_payment : encrypt_with pgp payment alices_keys 0 ≡ (ok sealed_payment, 0)
unfolding encrypt_with
seals_payment = refl

abbrev pub key_of_32 : UnlockedWalletKey
key_of_32 = record { bytes = codes "0123456789abcdef0123456789abcdef" }

abbrev pub locked_32 : LockedWalletKey
locked_32 = record { encrypted = codes "0123456789abcdef0123456789abcdef"; signature = [] }

locks : lock_with pgp utf key_of_32 alice 0 ≡ (ok locked_32, 0)
unfolding lock_with
locks = refl

unlock_with-lock_with_example : unlock_with pgp utf locked_32 (alice ∷ []) ≡ some (ok key_of_32)
unlock_with-lock_with_example =
    unlock_with-lock_with pgp utf pgp-IsPgp key_of_32 alice (alice ∷ []) locked_32 0 0 refl here
      locks

-- a key that is signed and too short
abbrev short_lock : LockedWalletKey
short_lock = record { encrypted = codes "short"; signature = [] }

unlock_with_cases_example :
    Unlocked pgp utf
      (pgp.decrypt_verified (alice ∷ []) [] (codes "wallet.key") (codes "short"))
      (unlock_with pgp utf short_lock (alice ∷ []))
unlock_with_cases_example = unlock_with_cases pgp utf short_lock (alice ∷ [])

panics : unlock_with pgp utf short_lock (alice ∷ []) ≡ none
unfolding unlock_with
panics = refl
