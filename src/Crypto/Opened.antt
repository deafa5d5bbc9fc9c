-- ===== src/Crypto/Opened.antt =====
-- What was encrypted or locked with PGP keys, opened again:
-- rust/src/proton_wallet/crypto/transaction_id.rs and wallet_key.rs.
use flutter_app.Common.{
  ◌≡◌, refl, sym, ap, ◌⊎◌, inl, inr, ◌≢◌, Option, none, some, List, [], ◌∷◌, ◌++◌, In, here,
  In-append_right, Result, ok, err, Text, codes, length, ok_or, first, is_empty, not, Result-cases,
  ◌==◌, ==_iff, Bool-cases, if◌then◌else◌,
}
use flutter_app.Errors.{WalletCryptoError, no_keys_found, crypto_error, crypto_signature_verify}
use flutter_app.Crypto.{Bytes, Utf8}
use flutter_app.Crypto.WalletKey.{UnlockedWalletKey, new}
use flutter_app.Crypto.Pgp.{
  PgpProvider, IsPgp, UnlockedKey, UnlockedPrivateKeys, Holds, as_self_encryption_public_key,
  public_keys_of,
}
use flutter_app.Crypto.TransactionId
use flutter_app.Crypto.TransactionId.{WalletTransactionId, EncryptedWalletTransactionId, encrypted}
use flutter_app.Crypto.WalletLock.{signature_context, lock_with, unlock_with, armored, opened}
use flutter_app.Provider.WalletKeys.{LockedWalletKey}

module _ {S P : Type 0} where
  chosen-Holds :
      (users addrs : List (UnlockedKey S P)) (key : P)
      → ok_or
          (first (
            if not (is_empty addrs)
            then public_keys_of addrs
            else if not (is_empty users)
            then public_keys_of users
            else []))
          no_keys_found
        ≡ ok key
      → Holds (users ++ addrs) key
  chosen-Holds users (a ∷ addrs) key h = (a, In-append_right users here, cc)
  chosen-Holds (u ∷ users) [] key h = (u, here, cc)
  chosen-Holds [] [] key h = cc

  self_key-Holds :
      (keys : UnlockedPrivateKeys S P) (key : P)
      → as_self_encryption_public_key keys ≡ ok key
      → Holds (keys.user_keys ++ keys.addr_keys) key
  unfolding as_self_encryption_public_key
  self_key-Holds keys key h = chosen-Holds keys.user_keys keys.addr_keys key h

module _ {S P W : Type 0} (pgp : PgpProvider S P W) where
  encrypted-ok :
      (x : Result Text Bytes × W) (e : EncryptedWalletTransactionId) (w : W)
      → encrypted pgp x.0 ≡ ok e
      → x.1 ≡ w
      → x ≡ (ok e.encrypted, w)
  encrypted-ok (ok bytes, w') e w h k = cc
  encrypted-ok (err t, w') e w h k = cc

  -- The id of a transaction that was encrypted to the user's own keys is decrypted with these keys,
  -- whether it was encrypted to a key of an address or, where there is none, to one of the user.
  pub decrypt_with-encrypt_with :
      (laws : IsPgp pgp) (id : WalletTransactionId) (keys : UnlockedPrivateKeys S P)
      (sealed : EncryptedWalletTransactionId) (w w' : W)
      → TransactionId.encrypt_with pgp id keys w ≡ (ok sealed, w')
      → TransactionId.decrypt_with pgp sealed keys ≡ ok id
  unfolding TransactionId.encrypt_with TransactionId.decrypt_with TransactionId.new
  decrypt_with-encrypt_with laws id keys sealed w w' h =
      elim (Result-cases (as_self_encryption_public_key keys)) [
        | inl (e, none_found) ↦ let bad = rw (none_found, TransactionId.encrypt_with) at h in cc
        | inr (key, own) ↦
            let sent = rw (own, TransactionId.encrypt_with) at h in
            let done = encrypted-ok _ sealed w' (ap (λ z. z.0) sent) (ap (λ z. z.1) sent) in
            let opens =
              laws.decrypt-encrypt_raw (key ∷ []) [] (keys.user_keys ++ keys.addr_keys) key id.clear
                sealed.encrypted w w' here (self_key-Holds keys key own) done in
            rw opens refl
      ]

module _ {S P W : Type 0} (pgp : PgpProvider S P W) (utf : Utf8) where
  armored-ok :
      (x : Result WalletCryptoError (Bytes × Bytes) × W) (locked : LockedWalletKey) (w : W)
      → armored pgp utf x.0 ≡ ok locked
      → x.1 ≡ w
      → x ≡ (ok (utf.as_bytes locked.encrypted, utf.as_bytes locked.signature), w)
  armored-ok (err e, w') locked w h now' = cc
  armored-ok (ok (text', signature), w') locked w h now' =
      elim (Result-cases (utf.from_utf8 text')) [
        | inl (e, bad) ↦ let k = rw bad at h in cc
        | inr (s, good) ↦ elim (Result-cases (utf.from_utf8 signature)) [
          | inl (e, bad) ↦ let k = rw (good, bad) at h in cc
          | inr (t, fine) ↦
              let k = rw (good, fine) at h in
              let own = utf.as_bytes-from_utf8 text' s good in
              let own' = utf.as_bytes-from_utf8 signature t fine in
              let same : locked.encrypted ≡ s =
                ap (λ z. elim z [ ok l ↦ l.encrypted | err e ↦ s ]) (sym k) in
              let same' : locked.signature ≡ t =
                ap (λ z. elim z [ ok l ↦ l.signature | err e ↦ t ]) (sym k) in
              rw (same, same', own, own', now') refl
        ]
      ]

  -- A wallet key of 32 bytes that was locked with a user key is unlocked with any keys that include
  -- this one.
  pub unlock_with-lock_with :
      (laws : IsPgp pgp) (key : UnlockedWalletKey) (user_key : UnlockedKey S P)
      (user_keys : List (UnlockedKey S P)) (locked : LockedWalletKey) (w w' : W)
      → length key.bytes ≡ 32
      → In user_key user_keys
      → lock_with pgp utf key user_key w ≡ (ok locked, w')
      → unlock_with pgp utf locked user_keys ≡ some (ok key)
  unfolding lock_with unlock_with new
  unlock_with-lock_with laws key user_key user_keys locked w w' long member h =
      let done = armored-ok _ locked w' (ap (λ z. z.0) h) (ap (λ z. z.1) h) in
      let opens =
        laws.decrypt_verified-encrypt_signed user_key user_keys signature_context key.bytes
          (utf.as_bytes locked.encrypted) (utf.as_bytes locked.signature) w w' member done in
      rw (opens, (==_iff (length key.bytes) 32).1 long) refl

  -- What unlocking makes of the answer of the PGP library.
  abbrev pub Unlocked :
      Result Text (Bytes × Result Text (Unit {0}))
      → Option (Result WalletCryptoError UnlockedWalletKey)
      → Type 0
  Unlocked verified result =
      ((key : UnlockedWalletKey) × (result ≡ some (ok key))
        × (verified ≡ ok (key.bytes, ok tt))
        × (length key.bytes ≡ 32))
      ⊎ ((clear : Bytes) × (result ≡ none) × (verified ≡ ok (clear, ok tt)) × (length clear ≢ 32))
      ⊎ ((e : Text) × (clear : Bytes) × (result ≡ some (err (crypto_signature_verify e)))
          × (verified ≡ ok (clear, err e)))
      ⊎ ((e : Text) × (result ≡ some (err (crypto_error e))) × (verified ≡ err e))

  opened-Unlocked :
      (verified : Result Text (Bytes × Result Text (Unit {0})))
      → Unlocked verified (opened pgp utf verified)
  unfolding new
  opened-Unlocked (err e) = inr (inr (inr (e, refl, refl)))
  opened-Unlocked (ok (clear, err e)) = inr (inr (inl (e, clear, refl, refl)))
  opened-Unlocked (ok (clear, ok tt)) = elim (Bool-cases (length clear == 32)) [
    | inl long ↦ inl (new clear, rw long refl, refl, (==_iff (length clear) 32).0 long)
    | inr other ↦ inr (
        inl (
          clear,
          rw other refl,
          refl,
          (λ long. let same = (==_iff (length clear) 32).1 long in cc),
        ))
  ]

  -- Unlocking returns a key exactly where the PGP library opens the text with the user keys, verifies
  -- the signature with them for the context of wallet keys, and the bytes are 32, which are the key;
  -- where the bytes are not 32 it panics, and else it fails with the error of the library.
  pub unlock_with_cases :
      (locked : LockedWalletKey) (user_keys : List (UnlockedKey S P))
      → Unlocked
          (pgp.decrypt_verified user_keys
            (utf.as_bytes locked.signature)
            (codes "wallet.key")
            (utf.as_bytes locked.encrypted))
          (unlock_with pgp utf locked user_keys)
  unfolding unlock_with
  unlock_with_cases locked user_keys = opened-Unlocked _
