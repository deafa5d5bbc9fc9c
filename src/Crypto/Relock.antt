-- ===== src/Crypto/Relock.antt =====
-- `LockedPrivateKeys::relock_user_key_with` of rust/src/proton_wallet/crypto/private_key.rs: the user
-- keys are locked with a new secret.
use flutter_app.Common.{
  ℕ, ◌≡◌, refl, sym, ap, All, ==_iff, ◌∙◌, Bool, true, false, not, ◌||◌, List, [], ◌∷◌, Result, ok,
  err, and_then, length, ◌==◌, if◌then◌else◌, Text, codes, arith,
}
use flutter_app.Errors.{WalletCryptoError, account_crypto, relock_key_count_mismatch}
use flutter_app.Storage.UserKey.{LockedKey}

-- `RelockedKey`
pub record RelockedKey : Type 0 where
  pub private_key : Text
  pub key_id : Text

-- The PGP calls, on unlocked keys `D`: `UserKeys::unlock` gives the keys that open and the number of
-- those that fail, `LocalUserKey::relock_user_key` a private key.
pub record Pgp (D : Type 0) : Type 0 where
  pub unlock : List LockedKey → (secret : Text) → List D × ℕ
  pub relock_user_key : D → (secret : Text) → Result Text Text
  pub id : D → Text

module _ {D : Type 0} (pgp : Pgp D) (new_key_secret : Text) where
  abbrev relocked : D → Result Text Text → Result WalletCryptoError RelockedKey
  relocked key (ok private_key) = ok (record { private_key = private_key; key_id = pgp.id key })
  relocked key (err e) = err (account_crypto e)

  abbrev cons :
      Result WalletCryptoError RelockedKey
      → Result WalletCryptoError (List RelockedKey)
      → Result WalletCryptoError (List RelockedKey)
  cons (ok key) (ok keys) = ok (key ∷ keys)
  cons (ok key) (err e) = err e
  cons (err e) rest = err e

  -- the `for` loop
  unfoldable pub relock_all : List D → Result WalletCryptoError (List RelockedKey)
  relock_all [] = ok []
  relock_all (key ∷ keys) =
      cons (relocked key (pgp.relock_user_key key new_key_secret)) (relock_all keys)

  abbrev counted : ℕ → List RelockedKey → Result WalletCryptoError (List RelockedKey)
  counted n keys =
      if not (length keys == n)
      then err (relock_key_count_mismatch (codes "Lock User Keys"))
      else ok keys

  unfoldable pub relock_user_key_with :
      List LockedKey → (old_key_secret : Text) → Result WalletCryptoError (List RelockedKey)
  unfolding relock_all
  relock_user_key_with user_keys old_key_secret =
      let (unlocked_keys, failed) = pgp.unlock user_keys old_key_secret in
      if not (failed == 0) || not (length unlocked_keys == length user_keys)
      then err (relock_key_count_mismatch (codes "Unlock User Keys"))
      else and_then (relock_all unlocked_keys) (counted (length user_keys))

  abbrev pub ids : List RelockedKey → List Text
  ids [] = []
  ids (k ∷ ks) = k.key_id ∷ ids ks

  abbrev pub unlocked_ids : List D → List Text
  unlocked_ids [] = []
  unlocked_ids (d ∷ ds) = pgp.id d ∷ unlocked_ids ds

  cons-ok :
      (r : Result WalletCryptoError RelockedKey) (rs : Result WalletCryptoError (List RelockedKey))
      (keys : List RelockedKey)
      → cons r rs ≡ ok keys
      → (k : RelockedKey) × (ks : List RelockedKey) × (r ≡ ok k) × (rs ≡ ok ks) × (keys ≡ k ∷ ks)
  cons-ok (ok k) (ok ks) keys h = (k, ks, refl, refl, cc)
  cons-ok (ok k) (err e) keys h = cc
  cons-ok (err e) rs keys h = cc

  relocked-id :
      (d : D) (r : Result Text Text) (k : RelockedKey) → relocked d r ≡ ok k → k.key_id ≡ pgp.id d
  relocked-id d (ok key) k h = ap (λ z. elim z [ ok k ↦ k.key_id | err e ↦ pgp.id d ]) (sym h)
  relocked-id d (err e) k h = cc

  relock_all-ids :
      (ds : List D) (keys : List RelockedKey)
      → relock_all ds ≡ ok keys
      → (ids keys ≡ unlocked_ids ds) × (length keys ≡ length ds)
  unfolding relock_all
  relock_all-ids [] keys h = let e : keys ≡ [] = cc in (rw e refl, rw e refl)
  relock_all-ids (d ∷ ds) keys h =
      let (k, ks, one, rest, whole) = cons-ok _ (relock_all ds) keys h in
      let (same, long) = relock_all-ids ds ks rest in
      let own = relocked-id d (pgp.relock_user_key d new_key_secret) k one in
      (rw (whole, own, same) refl, rw (whole, long) refl)

  guard-ok :
      (t : Bool) (e : WalletCryptoError) (r : Result WalletCryptoError (List RelockedKey))
      (keys : List RelockedKey)
      → (if t then err e else r) ≡ ok keys
      → (t ≡ false) × (r ≡ ok keys)
  guard-ok true e r keys h = cc
  guard-ok false e r keys h = (refl, h)

  and_then-ok :
      (r : Result WalletCryptoError (List RelockedKey))
      (f : List RelockedKey → Result WalletCryptoError (List RelockedKey)) (keys : List RelockedKey)
      → and_then r f ≡ ok keys
      → (ks : List RelockedKey) × (r ≡ ok ks) × (f ks ≡ ok keys)
  and_then-ok (ok ks) f keys h = (ks, refl, h)
  and_then-ok (err e) f keys h = cc

  pub relock_user_key_with-ok :
      (user_keys : List LockedKey) (old_key_secret : Text) (keys : List RelockedKey)
      → relock_user_key_with user_keys old_key_secret ≡ ok keys
      → ((pgp.unlock user_keys old_key_secret).1 ≡ 0)
        × (length keys ≡ length user_keys)
        × (ids keys ≡ unlocked_ids (pgp.unlock user_keys old_key_secret).0)
  unfolding relock_user_key_with
  relock_user_key_with-ok user_keys old_key_secret keys h =
      let opened = pgp.unlock user_keys old_key_secret in
      let (sound, rest) =
        guard-ok (not (opened.1 == 0) || not (length opened.0 == length user_keys)) _ _ keys h in
      let (ks, all, counts) =
        and_then-ok (relock_all opened.0) (counted (length user_keys)) keys rest in
      let (_, same') = guard-ok (not (length ks == length user_keys)) _ (ok ks) keys counts in
      let same : ks ≡ keys = cc in
      let (own, long) = relock_all-ids opened.0 keys (rw same at all) in
      let none_failed : opened.1 ≡ 0 = ground (arith, sound) in
      let as_many : length opened.0 ≡ length user_keys = ground (arith, sound, none_failed) in
      (none_failed, long ∙ as_many, own)

  relock_all-total :
      (ds : List D)
      → All (λ d. (s : Text) × (pgp.relock_user_key d new_key_secret ≡ ok s)) ds
      → (keys : List RelockedKey) × (relock_all ds ≡ ok keys)
  unfolding relock_all
  relock_all-total [] all = ([], refl)
  relock_all-total (d ∷ ds) ((s, locks), all) =
      let (keys, rest) = relock_all-total ds all in
      (record { private_key = s; key_id = pgp.id d } ∷ keys, (rw (locks, rest) refl))

  -- Where every user key opens with the old secret and locks with the new one, all are relocked: the
  -- count of the new keys never fails.
  pub relock_user_key_with-total :
      (user_keys : List LockedKey) (old_key_secret : Text) (ds : List D)
      → pgp.unlock user_keys old_key_secret ≡ (ds, 0)
      → length ds ≡ length user_keys
      → All (λ d. (s : Text) × (pgp.relock_user_key d new_key_secret ≡ ok s)) ds
      → (keys : List RelockedKey) × (relock_user_key_with user_keys old_key_secret ≡ ok keys)
        × (ids keys ≡ unlocked_ids ds)
  unfolding relock_user_key_with
  relock_user_key_with-total user_keys old_key_secret ds opened long all =
      let (keys, done) = relock_all-total ds all in
      let (own, same) = relock_all-ids ds keys done in
      let opens : (length ds == length user_keys) ≡ true =
        (==_iff (length ds) (length user_keys)).1 long in
      let counts : (length keys == length user_keys) ≡ true =
        (==_iff (length keys) (length user_keys)).1 (same ∙ long) in
      (keys, (rw (opened, opens, done, counts) refl), own)
