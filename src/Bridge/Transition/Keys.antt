-- ===== src/Bridge/Transition/Keys.antt =====
-- Wallet keys that the app encrypts and decrypts, and messages that it signs and verifies:
-- rust/src/api/proton_wallet/features/transition_layer.rs.
use flutter_app.Common.{
  ◌≡◌, refl, ap, subst, ◌∙◌, ◌⊎◌, inl, inr, true, none, some, List, [], ◌∷◌, In, here, there, first,
  Result, ok, err, Result-cases, map_err, Text, length,
}
use flutter_app.Errors.{WalletCryptoError}
use flutter_app.Api.{ApiWalletKey}
use flutter_app.Bridge.{Debug, from_wallet_crypto}
use flutter_app.Storage.UserKey.{ProtonUserKey, LockedKey, user_key_conversion_from_keys}
use flutter_app.Storage.AddressKey.{
  ProtonAddressKey, address_key_conversion, address_key_conversions, or_default,
}
use flutter_app.Crypto.{Bytes, Utf8}
use flutter_app.Crypto.WalletKey.{UnlockedWalletKey}
use flutter_app.Crypto.Pgp.{
  PgpProvider, IsPgp, UnlockedKey, unlock_with, from_keys, add_armored_keys, add_armored_key,
}
use flutter_app.Crypto.Message.{verify}
use flutter_app.Crypto.WalletLock
use flutter_app.Crypto.Opened.{unlock_with-lock_with}
use flutter_app.Provider.WalletKeys.{LockedWalletKey, locked}
use flutter_app.Bridge.Transition.{unlocked}
use flutter_app.Bridge.Transition.WalletKey.{
  unlocked_primary, encrypt_wallet_key, decrypt_wallet_key, bridged,
}
use flutter_app.Bridge.Transition.Signature.{sign, verify_signature, signed}
use flutter_app.Bridge.Transition.Messages.{import-ok}

first-cases :
    {A : Type 0} (xs : List A) → (first xs ≡ none) ⊎ ((x : A) × (first xs ≡ some x) × In x xs)
first-cases [] = inl refl
first-cases (x ∷ xs) = inr (x, refl, here)

map_err-eq-ok :
    {A : Type 0} (debug : Debug) (x : Result WalletCryptoError A) (a : A)
    → map_err (from_wallet_crypto debug) x ≡ ok a
    → x ≡ ok a
map_err-eq-ok debug (ok b) a h = cc
map_err-eq-ok debug (err e) a h = cc

module _ {S P W : Type 0} (pgp : PgpProvider S P W) (utf : Utf8) (debug : Debug) where
  -- A wallet key of 32 bytes that was encrypted for a user key is decrypted with the same user key and
  -- passphrase, from any key of the server that keeps the encrypted text and its signature.
  pub decrypt_wallet_key-encrypt_wallet_key :
      (laws : IsPgp pgp) (wallet_key : UnlockedWalletKey) (user_key : ProtonUserKey)
      (passphrase : Text) (sealed : LockedWalletKey) (stored : ApiWalletKey) (w w' : W)
      → length wallet_key.bytes ≡ 32
      → encrypt_wallet_key pgp utf debug wallet_key user_key passphrase w ≡ (ok sealed, w')
      → locked stored ≡ sealed
      → decrypt_wallet_key pgp utf debug stored user_key passphrase ≡ some (ok wallet_key)
  unfolding encrypt_wallet_key decrypt_wallet_key
  decrypt_wallet_key-encrypt_wallet_key laws wallet_key user_key passphrase sealed stored w w' long
        h same =
      let keys = (unlocked_primary pgp utf debug user_key passphrase).user_keys in
      elim (first-cases keys) [
        | inl empty ↦ let bad = rw (empty, encrypt_wallet_key) at h in cc
        | inr (key, found, member) ↦
            let sent = rw (found, encrypt_wallet_key) at h in
            let lock = WalletLock.lock_with pgp utf wallet_key key w in
            let done : lock.0 ≡ ok sealed =
              map_err-eq-ok debug lock.0 sealed (ap (λ z. z.0) sent) in
            let left : lock.1 ≡ w' = ap (λ z. z.1) sent in
            let opens =
              unlock_with-lock_with pgp utf laws wallet_key key keys sealed w w' long member
                (λ i. (done i, left i)) in
            ap (λ l. bridged pgp utf debug (WalletLock.unlock_with pgp utf l keys)) same
            ∙ ap (bridged pgp utf debug) opens
      ]

  address_key-imported :
      (laws : IsPgp pgp) (user_keys : List ProtonUserKey) (addr_key : ProtonAddressKey)
      (password private_key : Text) (key : UnlockedKey S P)
      → addr_key.private_key ≡ some private_key
      → In key (unlocked pgp utf debug user_keys (addr_key ∷ []) password).addr_keys
      → pgp.public_key_import private_key ≡ ok key.public_key
  unfolding unlocked unlock_with from_keys user_key_conversion_from_keys address_key_conversions
      address_key_conversion
  address_key-imported laws user_keys addr_key password private_key key h member =
      let (k, m, imported) = laws.unlocked_address_key _ _ _ key member in
      let own : k.private_key ≡ private_key = only m ∙ ap or_default h in
      subst (λ t. pgp.public_key_import t ≡ ok key.public_key) own imported
    where
      only :
          {k : LockedKey}
          → In k (address_key_conversion addr_key ∷ [])
          → k.private_key ≡ or_default addr_key.private_key
      only here = refl
      only (there m) = elim m [ ]

  signed-ok :
      (x : Result Text Bytes × W) (signature : Text) (w : W)
      → signed pgp utf debug x.0 ≡ ok signature
      → x.1 ≡ w
      → (sig : Bytes) × (x ≡ (ok sig, w)) × (utf.from_utf8 sig ≡ ok signature)
  signed-ok (err e, w') signature w h k = absurd (cc)
  signed-ok (ok sig, w') signature w h k = elim (Result-cases (utf.from_utf8 sig)) [
    | inl (e, bad) ↦ let no' = rw bad at h in cc
    | inr (s, good) ↦ let same = rw good at h in (sig, ap (λ z. (ok sig, z)) k, good ∙ (cc))
  ]

  -- What is signed with the key of an address verifies with the private key of the same address and
  -- with the same context, as long as the signature is a text.
  pub verify_signature-sign :
      (laws : IsPgp pgp) (user_keys : List ProtonUserKey) (addr_key : ProtonAddressKey)
      (password message context private_key signature : Text) (w w' : W)
      → addr_key.private_key ≡ some private_key
      → sign pgp utf debug user_keys addr_key password message context w ≡ (ok signature, w')
      → verify_signature pgp utf debug (private_key ∷ []) message signature context ≡ ok true
  unfolding sign verify_signature verify add_armored_keys add_armored_key
  verify_signature-sign laws user_keys addr_key password message context private_key signature w w'
        h s =
      let keys = (unlocked pgp utf debug user_keys (addr_key ∷ []) password).addr_keys in
      elim (first-cases keys) [
        | inl empty ↦ let bad = rw (empty, sign) at s in cc
        | inr (key, found, member) ↦
            let done = rw (found, sign) at s in
            let (sig, sent, text) =
              signed-ok _ signature w' (ap (λ z. z.0) done) (ap (λ z. z.1) done) in
            let imported =
              address_key-imported laws user_keys addr_key password private_key key h member in
            let own = utf.as_bytes-from_utf8 sig signature text in
            let verifies =
              laws.verify_detached-sign_detached key (key.public_key ∷ []) context
                (utf.as_bytes message) sig w w' here sent in
            rw (import-ok pgp private_key key.public_key [] imported, own, verifies) refl
      ]
