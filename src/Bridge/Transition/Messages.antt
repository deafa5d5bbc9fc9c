-- ===== src/Bridge/Transition/Messages.antt =====
-- Messages and ids that the app decrypts, one by one or together, and messages that it encrypts:
-- rust/src/api/proton_wallet/features/transition_layer.rs.
use flutter_app.Common.{
  ◌≡◌, refl, ap, subst, ◌∙◌, inl, inr, Option, none, some, List, [], ◌∷◌, ◌++◌, In, here, there,
  In-append_left, In-append_right, Result, ok, err, Result-cases, map_err, and_then, unwrap_or,
  Text,
}
use flutter_app.Errors.{WalletCryptoError, crypto_error}
use flutter_app.Bridge.{BridgeError, Debug, from_wallet_crypto}
use flutter_app.Storage.UserKey.{ProtonUserKey}
use flutter_app.Storage.AddressKey.{ProtonAddressKey}
use flutter_app.Crypto.{Bytes, Utf8}
use flutter_app.Crypto.Label.{new_from_str, as_utf8_string as label_string}
use flutter_app.Crypto.Pgp.{
  PgpProvider, IsPgp, UnlockedPrivateKeys, Holds, add_armored_keys, add_armored_key,
  import_and_add_key,
}
use flutter_app.Crypto.Message.{as_armored, encrypt_with, message, signing_keys_of}
use flutter_app.Crypto.TransactionId
use flutter_app.Crypto.TransactionId.{as_utf8_string, from_text}
use flutter_app.Bridge.Transition.{
  FrbTlEncryptedTransactionId, FrbTlTransactionId, FrbSenderBody, unlocked, decrypted_id,
  decrypted_part, decrypt_transaction_id, decrypt_messages, encrypted_to,
  encrypt_messages_with_keys,
}

module _ {S P W : Type 0} (pgp : PgpProvider S P W) (utf : Utf8) (debug : Debug)
    (user_keys : List ProtonUserKey) (addr_keys : List ProtonAddressKey) (password : Text) where
  -- the results are those of the ids, each with its index, in order
  abbrev pub Decrypted : List FrbTlEncryptedTransactionId → List FrbTlTransactionId → Type 0
  Decrypted [] [] = Unit
  Decrypted (t ∷ ts) (r ∷ rs) =
      (r.index ≡ t.index)
      × (decrypt_transaction_id pgp utf debug user_keys addr_keys password
            t.encrypted_transaction_id
          ≡ ok r.transaction_id)
      × Decrypted ts rs
  Decrypted ts rs = ⊥

  -- a part of a message is what its id would be, and empty where it is missing
  abbrev pub PartOf : Option Text → Text → Type 0
  PartOf none part = part ≡ []
  PartOf (some m) part =
      decrypt_transaction_id pgp utf debug user_keys addr_keys password m ≡ ok part

  default-clear : unwrap_or (as_utf8_string utf TransactionId.default) [] ≡ []
  unfolding as_utf8_string TransactionId.default
  default-clear =
      let nothing : utf.from_utf8 [] ≡ ok [] =
        subst (λ (bytes : Bytes). utf.from_utf8 bytes ≡ ok []) utf.as_bytes-nil
          (utf.from_utf8-as_bytes []) in
      rw nothing refl

  part-id :
      (keys : UnlockedPrivateKeys S P) (m : Text)
      → decrypted_id pgp utf debug keys m ≡ decrypted_part pgp utf debug keys (some m)
  unfolding decrypted_id decrypted_part
  part-id keys m = elim (Result-cases (TransactionId.decrypt_with pgp (from_text utf m) keys)) [
    | inl (e, failed) ↦ rw failed default-clear
    | inr (id, opened) ↦ rw opened refl
  ]

  decrypted_part-PartOf :
      (m : Option Text)
      → PartOf m
          (decrypted_part pgp utf debug (unlocked pgp utf debug user_keys addr_keys password) m)
  unfolding decrypt_transaction_id decrypted_part
  decrypted_part-PartOf none = refl
  decrypted_part-PartOf (some m) =
      ap ok (part-id (unlocked pgp utf debug user_keys addr_keys password) m)

  -- Decrypting a message never fails; each of its parts is what the id of a transaction would be if it
  -- were decrypted from the same text, and empty where the part is missing.
  pub decrypt_messages_lem :
      (to_list sender body : Option Text)
      → (m : FrbSenderBody) × (decrypt_messages pgp utf debug user_keys addr_keys password to_list
            sender body
          ≡ ok m)
        × PartOf to_list m.to_list
        × PartOf sender m.sender
        × PartOf body m.body
  unfolding decrypt_messages
  decrypt_messages_lem to_list sender body = (
    _,
    refl,
    decrypted_part-PartOf to_list,
    decrypted_part-PartOf sender,
    decrypted_part-PartOf body,
  )

module _ {S P W : Type 0} (pgp : PgpProvider S P W) where
  import-err :
      (k e : Text) (added : List P)
      → pgp.public_key_import k ≡ err e
      → import_and_add_key pgp k added ≡ (err (crypto_error e), added)
  unfolding import_and_add_key
  import-err k e added h = rw (h, import_and_add_key) refl

  pub import-ok :
      (k : Text) (p : P) (added : List P)
      → pgp.public_key_import k ≡ ok p
      → import_and_add_key pgp k added ≡ (ok tt, added ++ (p ∷ []))
  unfolding import_and_add_key
  import-ok k p added h = rw (h, import_and_add_key) refl

  add_armored_keys-keeps :
      (keys : List Text) (added : List P) {p : P}
      → In p added
      → In p (add_armored_keys pgp keys added).1
  unfolding add_armored_keys add_armored_key
  add_armored_keys-keeps [] added m = m
  add_armored_keys-keeps (k ∷ keys) added m = elim (Result-cases (pgp.public_key_import k)) [
    | inl (e, failed) ↦ rw (import-err k e added failed) m
    | inr (q, found) ↦
        rw (import-ok k q added found)
          (add_armored_keys-keeps keys (added ++ (q ∷ [])) (In-append_left _ m))
  ]

  -- Where all keys were added, each is in the collection.
  pub add_armored_keys-In :
      (keys : List Text) (added : List P) (key : Text) (p : P)
      → (add_armored_keys pgp keys added).0 ≡ ok tt
      → In key keys
      → pgp.public_key_import key ≡ ok p
      → In p (add_armored_keys pgp keys added).1
  unfolding add_armored_keys add_armored_key
  add_armored_keys-In [] added key p done m h = elim m [ ]
  add_armored_keys-In (k ∷ keys) added key p done here h =
      rw (import-ok k p added h)
        (add_armored_keys-keeps keys (added ++ (p ∷ [])) (In-append_right added here))
  add_armored_keys-In (k ∷ keys) added key p done (there m) h =
      elim (Result-cases (pgp.public_key_import k)) [
        | inl (e, failed) ↦ let bad = rw (import-err k e added failed) at done in cc
        | inr (q, found) ↦ rw (import-ok k q added found) (
            add_armored_keys-In keys (added ++ (q ∷ [])) key p
              (rw (import-ok k q added found) at done) m h)
      ]

module _ {S P W : Type 0} (pgp : PgpProvider S P W) (utf : Utf8) (debug : Debug) where
  armored-ok :
      (x : Result Text Bytes × W) (armored : Text) (w : W)
      → map_err (from_wallet_crypto debug) (and_then (message pgp x.0) (as_armored utf))
        ≡ ok armored
      → x.1 ≡ w
      → (ciphertext : Bytes) × (x ≡ (ok ciphertext, w)) × (utf.from_utf8 ciphertext ≡ ok armored)
  unfolding as_armored label_string
  armored-ok (err e, w') armored w h k = cc
  armored-ok (ok ciphertext, w') armored w h k = elim (Result-cases (utf.from_utf8 ciphertext)) [
    | inl (e, bad) ↦ let no' = rw bad at h in cc
    | inr (s, good) ↦
        let same = rw good at h in (ciphertext, ap (λ z. (ok ciphertext, z)) k, good ∙ (cc))
  ]

  -- what a message was encrypted to, where the call returned it
  sent :
      (added : Result WalletCryptoError (Unit {0}) × List P) (message armored : Text)
      (signing_keys : Option (UnlockedPrivateKeys S P)) (w w' : W)
      → encrypted_to pgp utf debug added message signing_keys w ≡ (ok armored, w')
      → (added.0 ≡ ok tt)
        × ((ciphertext : Bytes) × (pgp.encrypt_raw added.1
                (signing_keys_of pgp signing_keys)
                (utf.as_bytes message)
                w
              ≡ (ok ciphertext, w'))
            × (utf.from_utf8 ciphertext ≡ ok armored))
  unfolding encrypted_to new_from_str encrypt_with as_armored from_wallet_crypto
  sent (err e, keys) message armored signing_keys w w' h = absurd (not-ok (ap (λ z. z.0) h))
    where
      not-ok : {b : BridgeError} {t : Text} → err b ≡ ok t → ⊥
      not-ok k = cc
  sent (ok u, keys) message armored signing_keys w w' h =
      (refl, armored-ok _ armored w' (ap (λ z. z.0) h) (ap (λ z. z.1) h))

  -- A message that was encrypted to some private keys is decrypted by whoever unlocks the private half
  -- of one of them, whether or not it was signed.
  pub decrypt_messages-encrypt_messages_with_keys :
      (laws : IsPgp pgp) (private_keys : List Text) (message armored : Text)
      (user_keys' : Option (List ProtonUserKey)) (addr_keys' : Option (List ProtonAddressKey))
      (password' : Option Text) (user_keys : List ProtonUserKey) (addr_keys : List ProtonAddressKey)
      (password private_key : Text) (public_key : P) (w w' : W)
      → encrypt_messages_with_keys pgp utf debug private_keys message user_keys' addr_keys'
          password' w
        ≡ (ok armored, w')
      → In private_key private_keys
      → pgp.public_key_import private_key ≡ ok public_key
      → Holds
          ((unlocked pgp utf debug user_keys addr_keys password).user_keys
            ++ (unlocked pgp utf debug user_keys addr_keys password).addr_keys)
          public_key
      → decrypt_messages pgp utf debug user_keys addr_keys password none none (some armored)
        ≡ ok (record { to_list = []; sender = []; body = message })
  unfolding encrypt_messages_with_keys decrypt_messages decrypted_part TransactionId.decrypt_with
      TransactionId.new as_utf8_string from_text
  decrypt_messages-encrypt_messages_with_keys laws private_keys message armored user_keys'
        addr_keys' password' user_keys addr_keys password private_key public_key w w' h m imported
        held =
      let (added, (ciphertext, encrypted, text)) =
        sent (add_armored_keys pgp private_keys []) message armored _ w w' h in
      let member =
        add_armored_keys-In pgp private_keys [] private_key public_key added m imported in
      let opens =
        laws.decrypt-encrypt_raw (add_armored_keys pgp private_keys []).1 _ _ public_key
          (utf.as_bytes message) ciphertext w w' member held encrypted in
      let own = utf.as_bytes-from_utf8 ciphertext armored text in
      rw (own, opens, utf.from_utf8-as_bytes message) refl
