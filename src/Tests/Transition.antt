-- ===== src/Tests/Transition.antt =====
-- Messages, wallet keys and signatures at work:
-- rust/src/api/proton_wallet/features/transition_layer.rs.
use flutter_app.Common.{◌≡◌, refl, true, none, some, List, [], ◌∷◌, here, ok, codes}
use flutter_app.Api.{ApiWalletKey}
use flutter_app.Storage.UserKey.{ProtonUserKey}
use flutter_app.Storage.AddressKey.{ProtonAddressKey}
use flutter_app.Bridge.{Debug}
use flutter_app.Bridge.Transition.{
  FrbTlEncryptedTransactionId, decrypt_messages, encrypt_messages_with_keys, unlocked,
}
use flutter_app.Bridge.Transition.WalletKey.{encrypt_wallet_key, decrypt_wallet_key}
use flutter_app.Bridge.Transition.Signature.{sign, verify_signature}
use flutter_app.Bridge.Transition.Messages.{decrypt_messages-encrypt_messages_with_keys}
use flutter_app.Provider.WalletKeys.{locked}
use flutter_app.Bridge.Transition.Keys.{
  decrypt_wallet_key-encrypt_wallet_key, verify_signature-sign,
}
use flutter_app.Tests.Ciphers.{utf}
use flutter_app.Tests.Pgp.{pgp, pgp-IsPgp, alice, key_of_32, locked_32}

-- every error prints as nothing
abbrev pub debug : Debug
debug = record {
  foreign = λ e. e;
  api = λ e. [];
  provider = λ e. [];
  crypto = λ e. [];
  any = λ e. [];
  source = λ e. e;
  text = λ e. e;
}

abbrev user_key : ProtonUserKey
user_key = record {
  id = codes "k";
  version = 3;
  private_key = codes "armored";
  recovery_secret = none;
  recovery_secret_signature = none;
  token = none;
  fingerprint = [];
  primary = 1;
  active = 1;
}

abbrev address_key : ProtonAddressKey
address_key = record {
  id = codes "a";
  version = 3;
  public_key = [];
  private_key = some (codes "address");
  token = none;
  signature = none;
  primary = 1;
  active = 1;
  flags = 3;
}

abbrev two_ids : List FrbTlEncryptedTransactionId
two_ids =
    record { encrypted_transaction_id = codes "a"; index = 4 }
    ∷ record { encrypted_transaction_id = codes "b"; index = 2 }
    ∷ []

encrypts :
    encrypt_messages_with_keys pgp utf debug (codes "armored" ∷ []) (codes "hello") none none none 0
    ≡ (ok (codes "hello"), 0)
unfolding encrypt_messages_with_keys
encrypts = refl

decrypt_messages-encrypt_messages_with_keys_example :
    decrypt_messages pgp utf debug (user_key ∷ []) [] (codes "p") none none (some (codes "hello"))
    ≡ ok (record { to_list = []; sender = []; body = codes "hello" })
unfolding unlocked
decrypt_messages-encrypt_messages_with_keys_example =
    decrypt_messages-encrypt_messages_with_keys pgp utf debug pgp-IsPgp (codes "armored" ∷ [])
      (codes "hello") (codes "hello") none none none (user_key ∷ []) [] (codes "p")
      (codes "armored") (codes "armored") 0 0 encrypts here refl (alice, here, refl)

abbrev stored_key : ApiWalletKey
stored_key = record {
  wallet_id = codes "w";
  user_key_id = codes "k";
  wallet_key = locked_32.encrypted;
  wallet_key_signature = locked_32.signature;
}

locks_wallet_key :
    encrypt_wallet_key pgp utf debug key_of_32 user_key (codes "p") 0 ≡ (ok locked_32, 0)
unfolding encrypt_wallet_key
locks_wallet_key = refl

decrypt_wallet_key-encrypt_wallet_key_example :
    decrypt_wallet_key pgp utf debug stored_key user_key (codes "p") ≡ some (ok key_of_32)
unfolding locked
decrypt_wallet_key-encrypt_wallet_key_example =
    decrypt_wallet_key-encrypt_wallet_key pgp utf debug pgp-IsPgp key_of_32 user_key (codes "p")
      locked_32 stored_key 0 0 refl locks_wallet_key refl

signs :
    sign pgp utf debug (user_key ∷ []) address_key (codes "p") (codes "hello") (codes "c") 0
    ≡ (ok (codes "c"), 0)
unfolding sign
signs = refl

verify_signature-sign_example :
    verify_signature pgp utf debug (codes "address" ∷ []) (codes "hello") (codes "c") (codes "c")
    ≡ ok true
verify_signature-sign_example =
    verify_signature-sign pgp utf debug pgp-IsPgp (user_key ∷ []) address_key (codes "p")
      (codes "hello") (codes "c") (codes "address") (codes "c") 0 0 refl signs
