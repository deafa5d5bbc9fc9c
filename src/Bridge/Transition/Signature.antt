-- ===== src/Bridge/Transition/Signature.antt =====
-- rust/src/api/proton_wallet/features/transition_layer.rs: the calls that sign a message and verify a
-- signature.
use flutter_app.Common.{
  Bool, none, some, List, [], ◌∷◌, first, Result, ok, err, Exec, map_err, and_then, Text, codes,
}
use flutter_app.Errors.{WalletCryptoError}
use flutter_app.Bridge.{BridgeError, Debug, from_wallet_crypto, from_crypto, from_utf8_error}
use flutter_app.Storage.UserKey.{ProtonUserKey}
use flutter_app.Storage.AddressKey.{ProtonAddressKey}
use flutter_app.Crypto.{Bytes, Utf8}
use flutter_app.Crypto.Pgp.{PgpProvider, add_armored_keys}
use flutter_app.Crypto.Message.{verify}
use flutter_app.Bridge.Transition.{unlocked}

module _ {S P W : Type 0} (pgp : PgpProvider S P W) (utf : Utf8) (debug : Debug) where
  abbrev verified : Result WalletCryptoError (Unit {0}) × List P → Result WalletCryptoError (List P)
  verified (ok _, pub_keys) = ok pub_keys
  verified (err e, pub_keys) = err e

  unfoldable pub verify_signature :
      (verifier : List Text) → (message signature context : Text) → Result BridgeError Bool
  unfolding add_armored_keys verify
  verify_signature verifier message signature context = map_err (from_wallet_crypto debug) (
      and_then (verified (add_armored_keys pgp verifier []))
        (λ pub_keys. verify pgp utf (utf.as_bytes message) pub_keys signature context))

  abbrev pub signed : Result Text Bytes → Result BridgeError Text
  signed r =
      and_then (map_err (from_crypto debug) r)
        (λ signature. map_err (from_utf8_error debug) (utf.from_utf8 signature))

  unfoldable pub sign :
      List ProtonUserKey
      → (addr_key : ProtonAddressKey) → (user_key_password message context : Text)
      → Exec BridgeError W Text
  unfolding unlocked
  sign user_keys addr_key user_key_password message context w =
      elim (first (unlocked pgp utf debug user_keys (addr_key ∷ []) user_key_password).addr_keys) [
        | none ↦ (err (BridgeError.generic (codes "No unlocked address key found")), w)
        | some unlocked_address_key ↦
            let (r, w') = pgp.sign_detached unlocked_address_key context (utf.as_bytes message) w in
            (signed r, w')
      ]
