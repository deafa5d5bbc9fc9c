-- ===== src/Features/Wallets/Sealed.antt =====
-- What the wallet key opens of a request for a new wallet or account:
-- rust/src/proton_wallet/features/wallet/.
use flutter_app.Common.{
  continue-ok, map_err-ok, Result-cases, ℕ, ◌≡◌, inl, inr, Result, ok, Exec, map_err, and_then,
  Text,
}
use flutter_app.Errors.{FeaturesError, ProviderError, WalletCryptoError}
use flutter_app.Crypto.{AesGcm, Base64, Utf8}
use flutter_app.Crypto.WalletKey.{UnlockedWalletKey}
use flutter_app.Crypto.Label.{
  new_from_str, encrypt_with, decrypt_with, as_utf8_string, encrypted_to_base64,
  encrypted_new_from_base64,
}
use flutter_app.Crypto.RoundTrip.{label-decrypt-encrypt}
use flutter_app.Features.Wallets.{
  CreationClient, CreateWalletAccountRequest, sealed, create_wallet_account,
}

module _ {A B W : Type 0} (client : CreationClient A B W) (aes : AesGcm W) (base64 : Base64)
    (utf : Utf8) where
  -- a text read from base64, decrypted with the key and read as UTF-8
  abbrev pub opened : UnlockedWalletKey → Text → Result WalletCryptoError Text
  opened key text =
      and_then (encrypted_new_from_base64 base64 text)
        (λ received. and_then (decrypt_with aes received key) (as_utf8_string utf))

  opened-sealed :
      (key : UnlockedWalletKey) (plaintext text : Text) (w : W)
      → (sealed client aes base64 utf (new_from_str utf plaintext) key w).0 ≡ ok text
      → opened key text ≡ ok plaintext
  unfolding sealed
  opened-sealed key plaintext text w h =
      elim (Result-cases (encrypt_with aes (new_from_str utf plaintext) key w).0) [
        | inl (e, failed) ↦ cc (rw (failed, sealed) at h)
        | inr (e, done) ↦
            let whole : ok (encrypted_to_base64 base64 e) ≡ ok text = rw (done, sealed) at h in
            let same : encrypted_to_base64 base64 e ≡ text = cc in
            rw (← same) (label-decrypt-encrypt aes base64 utf key plaintext e w done)
      ]

  -- Where an account is created, the request that the server answered carries a label that the
  -- unlocked key of the wallet opens to the label that was given, and the new derivation path that
  -- the provider chose for the wallet.
  pub create_wallet_account-ok :
      (get_unlocked_wallet_key : Text → Exec ProviderError W UnlockedWalletKey)
      (get_new_derivation_path : Text → ℕ → ℕ → Exec ProviderError W Text) (wallet_id : Text)
      (script_type : ℕ) (label : Text) (bip_version coin_type : ℕ) (w : W) (answer : B)
      → (create_wallet_account client aes base64 utf get_unlocked_wallet_key get_new_derivation_path
          wallet_id script_type label bip_version coin_type w).0
        ≡ ok answer
      → (request : CreateWalletAccountRequest) × (key : UnlockedWalletKey) × (w2 : W)
        × ((get_unlocked_wallet_key wallet_id w).0 ≡ ok key)
        × (opened key request.label ≡ ok label)
        × ((get_new_derivation_path wallet_id bip_version coin_type w2).0
            ≡ ok request.derivation_path)
        × ((client.create_wallet_account wallet_id request
              (get_new_derivation_path wallet_id bip_version coin_type w2).1).0
            ≡ ok answer)
  unfolding create_wallet_account
  create_wallet_account-ok get_unlocked_wallet_key get_new_derivation_path wallet_id script_type
        label bip_version coin_type w answer h =
      let got = get_unlocked_wallet_key wallet_id w in
      let (key, k, h1) = continue-ok (map_err FeaturesError.provider got.0) _ got.1 answer h in
      let seal = sealed client aes base64 utf (new_from_str utf label) key got.1 in
      let (text, t, h2) = continue-ok seal.0 _ seal.1 answer h1 in
      let chosen = get_new_derivation_path wallet_id bip_version coin_type seal.1 in
      let (path, p, h3) =
        continue-ok (map_err FeaturesError.provider chosen.0) _ chosen.1 answer h2 in
      (
        record { derivation_path = path; label = text; script_type = script_type },
        key,
        seal.1,
        map_err-ok FeaturesError.provider got.0 key k,
        opened-sealed key label text got.1 t,
        map_err-ok FeaturesError.provider chosen.0 path p,
        map_err-ok FeaturesError.andromeda_api _ answer h3,
      )
