-- ===== src/Features/Wallets.antt =====
-- rust/src/proton_wallet/features/wallet/wallet_creation.rs and wallet_account_creation.rs: a new
-- wallet and a new account, encrypted before they are sent.
pub mod Sealed
use flutter_app.Common.{
  ℕ, Bool, true, false, Option, none, some, List, [], first, is_empty, Result, ok, err, Exec,
  map_err, pure, fail, lift, ok_or, ◌>>=◌, ◌>>◌, if◌then◌else◌, Text, codes,
}
use flutter_app.Errors.{
  ApiError, FeaturesError, ProviderError, WalletCryptoError, no_unlocked_user_key_found,
}
use flutter_app.Crypto.{Bytes, AesGcm, Base64, Utf8}
use flutter_app.Crypto.WalletKey.{UnlockedWalletKey, new}
use flutter_app.Crypto.Label.{
  Binary, EncryptedBinary, new_from_str, encrypt_with, encrypted_to_base64,
}
use flutter_app.Storage.UserKey.{LockedKey}
use flutter_app.Provider.WalletKeys.{LockedWalletKey}
use flutter_app.Features.{provided, requested, ciphered}

-- `CreateWalletRequestBody` and `CreateWalletAccountRequestBody`
pub record CreateWalletRequest : Type 0 where
  pub name : Text
  pub is_imported : ℕ
  pub type_ : ℕ
  pub has_passphrase : ℕ
  pub user_key_id : Text
  pub wallet_key : Text
  pub wallet_key_signature : Text
  pub mnemonic : Option Text
  pub fingerprint : Option Text
  pub public_key : Option Text
  pub is_auto_created : ℕ

pub record CreateWalletAccountRequest : Type 0 where
  pub derivation_path : Text
  pub label : Text
  pub script_type : ℕ

-- `WalletClientExt`, as far as these features use it; `A` and `B` are its answers.
pub record CreationClient (A B W : Type 0) : Type 0 where
  pub create_wallet : CreateWalletRequest → Exec ApiError W A
  pub create_wallet_account : (wallet_id : Text) → CreateWalletAccountRequest → Exec ApiError W B

abbrev some_as_u8 : {A : Type 0} → Option A → ℕ
some_as_u8 none = 0
some_as_u8 (some a) = 1

module _ {A B W : Type 0} (client : CreationClient A B W) (aes : AesGcm W) (base64 : Base64)
    (utf : Utf8) where
  -- `label.encrypt_with(&key)?.to_base64()`
  unfoldable pub sealed : Binary → UnlockedWalletKey → Exec FeaturesError W Text
  unfolding encrypt_with encrypted_to_base64
  sealed clear key w =
      let (r, w') = encrypt_with aes clear key w in
      (
        elim r [
          | ok e ↦ ok (encrypted_to_base64 base64 e)
          | err e ↦ err (FeaturesError.wallet_crypto e)
        ],
        w',
      )

  unfoldable pub select_name : Text → Text
  select_name wallet_name = if is_empty wallet_name then codes "My Wallet" else wallet_name

  -- `generate_key` gives a random key of 32 bytes, `unlock_with` the user keys that a passphrase
  -- opens, and `lock_with` is `UnlockedWalletKey::lock_with`.
  module _ {D : Type 0} (generate_key : W → Bytes × W)
      (get_primary_key : Exec ProviderError W LockedKey)
      (get_user_key_passphrase : Exec ProviderError W Text)
      (unlock_with : LockedKey → Text → List D)
      (lock_with : UnlockedWalletKey → D → Result WalletCryptoError LockedWalletKey) where
    -- what `create_wallet` does with the generated key
    unfoldable pub create_wallet_with :
        UnlockedWalletKey
        → (key_id wallet_name mnemonic_str fingerprint : Text) (wallet_type : ℕ)
          (wallet_passphrase : Option Text)
        → Exec FeaturesError W A
    unfolding sealed select_name new_from_str
    create_wallet_with wallet_key key_id wallet_name mnemonic_str fingerprint wallet_type
          wallet_passphrase =
        do
          encrypted_mnemonic ← sealed (new_from_str utf mnemonic_str) wallet_key
          encrypted_wallet_name ← sealed (new_from_str utf (select_name wallet_name)) wallet_key
          primary ← provided get_primary_key
          passphrase ← provided get_user_key_passphrase
          first_key ←
              lift (ok_or (first (unlock_with primary passphrase)) no_unlocked_user_key_found)
          encrypted ← ciphered (lock_with wallet_key first_key)
          requested (
              client.create_wallet (record {
                name = encrypted_wallet_name;
                is_imported = wallet_type;
                type_ = 1;
                has_passphrase = some_as_u8 wallet_passphrase;
                user_key_id = key_id;
                wallet_key = encrypted.encrypted;
                wallet_key_signature = encrypted.signature;
                mnemonic = some encrypted_mnemonic;
                fingerprint = some fingerprint;
                public_key = none;
                is_auto_created = 0;
              }))

    unfoldable pub create_wallet :
        (key_id wallet_name mnemonic_str fingerprint : Text) (wallet_type : ℕ)
        (wallet_passphrase : Option Text)
        → Exec FeaturesError W A
    unfolding create_wallet_with new
    create_wallet key_id wallet_name mnemonic_str fingerprint wallet_type wallet_passphrase w =
        let (key, w') = generate_key w in
        create_wallet_with (new key) key_id wallet_name mnemonic_str fingerprint wallet_type
          wallet_passphrase w'

  unfoldable pub create_wallet_account :
      (get_unlocked_wallet_key : Text → Exec ProviderError W UnlockedWalletKey)
      → (get_new_derivation_path : Text → ℕ → ℕ → Exec ProviderError W Text)
      → (wallet_id : Text) (script_type : ℕ) (label : Text) (bip_version coin_type : ℕ)
      → Exec FeaturesError W B
  unfolding sealed new_from_str
  create_wallet_account get_unlocked_wallet_key get_new_derivation_path wallet_id script_type label
        bip_version coin_type =
      do
        unlocked_wallet_key ← provided (get_unlocked_wallet_key wallet_id)
        encrypted_label ← sealed (new_from_str utf label) unlocked_wallet_key
        derivation_path ← provided (get_new_derivation_path wallet_id bip_version coin_type)
        requested (
            client.create_wallet_account wallet_id (record {
              derivation_path = derivation_path;
              label = encrypted_label;
              script_type = script_type;
            }))
