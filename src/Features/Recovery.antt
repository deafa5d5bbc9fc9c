-- ===== src/Features/Recovery.antt =====
-- rust/src/proton_wallet/features/proton_recovery.rs: the recovery phrase of the account.
pub mod Enabled
use flutter_app.Common.{
  ℕ, Option, none, some, List, [], ◌∷◌, Result, ok, err, Exec, map_err, pure, fail, lift, ◌>>=◌,
  ◌>>◌, ◌==◌, if◌then◌else◌, Text,
}
use flutter_app.Errors.{
  ApiError, FeaturesError, ProviderError, WalletCryptoError, andromeda_bitcoin,
  lock_sensitive_settings,
}
use flutter_app.Crypto.{Bytes, Base64, Utf8}
use flutter_app.Crypto.Password.{compute_key_password}
use flutter_app.Crypto.Relock.{Pgp, RelockedKey, relock_user_key_with}
use flutter_app.Provider.Auth.{
  AuthClient, AuthVerifier, SrpClient, ClientProofs, generate_auth_module,
}
use flutter_app.Provider.UserKeys.{UserKeysProvider}
use flutter_app.Features.{provided, requested, ciphered}
use flutter_app.Features.PasswordScope.{PasswordScope, prove_password}

-- `UpdateMnemonicSettingsRequestBody` with its `MnemonicUserKey`s and `MnemonicAuth`
pub record UpdateMnemonicSettings : Type 0 where
  pub mnemonic_user_keys : List RelockedKey
  pub mnemonic_salt : Text
  pub mnemonic_auth : AuthVerifier

-- `ProtonSettingsClientExt` and `get_user_info`, as far as recovery uses them
pub record RecoveryClient (W : Type 0) : Type 0 where
  pub set_mnemonic_settings : UpdateMnemonicSettings → Exec ApiError W ℕ
  pub reactive_mnemonic_settings : UpdateMnemonicSettings → Exec ApiError W ℕ
  pub disable_mnemonic_settings : ClientProofs → Exec ApiError W Text
  pub get_user_info_mnemonic_status : Exec ApiError W ℕ

-- What else it calls: 16 random bytes, the words of an entropy and the hash of a password.
pub record RecoveryTools (W : Type 0) : Type 0 where
  pub generate_secure_random_bytes : W → Bytes × W
  pub words : Bytes → Result Text (List Text)
  pub mailbox_password_hash : Text → Bytes → Result Text Bytes

module _ {D W : Type 0} (client : AuthClient W) (srp : SrpClient) (settings : RecoveryClient W)
    (scope : PasswordScope W) (user_keys_provider : UserKeysProvider W) (pgp : Pgp D)
    (base64 : Base64) (utf : Utf8) (tools : RecoveryTools W) where
  unfoldable pub recovery_status : Exec FeaturesError W ℕ
  recovery_status = requested settings.get_user_info_mnemonic_status

  abbrev random : Exec FeaturesError W Bytes
  random w = let (bytes, w') = tools.generate_secure_random_bytes w in (ok bytes, w')

  -- The words of a new recovery phrase with the request that registers it: what `enable_recovery`
  -- and `reactive_recovery` do between the password scope and the request.
  unfoldable pub new_recovery : Exec FeaturesError W (List Text × UpdateMnemonicSettings)
  unfolding compute_key_password relock_user_key_with generate_auth_module
  new_recovery = do
    salt_bytes ← random
    random_entropy_bytes ← random
    mnemonic_words ← lift (map_err andromeda_bitcoin (tools.words random_entropy_bytes))
    new_hashed_password ← ciphered (
        compute_key_password utf tools.mailbox_password_hash (base64.encode random_entropy_bytes)
          salt_bytes)
    user_keys ← provided user_keys_provider.get_user_keys
    passphrase ← provided user_keys_provider.get_user_key_passphrase
    new_private_keys ← ciphered (relock_user_key_with pgp new_hashed_password user_keys passphrase)
    auth_module ← provided (generate_auth_module client srp (base64.encode random_entropy_bytes))
    pure (
      mnemonic_words,
      record {
        mnemonic_user_keys = new_private_keys;
        mnemonic_salt = base64.encode salt_bytes;
        mnemonic_auth = auth_module;
      },
    )

  unfoldable pub enable_recovery : (login_password twofa : Text) → Exec FeaturesError W (List Text)
  unfolding new_recovery
  enable_recovery login_password twofa = do
    scope.unlock login_password twofa
    recovery ← new_recovery
    recovery_code ← requested (settings.set_mnemonic_settings recovery.1)
    lock_code ← requested client.lock_sensitive_settings
    if lock_code == 1000 then pure recovery.0 else fail (lock_sensitive_settings lock_code)

  abbrev unlock_given : Option Text → Text → Exec FeaturesError W (Unit {0})
  unlock_given none twofa = pure tt
  unlock_given (some login_password) twofa = scope.unlock login_password twofa

  unfoldable pub reactive_recovery :
      (login_password : Option Text) (twofa : Text) → Exec FeaturesError W (List Text)
  unfolding new_recovery
  reactive_recovery login_password twofa = do
    unlock_given login_password twofa
    recovery ← new_recovery
    recovery_code ← requested (settings.reactive_mnemonic_settings recovery.1)
    pure recovery.0

  unfoldable pub disable_recovery : (login_password twofa : Text) → Exec FeaturesError W (Unit {0})
  unfolding prove_password
  disable_recovery login_password twofa =
      prove_password client srp (λ proofs. requested (settings.disable_mnemonic_settings proofs))
        login_password twofa
