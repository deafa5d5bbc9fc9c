-- ===== src/Features/PasswordScope.antt =====
-- rust/src/proton_wallet/features/proton_settings/password_scope.rs and twofa.rs, and `view_seed` of
-- backup_mnemonic.rs.
pub mod Guarded
use flutter_app.Common.{
  ℕ, Bool, some, none, Result, ok, err, Exec, pure, fail, ◌>>=◌, ◌>>◌, if◌then◌else◌, Text, text_eq,
}
use flutter_app.Errors.{ApiError, FeaturesError, ProviderError, invalid_srp_server_proofs}
use flutter_app.Crypto.{Utf8}
use flutter_app.Crypto.Label.{Binary, as_utf8_string}
use flutter_app.Provider.Auth.{
  AuthClient, SrpClient, ClientProofs, api, auth_info, generate_srp_proofs, generate_client_proofs,
  build_client_proofs,
}
use flutter_app.Features.{provided, requested, ciphered}

-- The proof of the password is sent with `send`, and the server must answer the expected proof. The
-- body of `PasswordScopeImpl::unlock_password_change` and of `ProtonRecovery::disable_recovery`.
module _ {W : Type 0} (client : AuthClient W) (srp : SrpClient) where
  unfoldable pub prove_password :
      (send : ClientProofs → Exec FeaturesError W Text)
      → (login_password twofa : Text) → Exec FeaturesError W (Unit {0})
  unfolding auth_info generate_srp_proofs build_client_proofs
  prove_password send login_password twofa = do
    info ← provided (auth_info client srp)
    srp_proof ← provided (generate_srp_proofs client srp login_password (some info))
    server_proofs ← send (build_client_proofs twofa info srp_proof)
    if text_eq srp_proof.expected_server_proof server_proofs
        then pure tt
        else fail invalid_srp_server_proofs

  unfoldable pub unlock_password_change :
      (login_password twofa : Text) → Exec FeaturesError W (Unit {0})
  unfolding prove_password
  unlock_password_change login_password twofa =
      prove_password (λ proofs. provided (api (client.unlock_password_change proofs)))
        login_password twofa

  -- `two_fa_status` of `ProtonRecovery` and `BackupMnemonic`
  unfoldable pub two_fa_status : Exec FeaturesError W ℕ
  unfolding auth_info
  two_fa_status = do info ← provided (auth_info client srp); pure info.two_fa_enabled

-- `PasswordScope`, as other features use it
pub record PasswordScope (W : Type 0) : Type 0 where
  pub unlock : (login_password twofa : Text) → Exec FeaturesError W (Unit {0})

-- `ProtonSettingsClientExt`, as far as the second factor uses it; `R` and `S` are its answers.
pub record TwoFaClient (R S W : Type 0) : Type 0 where
  pub enable_2fa_totp : (totp_confirmation : Text) → Exec ApiError W R
  pub disable_2fa_totp : ClientProofs → Exec ApiError W S

-- `MnemonicResult`
pub record MnemonicResult : Type 0 where
  pub wallet_id : Text
  pub wallet_name : Text
  pub wallet_mnemonic : Text

module _ {W : Type 0} (scope : PasswordScope W) where
  unfoldable pub enable_twofa :
      {R S : Type 0} → TwoFaClient R S W → (login_password twofa : Text) → Exec FeaturesError W R
  enable_twofa settings login_password twofa = do
    scope.unlock login_password twofa
    requested (settings.enable_2fa_totp twofa)

  -- `BackupMnemonic::view_seed`, with the providers of mnemonics and names
  unfoldable pub view_seed :
      Utf8
      → (get_wallet_mnemonic : Text → Exec ProviderError W Binary)
      → (get_wallet_name : Text → Exec ProviderError W Text)
      → (wallet_id login_password twofa : Text) → Exec FeaturesError W MnemonicResult
  unfolding as_utf8_string
  view_seed utf get_wallet_mnemonic get_wallet_name wallet_id login_password twofa = do
    scope.unlock login_password twofa
    str_mnemonic ← provided (get_wallet_mnemonic wallet_id)
    wallet_name ← provided (get_wallet_name wallet_id)
    words ← ciphered (as_utf8_string utf str_mnemonic)
    pure (record { wallet_id = wallet_id; wallet_name = wallet_name; wallet_mnemonic = words })

unfoldable pub disable_twofa :
    {R S W : Type 0}
    → AuthClient W
    → SrpClient
    → TwoFaClient R S W
    → (login_password twofa : Text) → Exec FeaturesError W S
unfolding generate_client_proofs
disable_twofa client srp settings login_password twofa = do
  client_proof ← provided (generate_client_proofs client srp login_password twofa none)
  requested (settings.disable_2fa_totp client_proof)
