-- ===== src/Provider/Auth.antt =====
-- rust/src/proton_wallet/provider/proton_auth.rs and proton_auth_model.rs: the proofs of a login
-- password, with the records of rust/src/proton_api/proton_users.rs.
pub mod Proofs
use flutter_app.Common.{
  ℕ, Bool, not, ◌&&◌, Option, none, some, Result, ok, err, Exec, map_err, pure, lift, ◌>>=◌, ◌==◌,
  if◌then◌else◌, Text, codes,
}
use flutter_app.Errors.{ProviderError, ApiError, WalletCryptoError, wallet_crypto}

-- `GetAuthInfoResponseBody`
pub record AuthInfo : Type 0 where
  pub code : ℕ
  pub modulus : Text
  pub server_ephemeral : Text
  pub version : ℕ
  pub salt : Text
  pub srp_session : Text
  pub two_fa_enabled : ℕ

-- `ProtonSrpClientProofs`
pub record ClientProofs : Type 0 where
  pub client_ephemeral : Text
  pub client_proof : Text
  pub srp_session : Text
  pub two_factor_code : Option Text

-- `SRPProofB64` of proton_srp
pub record SrpProof : Type 0 where
  pub client_ephemeral : Text
  pub client_proof : Text
  pub expected_server_proof : Text

-- the answer of `get_auth_modulus`, and a `ClientVerifier`
pub record ServerModulus : Type 0 where
  pub modulus : Text
  pub modulus_id : Text

pub record ClientVerifier : Type 0 where
  pub version : ℕ
  pub salt : Text
  pub verifier : Text

-- `AuthVerifier`
pub record AuthVerifier : Type 0 where
  pub version : ℕ
  pub modulus_id : Text
  pub salt : Text
  pub verifier : Text

-- `ProtonUsersClientExt`, as far as logins use it, in a world `W`; and `SrpClient`
pub record AuthClient (W : Type 0) : Type 0 where
  pub get_auth_info : (intent : Text) → Exec ApiError W AuthInfo
  pub get_auth_modulus : Exec ApiError W ServerModulus
  pub unlock_password_change : ClientProofs → Exec ApiError W Text
  pub lock_sensitive_settings : Exec ApiError W ℕ

pub record SrpClient : Type 0 where
  pub generate_proofs :
      (login_password : Text) (version : ℕ) (salt modulus server_ephemeral : Text)
      → Result WalletCryptoError SrpProof
  pub generate_verifier : (password server_modulus : Text) → Result WalletCryptoError ClientVerifier

-- a call of the client
abbrev pub api : {W A : Type 0} → Exec ApiError W A → Exec ProviderError W A
api call w = let (r, w') = call w in (map_err ProviderError.andromeda_api r, w')

-- `build_client_proofs`, which never fails
unfoldable pub build_client_proofs : (twofa : Text) → AuthInfo → SrpProof → ClientProofs
build_client_proofs twofa auth_info srp_proof = record {
  client_ephemeral = srp_proof.client_ephemeral;
  client_proof = srp_proof.client_proof;
  srp_session = auth_info.srp_session;
  two_factor_code =
      if not (auth_info.two_fa_enabled == 0) && not (auth_info.two_fa_enabled == 2)
      then some twofa
      else none;
}

module _ {W : Type 0} (client : AuthClient W) (srp : SrpClient) where
  unfoldable pub auth_info : Exec ProviderError W AuthInfo
  auth_info = api (client.get_auth_info (codes "Proton"))

  abbrev given : Option AuthInfo → Exec ProviderError W AuthInfo
  given (some info) = pure info
  given none = auth_info

  unfoldable pub generate_srp_proofs :
      (login_password : Text) → Option AuthInfo → Exec ProviderError W SrpProof
  unfolding auth_info
  generate_srp_proofs login_password info = do
    auth_info ← given info
    lift (
        map_err wallet_crypto (
          srp.generate_proofs login_password auth_info.version auth_info.salt auth_info.modulus
            auth_info.server_ephemeral))

  unfoldable pub generate_client_proofs :
      (login_password twofa : Text) → Option AuthInfo → Exec ProviderError W ClientProofs
  unfolding auth_info generate_srp_proofs build_client_proofs
  generate_client_proofs login_password twofa info = do
    auth_info ← given info
    srp_proof ← generate_srp_proofs login_password (some auth_info)
    pure (build_client_proofs twofa auth_info srp_proof)

  unfoldable pub generate_auth_module : (password : Text) → Exec ProviderError W AuthVerifier
  generate_auth_module password = do
    server_module ← api client.get_auth_modulus
    verifier ← lift (map_err wallet_crypto (srp.generate_verifier password server_module.modulus))
    pure (record {
      modulus_id = server_module.modulus_id;
      salt = verifier.salt;
      version = verifier.version;
      verifier = verifier.verifier;
    })
