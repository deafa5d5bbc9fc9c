-- ===== src/Errors.antt =====
-- The error types: rust/src/proton_wallet/db/error.rs, storage/error.rs, crypto/errors.rs,
-- provider/error.rs and features/error.rs. An error of a foreign library is what it says, a text;
-- of the errors of the API client, the kinds are those that rust/src/api/errors.rs tells apart.
use flutter_app.Common.{ℕ, Text}

-- the code and the two texts of an error response of the API
pub record ApiResponseError : Type 0 where
  pub code : ℕ
  pub error : Text
  pub details : Text

-- `andromeda_api::error::Error`
pub data ApiError : Type 0 where
  auth_session auth_refresh muon_error bitcoin_deserialize hex_to_array_decoding
        hex_to_bytes_error_decoding deserialize muon_app_version muon_status utf8_error :
      Text → ApiError
  error_code : ApiResponseError → ApiError
  http fork_auth_session fork_session login_error unsupported_two_factor : ApiError

-- `DatabaseError`; `database` wraps what `rusqlite::Error` says.
pub data DatabaseError : Type 0 where
  database : Text → DatabaseError
  migration : Text → DatabaseError
  column_not_found : Text → DatabaseError
  update_failed : DatabaseError
  no_changed_rows : DatabaseError

pub data WalletStorageError : Type 0 where
  callback_not_set : Text → WalletStorageError

pub data WalletCryptoError : Type 0 where
  aes_gcm decode utf8 crypto_error crypto_write_error crypto_signature_verify mailbox_hash
        account_crypto relock_key_count_mismatch hmac_invalid_length :
      Text → WalletCryptoError
  aes_gcm_invalid_key_length invalid_data_size no_keys_found srp_password_too_short :
      WalletCryptoError

pub data ProviderError : Type 0 where
  andromeda_api : ApiError → ProviderError
  wallet_storage : WalletStorageError → ProviderError
  wallet_crypto : WalletCryptoError → ProviderError
  database : DatabaseError → ProviderError
  srp : Text → ProviderError
  reached_max_account_size : ℕ → ProviderError
  wallet_key_empty wallet_key_not_found no_user_keys_found no_wallet_keys_found no_mnemonic_found
        no_wallet_mnemonic_found :
      ProviderError

pub data FeaturesError : Type 0 where
  andromeda_api : ApiError → FeaturesError
  wallet_crypto : WalletCryptoError → FeaturesError
  provider : ProviderError → FeaturesError
  andromeda_bitcoin : Text → FeaturesError
  lock_sensitive_settings : ℕ → FeaturesError
  invalid_srp_server_proofs no_unlocked_user_key_found unlocked_user_key_partially : FeaturesError
