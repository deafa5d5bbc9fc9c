-- ===== src/Bridge.antt =====
-- rust/src/api/errors.rs: the errors that the app sees, and the conversions into them. An error of a
-- foreign library is what it says, a text; what `{:?}` prints of it is a parameter.
pub mod Bitcoin
pub mod Converted
pub mod Transition
use flutter_app.Common.{
  ℕ, Bool, true, false, ◌||◌, Option, none, some, List, [], ◌∷◌, ◌++◌, Text, codes, ◌==◌, ◌&&◌,
  if◌then◌else◌,
}
use flutter_app.Errors.{ApiResponseError, ApiError, DatabaseError, WalletCryptoError, FeaturesError}
use flutter_app.Errors

-- `ResponseError`
pub record ResponseError : Type 0 where
  pub code : ℕ
  pub error : Text
  pub details : Text

pub data BridgeError : Type 0 where
  api_lock generic muon_auth_session muon_auth_refresh muon_client muon_session andromeda_bitcoin
        api_deserialize bitcoin_deserialize api_srp aes_gcm wallet_crypto wallet_decryption
        wallet_feature login fork database session_store encoding insufficient_funds_in_paper_wallet
        invalid_paper_wallet features_andromeda_bitcoin_error features_andromeda_common_error
        account_export_datetime_error :
      Text → BridgeError
  api_response : ResponseError → BridgeError

-- `andromeda_bitcoin::error::Error`, the kinds that the code tells apart
pub data BitcoinError : Type 0 where
  insufficient_funds_in_paper_wallet invalid_paper_wallet : BitcoinError
  other : Text → BitcoinError

-- an error in a chain of sources, by its type
pub data AnyError : Type 0 where
  api : ApiError → AnyError
  bitcoin : BitcoinError → AnyError
  foreign : Text → AnyError

-- `andromeda_features::error::Error`
pub data AndromedaFeaturesError : Type 0 where
  andromeda_bitcoin_error andromeda_common_error : Text → AndromedaFeaturesError
  account_export_datetime_error : AndromedaFeaturesError

-- What `{:?}` prints of an error, of the source of an API error, and of a text.
pub record Debug : Type 0 where
  pub foreign : Text → Text
  pub api : ApiError → Text
  pub provider : Errors.ProviderError → Text
  pub crypto : WalletCryptoError → Text
  pub any : AnyError → Text
  pub source : Text → Text
  pub text : Text → Text

-- `ResponseError::from`
unfoldable pub response_error : ApiResponseError → ResponseError
response_error value = record { code = value.code; error = value.error; details = value.details }

-- `{:?}` of the source that an error has or has not
abbrev pub printed : Option Text → Text
printed none = codes "None"
printed (some source) = codes "Some(" ++ (source ++ codes ")")

-- `str::contains`
abbrev pub starts_with : Text → Text → Bool
starts_with s [] = true
starts_with [] (y ∷ ys) = false
starts_with (x ∷ xs) (y ∷ ys) = x == y && starts_with xs ys

abbrev pub contains : Text → Text → Bool
contains [] t = starts_with [] t
contains (x ∷ xs) t = starts_with (x ∷ xs) t || contains xs t

abbrev pub no_key_material : Text
no_key_material =
    codes "failed to initialize decryptor: gopenpgp: no decryption key material provided"

-- the text of an `AuthSession`
abbrev pub no_session : Text → BridgeError
no_session kind = muon_auth_session (
    codes "AuthSession: A muon "
    ++ (kind ++ codes " error was caused by a non-existent auth session"))

module _ (debug : Debug) where
  -- the source of an error that `thiserror` derives, from the fields marked `#[from]`
  unfoldable pub database_source : DatabaseError → Option Text
  database_source (DatabaseError.database e) = some (debug.foreign e)
  database_source (DatabaseError.migration e) = none
  database_source (DatabaseError.column_not_found e) = none
  database_source DatabaseError.update_failed = none
  database_source DatabaseError.no_changed_rows = none

  unfoldable pub crypto_source : WalletCryptoError → Option Text
  crypto_source (WalletCryptoError.decode e) = some (debug.foreign e)
  crypto_source (WalletCryptoError.utf8 e) = some (debug.foreign e)
  crypto_source (WalletCryptoError.crypto_error e) = some (debug.foreign e)
  crypto_source (WalletCryptoError.crypto_write_error e) = some (debug.foreign e)
  crypto_source (WalletCryptoError.crypto_signature_verify e) = some (debug.foreign e)
  crypto_source (WalletCryptoError.mailbox_hash e) = some (debug.foreign e)
  crypto_source (WalletCryptoError.account_crypto e) = some (debug.foreign e)
  crypto_source (WalletCryptoError.hmac_invalid_length e) = some (debug.foreign e)
  crypto_source (WalletCryptoError.aes_gcm e) = none
  crypto_source (WalletCryptoError.relock_key_count_mismatch e) = none
  crypto_source WalletCryptoError.aes_gcm_invalid_key_length = none
  crypto_source WalletCryptoError.invalid_data_size = none
  crypto_source WalletCryptoError.no_keys_found = none
  crypto_source WalletCryptoError.srp_password_too_short = none

  unfoldable pub features_source : FeaturesError → Option Text
  features_source (FeaturesError.andromeda_api e) = some (debug.api e)
  features_source (FeaturesError.wallet_crypto e) = some (debug.crypto e)
  features_source (FeaturesError.provider e) = some (debug.provider e)
  features_source (FeaturesError.andromeda_bitcoin e) = some (debug.foreign e)
  features_source (FeaturesError.lock_sensitive_settings n) = none
  features_source FeaturesError.invalid_srp_server_proofs = none
  features_source FeaturesError.no_unlocked_user_key_found = none
  features_source FeaturesError.unlocked_user_key_partially = none

  -- `BridgeError::from` of a `DatabaseError`
  unfoldable pub from_database : DatabaseError → BridgeError
  unfolding database_source
  from_database value =
      BridgeError.database (codes "DatabaseError occurred: " ++ printed (database_source value))

  abbrev unspecific : WalletCryptoError → BridgeError
  unfolding crypto_source
  unspecific value =
      wallet_crypto (codes "WalletCryptoError occurred: " ++ printed (crypto_source value))

  -- `BridgeError::from` of a `WalletCryptoError`
  unfoldable pub from_wallet_crypto : WalletCryptoError → BridgeError
  unfolding crypto_source
  from_wallet_crypto (WalletCryptoError.crypto_error inner) =
      if contains inner no_key_material
      then wallet_decryption (codes "WalletCryptoError occurred: " ++ debug.text inner)
      else unspecific (WalletCryptoError.crypto_error inner)
  from_wallet_crypto value = unspecific value

  -- `BridgeError::from` of a `FeaturesError`
  unfoldable pub from_features : FeaturesError → BridgeError
  unfolding features_source
  from_features value =
      wallet_feature (codes "WalletFeatureError occurred: " ++ printed (features_source value))

  -- a text, and what is printed of the source of a foreign error
  abbrev occurred : Text → Text → Text
  occurred name e = name ++ debug.source e

  abbrev pub muon_failed : Text → BridgeError
  muon_failed me =
      muon_client (codes "MuonError: " ++ (me ++ occurred (codes " (caused by: ") me ++ codes ")"))

  -- `BridgeError::from` of an error of the API client
  unfoldable pub from_api : ApiError → BridgeError
  unfolding response_error
  from_api (ApiError.auth_session kind) = no_session kind
  from_api (ApiError.auth_refresh kind) =
      muon_auth_refresh (
        codes "AuthRefresh: A muon "
        ++ (kind ++ codes " error was caused by a failed auth refresh"))
  from_api (ApiError.muon_error me) = muon_failed me
  from_api (ApiError.bitcoin_deserialize bde) =
      BridgeError.bitcoin_deserialize (occurred (codes "BitcoinDeserializeError occurred: ") bde)
  from_api (ApiError.hex_to_array_decoding hde) =
      encoding (occurred (codes "HexToArrayDecoding error occurred: ") hde)
  from_api (ApiError.hex_to_bytes_error_decoding hde) =
      encoding (occurred (codes "HexToBytesErrorDecoding error occurred: ") hde)
  from_api ApiError.http = generic (codes "HTTP error occurred")
  from_api (ApiError.error_code error) = api_response (response_error error)
  from_api (ApiError.deserialize e) = api_deserialize e
  from_api (ApiError.muon_app_version e) =
      muon_session (occurred (codes "Muon MuonAppVersion occurred: ") e)
  from_api (ApiError.muon_status e) =
      muon_session (occurred (codes "Muon MuonStatusError occurred: ") e)
  from_api (ApiError.utf8_error e) = encoding (occurred (codes "Utf8Error error occurred: ") e)
  from_api ApiError.fork_auth_session = fork (codes "ForkAuthSession error occurred")
  from_api ApiError.fork_session = fork (codes "ForkSession error occurred")
  from_api ApiError.login_error = login (codes "LoginError error occurred")
  from_api ApiError.unsupported_two_factor = login (codes "UnsupportedTwoFactor error occurred")

  -- `BridgeError::from` of an error of the Andromeda features
  unfoldable pub from_andromeda_features : AndromedaFeaturesError → BridgeError
  from_andromeda_features (AndromedaFeaturesError.andromeda_bitcoin_error e) =
      features_andromeda_bitcoin_error
        (occurred (codes "FeaturesAndromedaBitcoinError occurred: ") e)
  from_andromeda_features (AndromedaFeaturesError.andromeda_common_error e) =
      features_andromeda_common_error (occurred (codes "FeaturesAndromedaCommonError occurred: ") e)
  from_andromeda_features AndromedaFeaturesError.account_export_datetime_error =
      BridgeError.account_export_datetime_error (codes "AccountExportDatetimeError occurred")

  -- `BridgeError::from` of foreign errors
  unfoldable pub from_rusqlite : Text → BridgeError
  from_rusqlite e = BridgeError.database (occurred (codes "Rusqlite Error occurred: ") e)

  unfoldable pub from_serde : Text → BridgeError
  from_serde e = encoding (occurred (codes "serde_json::Error occurred: ") e)

  unfoldable pub from_utf8_error : Text → BridgeError
  from_utf8_error e = encoding (occurred (codes "Utf8Error occurred: ") e)

  unfoldable pub from_mailbox_hash : Text → BridgeError
  from_mailbox_hash e = api_srp (occurred (codes "MailboxHashError occurred: ") e)

  unfoldable pub from_srp : Text → BridgeError
  from_srp e = api_srp (occurred (codes "SRPError occurred: ") e)

  unfoldable pub from_crypto : Text → BridgeError
  from_crypto e = wallet_crypto (occurred (codes "Proton crypto error occurred: ") e)

-- `BridgeError::from` of a `PoisonError`
unfoldable pub from_poison : BridgeError
from_poison = api_lock (codes "Proton api service read lock error, please try to restart app")
