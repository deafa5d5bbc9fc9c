-- ===== src/Features.antt =====
-- rust/src/proton_wallet/features/: what the app does with the account, guarded by the password.
pub mod PasswordScope
pub mod Recovery
pub mod Wallets
use flutter_app.Common.{Result, Exec, map_err, lift, Text}
use flutter_app.Errors.{ApiError, ProviderError, FeaturesError, WalletCryptoError}

-- calls of a provider, of the client and of the ciphers, their errors converted by `From`
abbrev pub provided : {W A : Type 0} → Exec ProviderError W A → Exec FeaturesError W A
provided call w = let (r, w') = call w in (map_err FeaturesError.provider r, w')

abbrev pub requested : {W A : Type 0} → Exec ApiError W A → Exec FeaturesError W A
requested call w = let (r, w') = call w in (map_err FeaturesError.andromeda_api r, w')

abbrev pub ciphered : {W A : Type 0} → Result WalletCryptoError A → Exec FeaturesError W A
ciphered r = lift (map_err FeaturesError.wallet_crypto r)
