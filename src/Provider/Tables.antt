-- ===== src/Provider/Tables.antt =====
-- rust/src/proton_wallet/provider/provider.rs, and the providers that pass each call on to the data
-- access object of one table.
pub mod Account
pub mod Address
pub mod BitcoinAddress
pub mod Contacts
pub mod ExchangeRate
pub mod Transactions
pub mod User
pub mod UserKey
pub mod WalletUserSettings
pub mod Found
pub mod All
use flutter_app.Common.{Option, Exec, Text, within, pure, ◌>>◌}
use flutter_app.Errors.{ProviderError, DatabaseError}

-- `DataProvider`
pub record DataProvider (S T : Type 0) : Type 0 where
  pub upsert : T → Exec ProviderError S (Unit {0})
  pub get : Text → Exec ProviderError S (Option T)

-- `Ok(call.await?)`
abbrev pub answered : {S A : Type 0} → Exec DatabaseError S A → Exec ProviderError S A
answered call = within ProviderError.database (λ s. s) (λ _ s. s) call

-- `call.await?; Ok(())`
abbrev pub returned : {S A : Type 0} → Exec DatabaseError S A → Exec ProviderError S (Unit {0})
returned call = answered call >> pure tt
