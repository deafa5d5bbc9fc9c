-- ===== src/Db.antt =====
-- rust/src/proton_wallet/db/: the tables of the local database and the objects that read and
-- write them.
pub mod Table
pub mod Memory
pub mod Base
pub mod Dao
pub mod Wallet
pub mod Account
pub mod Address
pub mod BitcoinAddress
pub mod Contacts
pub mod ExchangeRate
pub mod Transactions
pub mod UserKey
pub mod User
pub mod WalletUserSettings
