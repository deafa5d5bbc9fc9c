-- ===== src/Provider.antt =====
-- rust/src/proton_wallet/provider/: what the features ask for data, from the local database, the
-- secure stores and the server.
pub mod Derivation
pub mod WalletKeys
pub mod Wallet
pub mod UserKeys
pub mod Mnemonic
pub mod Auth
pub mod Tables
