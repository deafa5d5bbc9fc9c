-- ===== src/Storage.antt =====
-- rust/src/proton_wallet/storage/: what the app keeps in its secure storage.
pub mod WalletKey
pub mod WalletMnemonic
pub mod UserKey
pub mod AddressKey
