-- ===== src/Tests.antt =====
-- Runs of the model at concrete inputs, and the theorems applied to them.
pub mod Migrations
pub mod Tables
pub mod Keys
pub mod Wallets
pub mod Paths
pub mod Pgp
pub mod Transition
pub mod Bridged
pub mod Providers
pub mod Service
pub mod Seed
pub mod UserKeys
pub mod Ciphers
pub mod Guards
pub mod Creation
pub mod Sessions
