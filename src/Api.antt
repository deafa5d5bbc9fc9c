-- ===== src/Api.antt =====
-- The records of the wallet API that the providers read: rust/src/proton_api/wallet.rs (the mirrors
-- of the structs of `andromeda_api`), and the client, which is a parameter.
pub mod Records
pub mod Requests
pub mod Addresses
pub mod Events
use flutter_app.Common.{ℕ, Bool, Option, List, Exec, Text}
use flutter_app.Errors.{ApiError}

-- `ApiWallet`
pub record ApiWallet : Type 0 where
  pub id : Text
  pub name : Text
  pub is_imported : ℕ
  pub priority : ℕ
  pub type_ : ℕ
  pub has_passphrase : ℕ
  pub status : ℕ
  pub mnemonic : Option Text
  pub fingerprint : Option Text
  pub public_key : Option Text
  pub migration_required : Option ℕ
  pub legacy : Option ℕ

-- `ApiWalletKey`
pub record ApiWalletKey : Type 0 where
  pub wallet_id : Text
  pub user_key_id : Text
  pub wallet_key : Text
  pub wallet_key_signature : Text

-- `ApiWalletData`, of whose settings the providers read `ShowWalletRecovery` alone
pub record ApiWalletData : Type 0 where
  pub wallet : ApiWallet
  pub wallet_key : ApiWalletKey
  pub show_wallet_recovery : Option Bool

-- `WalletClientExt`: the call to the server, in a world `W`.
pub record WalletClient (W : Type 0) : Type 0 where
  pub get_wallets : Exec ApiError W (List ApiWalletData)
