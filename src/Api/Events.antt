-- ===== src/Api/Events.antt =====
-- The events of the API: rust/src/proton_api/event_routes.rs. The types that are passed on as they are
-- are parameters.
use flutter_app.Common.{ℕ, Option, List, Text}
use flutter_app.Api.{ApiWallet, ApiWalletKey}
use flutter_app.Api.Records.{
  WalletTransaction, ApiWalletTransaction, wallet_transaction, map_some, collect,
}

-- The structs of `andromeda_api` that an event passes on, and its enumerations.
pub record EventTypes : Type 1 where
  pub BitcoinUnit : Type 0
  pub FiatCurrency : Type 0
  pub ApiWalletAccount : Type 0
  pub ApiWalletSettings : Type 0
  pub ApiContactEmails : Type 0
  pub ApiWalletUserSettings : Type 0
  pub ProtonUser : Type 0
  pub ProtonUserSettings : Type 0

pub record WalletEvent (T : EventTypes) : Type 0 where
  pub id : Text
  pub action : ℕ
  pub wallet : Option ApiWallet

pub record ApiWalletEvent (T : EventTypes) : Type 0 where
  pub id : Text
  pub action : ℕ
  pub wallet : Option ApiWallet

unfoldable pub wallet_event : {T : EventTypes} → ApiWalletEvent T → WalletEvent T
wallet_event event = record { id = event.id; action = event.action; wallet = event.wallet }

pub record WalletAccountEvent (T : EventTypes) : Type 0 where
  pub id : Text
  pub action : ℕ
  pub wallet_account : Option T.ApiWalletAccount

pub record ApiWalletAccountEvent (T : EventTypes) : Type 0 where
  pub id : Text
  pub action : ℕ
  pub wallet_account : Option T.ApiWalletAccount

unfoldable pub wallet_account_event :
    {T : EventTypes} → ApiWalletAccountEvent T → WalletAccountEvent T
wallet_account_event event = record {
  id = event.id;
  action = event.action;
  wallet_account = event.wallet_account;
}

pub record WalletKeyEvent (T : EventTypes) : Type 0 where
  pub id : Text
  pub action : ℕ
  pub wallet_key : Option ApiWalletKey

pub record ApiWalletKeyEvent (T : EventTypes) : Type 0 where
  pub id : Text
  pub action : ℕ
  pub wallet_key : Option ApiWalletKey

unfoldable pub wallet_key_event : {T : EventTypes} → ApiWalletKeyEvent T → WalletKeyEvent T
wallet_key_event event = record {
  id = event.id;
  action = event.action;
  wallet_key = event.wallet_key;
}

pub record WalletSettingsEvent (T : EventTypes) : Type 0 where
  pub id : Text
  pub action : ℕ
  pub wallet_settings : Option T.ApiWalletSettings

pub record ApiWalletSettingsEvent (T : EventTypes) : Type 0 where
  pub id : Text
  pub action : ℕ
  pub wallet_settings : Option T.ApiWalletSettings

unfoldable pub wallet_settings_event :
    {T : EventTypes} → ApiWalletSettingsEvent T → WalletSettingsEvent T
wallet_settings_event event = record {
  id = event.id;
  action = event.action;
  wallet_settings = event.wallet_settings;
}

pub record WalletTransactionEvent (T : EventTypes) : Type 0 where
  pub id : Text
  pub action : ℕ
  pub wallet_transaction : Option (WalletTransaction T.BitcoinUnit T.FiatCurrency)

pub record ApiWalletTransactionsEvent (T : EventTypes) : Type 0 where
  pub id : Text
  pub action : ℕ
  pub wallet_transaction : Option (ApiWalletTransaction T.BitcoinUnit T.FiatCurrency)

unfoldable pub wallet_transaction_event :
    {T : EventTypes} → ApiWalletTransactionsEvent T → WalletTransactionEvent T
unfolding wallet_transaction
wallet_transaction_event event = record {
  id = event.id;
  action = event.action;
  wallet_transaction = map_some wallet_transaction event.wallet_transaction;
}

pub record ContactEmailEvent (T : EventTypes) : Type 0 where
  pub id : Text
  pub action : ℕ
  pub contact_email : Option T.ApiContactEmails

pub record ApiContactsEmailEvent (T : EventTypes) : Type 0 where
  pub id : Text
  pub action : ℕ
  pub contact_email : Option T.ApiContactEmails

unfoldable pub contact_email_event :
    {T : EventTypes} → ApiContactsEmailEvent T → ContactEmailEvent T
contact_email_event event = record {
  id = event.id;
  action = event.action;
  contact_email = event.contact_email;
}

pub record ProtonEvent (T : EventTypes) : Type 0 where
  pub code : ℕ
  pub event_id : Text
  pub refresh : ℕ
  pub more : ℕ
  pub contact_email_events : Option (List (ContactEmailEvent T))
  pub wallet_events : Option (List (WalletEvent T))
  pub wallet_account_events : Option (List (WalletAccountEvent T))
  pub wallet_key_events : Option (List (WalletKeyEvent T))
  pub wallet_setting_events : Option (List (WalletSettingsEvent T))
  pub wallet_transaction_events : Option (List (WalletTransactionEvent T))
  pub wallet_user_settings : Option T.ApiWalletUserSettings
  pub proton_user : Option T.ProtonUser
  pub proton_user_settings : Option T.ProtonUserSettings

pub record ApiProtonEvent (T : EventTypes) : Type 0 where
  pub code : ℕ
  pub event_id : Text
  pub refresh : ℕ
  pub more : ℕ
  pub contact_emails : Option (List (ApiContactsEmailEvent T))
  pub wallets : Option (List (ApiWalletEvent T))
  pub wallet_accounts : Option (List (ApiWalletAccountEvent T))
  pub wallet_keys : Option (List (ApiWalletKeyEvent T))
  pub wallet_settings : Option (List (ApiWalletSettingsEvent T))
  pub wallet_transactions : Option (List (ApiWalletTransactionsEvent T))
  pub wallet_user_settings : Option T.ApiWalletUserSettings
  pub proton_user : Option T.ProtonUser
  pub proton_user_settings : Option T.ProtonUserSettings

unfoldable pub proton_event : {T : EventTypes} → ApiProtonEvent T → ProtonEvent T
unfolding contact_email_event wallet_event wallet_account_event wallet_key_event
    wallet_settings_event wallet_transaction_event
proton_event event = record {
  code = event.code;
  event_id = event.event_id;
  refresh = event.refresh;
  more = event.more;
  contact_email_events = map_some (collect contact_email_event) event.contact_emails;
  wallet_events = map_some (collect wallet_event) event.wallets;
  wallet_account_events = map_some (collect wallet_account_event) event.wallet_accounts;
  wallet_key_events = map_some (collect wallet_key_event) event.wallet_keys;
  wallet_setting_events = map_some (collect wallet_settings_event) event.wallet_settings;
  wallet_transaction_events = map_some (collect wallet_transaction_event) event.wallet_transactions;
  wallet_user_settings = event.wallet_user_settings;
  proton_user = event.proton_user;
  proton_user_settings = event.proton_user_settings;
}
