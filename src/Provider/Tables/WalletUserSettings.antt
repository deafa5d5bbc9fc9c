-- ===== src/Provider/Tables/WalletUserSettings.antt =====
-- rust/src/proton_wallet/provider/wallet_user_settings.rs: the table behind its data access object.
use flutter_app.Common.{Option, Exec, Text}
use flutter_app.Errors.{ProviderError}
use flutter_app.Db.Table.{Table}
use flutter_app.Db.WalletUserSettings as Dao
use flutter_app.Db.WalletUserSettings.{WalletUserSettingsModel}
use flutter_app.Provider.Tables.{DataProvider, answered, returned}

module _ {F : Type 0} (table : Table (WalletUserSettingsModel F)) where
  open table use {Store}

  unfoldable pub upsert : WalletUserSettingsModel F → Exec ProviderError Store (Unit {0})
  unfolding Dao.upsert
  upsert item = returned (Dao.upsert table item)

  unfoldable pub get : Text → Exec ProviderError Store (Option (WalletUserSettingsModel F))
  unfolding Dao.get_by_user_id
  get user_id = answered (Dao.get_by_user_id table user_id)

  abbrev pub data_provider : DataProvider Store (WalletUserSettingsModel F)
  data_provider = record { upsert = upsert; get = get }
