-- ===== src/Provider/Tables/Account.antt =====
-- rust/src/proton_wallet/provider/account.rs: the table behind its data access object.
use flutter_app.Common.{Option, List, Exec, Text}
use flutter_app.Errors.{ProviderError}
use flutter_app.Db.Table.{Table}
use flutter_app.Db.Account as Dao
use flutter_app.Db.Account.{AccountModel}
use flutter_app.Provider.Tables.{DataProvider, answered, returned}

module _ (table : Table AccountModel) where
  open table use {Store}

  unfoldable pub delete_by_wallet_id : Text → Exec ProviderError Store (Unit {0})
  unfolding Dao.delete_by_wallet_id
  delete_by_wallet_id wallet_id = returned (Dao.delete_by_wallet_id table wallet_id)

  unfoldable pub delete_by_account_id : Text → Exec ProviderError Store (Unit {0})
  unfolding Dao.delete_by_account_id
  delete_by_account_id account_id = returned (Dao.delete_by_account_id table account_id)

  unfoldable pub get_all_by_wallet_id : Text → Exec ProviderError Store (List AccountModel)
  unfolding Dao.get_all_by_wallet_id
  get_all_by_wallet_id wallet_id = answered (Dao.get_all_by_wallet_id table wallet_id)

  unfoldable pub upsert : AccountModel → Exec ProviderError Store (Unit {0})
  unfolding Dao.upsert
  upsert item = returned (Dao.upsert table item)

  unfoldable pub get : Text → Exec ProviderError Store (Option AccountModel)
  unfolding Dao.get_by_server_id
  get server_id = answered (Dao.get_by_server_id table server_id)

  abbrev pub data_provider : DataProvider Store AccountModel
  data_provider = record { upsert = upsert; get = get }
