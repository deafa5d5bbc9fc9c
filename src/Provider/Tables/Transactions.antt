-- ===== src/Provider/Tables/Transactions.antt =====
-- rust/src/proton_wallet/provider/transaction.rs: the table behind its data access object.
use flutter_app.Common.{Option, List, Exec, Text}
use flutter_app.Errors.{ProviderError}
use flutter_app.Db.Table.{Table}
use flutter_app.Db.Transactions as Dao
use flutter_app.Db.Transactions.{TransactionModel}
use flutter_app.Provider.Tables.{DataProvider, answered, returned}

module _ (table : Table TransactionModel) where
  open table use {Store}

  unfoldable pub delete_by_server_id : Text → Exec ProviderError Store (Unit {0})
  unfolding Dao.delete_by_server_id
  delete_by_server_id server_id = returned (Dao.delete_by_server_id table server_id)

  unfoldable pub get_by_account_id : Text → Exec ProviderError Store (List TransactionModel)
  unfolding Dao.get_by_account_id
  get_by_account_id account_id = answered (Dao.get_by_account_id table account_id)

  unfoldable pub upsert : TransactionModel → Exec ProviderError Store (Unit {0})
  unfolding Dao.upsert
  upsert item = returned (Dao.upsert table item)

  unfoldable pub get : Text → Exec ProviderError Store (Option TransactionModel)
  unfolding Dao.get_by_server_id
  get server_id = answered (Dao.get_by_server_id table server_id)

  abbrev pub data_provider : DataProvider Store TransactionModel
  data_provider = record { upsert = upsert; get = get }
