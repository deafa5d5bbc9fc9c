-- ===== src/Provider/Tables/ExchangeRate.antt =====
-- rust/src/proton_wallet/provider/exchange_rate.rs: the table behind its data access object.
use flutter_app.Common.{Option, List, Exec, Text}
use flutter_app.Errors.{ProviderError}
use flutter_app.Db.Table.{Table}
use flutter_app.Db.ExchangeRate as Dao
use flutter_app.Db.ExchangeRate.{ExchangeRateModel}
use flutter_app.Provider.Tables.{DataProvider, answered, returned}

module _ (table : Table ExchangeRateModel) where
  open table use {Store}

  unfoldable pub get_all : Exec ProviderError Store (List ExchangeRateModel)
  unfolding Dao.get_all
  get_all = answered (Dao.get_all table)

  unfoldable pub upsert : ExchangeRateModel → Exec ProviderError Store (Unit {0})
  unfolding Dao.upsert
  upsert item = returned (Dao.upsert table item)

  unfoldable pub get : Text → Exec ProviderError Store (Option ExchangeRateModel)
  unfolding Dao.get_by_server_id
  get server_id = answered (Dao.get_by_server_id table server_id)

  abbrev pub data_provider : DataProvider Store ExchangeRateModel
  data_provider = record { upsert = upsert; get = get }
