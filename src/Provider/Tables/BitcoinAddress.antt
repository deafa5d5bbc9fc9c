-- ===== src/Provider/Tables/BitcoinAddress.antt =====
-- rust/src/proton_wallet/provider/bitcoin_address.rs: the table behind its data access object.
use flutter_app.Common.{Option, List, Exec, Text}
use flutter_app.Errors.{ProviderError}
use flutter_app.Db.Table.{Table}
use flutter_app.Db.BitcoinAddress as Dao
use flutter_app.Db.BitcoinAddress.{BitcoinAddressModel}
use flutter_app.Provider.Tables.{DataProvider, answered, returned}

module _ (table : Table BitcoinAddressModel) where
  open table use {Store}

  unfoldable pub get_all : Exec ProviderError Store (List BitcoinAddressModel)
  unfolding Dao.get_all
  get_all = answered (Dao.get_all table)

  unfoldable pub get_all_by_account_id : Text → Exec ProviderError Store (List BitcoinAddressModel)
  unfolding Dao.get_all_by_account_id
  get_all_by_account_id account_id = answered (Dao.get_all_by_account_id table account_id)

  unfoldable pub upsert : BitcoinAddressModel → Exec ProviderError Store (Unit {0})
  unfolding Dao.upsert
  upsert item = returned (Dao.upsert table item)

  unfoldable pub get : Text → Exec ProviderError Store (Option BitcoinAddressModel)
  unfolding Dao.get_by_server_id
  get server_id = answered (Dao.get_by_server_id table server_id)

  abbrev pub data_provider : DataProvider Store BitcoinAddressModel
  data_provider = record { upsert = upsert; get = get }
