-- ===== src/Provider/Tables/Contacts.antt =====
-- rust/src/proton_wallet/provider/contacts.rs: the table behind its data access object.
use flutter_app.Common.{Option, List, Exec, Text}
use flutter_app.Errors.{ProviderError}
use flutter_app.Db.Table.{Table}
use flutter_app.Db.Contacts as Dao
use flutter_app.Db.Contacts.{ContactsModel}
use flutter_app.Provider.Tables.{DataProvider, answered, returned}

module _ (table : Table ContactsModel) where
  open table use {Store}

  unfoldable pub get_all : Exec ProviderError Store (List ContactsModel)
  unfolding Dao.get_all
  get_all = answered (Dao.get_all table)

  unfoldable pub upsert : ContactsModel → Exec ProviderError Store (Unit {0})
  unfolding Dao.upsert
  upsert item = returned (Dao.upsert table item)

  unfoldable pub get : Text → Exec ProviderError Store (Option ContactsModel)
  unfolding Dao.get_by_server_id
  get server_id = answered (Dao.get_by_server_id table server_id)

  abbrev pub data_provider : DataProvider Store ContactsModel
  data_provider = record { upsert = upsert; get = get }
