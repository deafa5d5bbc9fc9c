-- ===== src/Provider/Tables/UserKey.antt =====
-- rust/src/proton_wallet/provider/proton_user_key.rs: the table behind its data access object.
use flutter_app.Common.{Option, List, Exec, Text}
use flutter_app.Errors.{ProviderError}
use flutter_app.Db.Table.{Table}
use flutter_app.Db.UserKey as Dao
use flutter_app.Db.UserKey.{ProtonUserKeyModel}
use flutter_app.Provider.Tables.{DataProvider, answered, returned}

module _ (table : Table ProtonUserKeyModel) where
  open table use {Store}

  unfoldable pub get_all : Exec ProviderError Store (List ProtonUserKeyModel)
  unfolding Dao.get_all
  get_all = answered (Dao.get_all table)

  unfoldable pub get_all_by_user_id : Text → Exec ProviderError Store (List ProtonUserKeyModel)
  unfolding Dao.get_all_by_user_id
  get_all_by_user_id user_id = answered (Dao.get_all_by_user_id table user_id)

  -- the comment of the source: only an insert is made
  unfoldable pub upsert : ProtonUserKeyModel → Exec ProviderError Store (Unit {0})
  unfolding Dao.insert
  upsert item = returned (Dao.insert table item)

  unfoldable pub get : Text → Exec ProviderError Store (Option ProtonUserKeyModel)
  unfolding Dao.get_by_key_id
  get key_id = answered (Dao.get_by_key_id table key_id)

  abbrev pub data_provider : DataProvider Store ProtonUserKeyModel
  data_provider = record { upsert = upsert; get = get }
