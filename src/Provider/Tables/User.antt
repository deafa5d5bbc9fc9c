-- ===== src/Provider/Tables/User.antt =====
-- rust/src/proton_wallet/provider/proton_user.rs: the table of users, and the client of the server.
use flutter_app.Common.{Option, List, Exec, Text, within}
use flutter_app.Errors.{ProviderError, ApiError}
use flutter_app.Db.Table.{Table}
use flutter_app.Db.User as Dao
use flutter_app.Db.User.{ProtonUserModel}
use flutter_app.Provider.Auth.{ClientProofs}
use flutter_app.Provider.Tables.{DataProvider, answered, returned}

-- `unlock_password_change`, a call of the client in its world `W`
unfoldable pub unlock_password_change :
    {W : Type 0}
    → (client : ClientProofs → Exec ApiError W Text) → ClientProofs
    → Exec ProviderError W Text
unlock_password_change client proofs =
    within ProviderError.andromeda_api (λ w. w) (λ _ w. w) (client proofs)

module _ (table : Table ProtonUserModel) where
  open table use {Store}

  unfoldable pub get_all : Exec ProviderError Store (List ProtonUserModel)
  unfolding Dao.get_all
  get_all = answered (Dao.get_all table)

  unfoldable pub upsert : ProtonUserModel → Exec ProviderError Store (Unit {0})
  unfolding Dao.insert
  upsert item = returned (Dao.insert table item)

  unfoldable pub get : Text → Exec ProviderError Store (Option ProtonUserModel)
  unfolding Dao.get_by_user_id
  get user_id = answered (Dao.get_by_user_id table user_id)

  abbrev pub data_provider : DataProvider Store ProtonUserModel
  data_provider = record { upsert = upsert; get = get }
