-- ===== src/Db/User.antt =====
-- rust/src/proton_wallet/db/dao/proton_user_dao.rs and model/proton_user_model.rs.
use flutter_app.Common.{ℕ, Option, List, Exec, Text, codes}
use flutter_app.Errors.{DatabaseError}
use flutter_app.Db.Table.{Table}
use flutter_app.Db.Base.{Column, get_by_column_id, get_all as get_all_rows}
use flutter_app.Db.Dao.{insert_row}

-- `ProtonUserModel`
pub record ProtonUserModel : Type 0 where
  pub id : ℕ
  pub user_id : Text
  pub name : Text
  pub used_space : ℕ
  pub currency : Text
  pub credit : ℕ
  pub create_time : ℕ
  pub max_space : ℕ
  pub max_upload : ℕ
  pub role : ℕ
  pub private : ℕ
  pub subscribed : ℕ
  pub services : ℕ
  pub delinquent : ℕ
  pub organization_private_key : Option Text
  pub email : Option Text
  pub display_name : Option Text

abbrev pub id : ProtonUserModel → ℕ
id r = r.id

abbrev pub user_id_column : Column ProtonUserModel
user_id_column = record { name = codes "user_id"; read = λ r. r.user_id }

module _ (table : Table ProtonUserModel) where
  open table use {Store}

  unfoldable pub get_all : Exec DatabaseError Store (List ProtonUserModel)
  unfolding get_all_rows
  get_all = get_all_rows table

  unfoldable pub get_by_user_id : Text → Exec DatabaseError Store (Option ProtonUserModel)
  unfolding get_by_column_id
  get_by_user_id user_id = get_by_column_id table user_id_column user_id

  unfoldable pub insert : ProtonUserModel → Exec DatabaseError Store ℕ
  unfolding insert_row
  insert item = insert_row table (λ i. record item { id = i })
