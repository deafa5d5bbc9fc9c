-- ===== src/Db/UserKey.antt =====
-- rust/src/proton_wallet/db/dao/proton_user_key_dao.rs and model/proton_user_key_model.rs.
pub mod Upsert
use flutter_app.Common.{
  ℕ, Option, List, Exec, pure, fail, ◌>>=◌, ◌==◌, if◌then◌else◌, Text, codes, text_eq,
}
use flutter_app.Errors.{DatabaseError, update_failed}
use flutter_app.Db.Table.{Table}
use flutter_app.Db.Base.{Column, get_by_column_id, get_all_by_column_id, get_all as get_all_rows}
use flutter_app.Db.Dao.{insert_row, execute_update, upsert_by}

-- `ProtonUserKeyModel`
pub record ProtonUserKeyModel : Type 0 where
  pub key_id : Text
  pub user_id : Text
  pub version : ℕ
  pub private_key : Text
  pub token : Option Text
  pub fingerprint : Option Text
  pub recovery_secret : Option Text
  pub recovery_secret_signature : Option Text
  pub primary : ℕ
  pub active : ℕ

abbrev pub user_id_column : Column ProtonUserKeyModel
user_id_column = record { name = codes "user_id"; read = λ r. r.user_id }

abbrev pub key_id_column : Column ProtonUserKeyModel
key_id_column = record { name = codes "key_id"; read = λ r. r.key_id }

module _ (table : Table ProtonUserKeyModel) where
  open table use {Store}

  unfoldable pub get_all_by_user_id : Text → Exec DatabaseError Store (List ProtonUserKeyModel)
  unfolding get_all_by_column_id
  get_all_by_user_id user_id = get_all_by_column_id table user_id_column user_id

  unfoldable pub get_by_key_id : Text → Exec DatabaseError Store (Option ProtonUserKeyModel)
  unfolding get_by_column_id
  get_by_key_id key_id = get_by_column_id table key_id_column key_id

  unfoldable pub get_all : Exec DatabaseError Store (List ProtonUserKeyModel)
  unfolding get_all_rows
  get_all = get_all_rows table

  unfoldable pub insert : ProtonUserKeyModel → Exec DatabaseError Store ℕ
  unfolding insert_row
  insert item = insert_row table (λ i. item)

  unfoldable pub update : ProtonUserKeyModel → Exec DatabaseError Store (Unit {0})
  unfolding execute_update
  update item = do
    rows_affected ←
        execute_update table (λ r. text_eq r.key_id item.key_id)
          (λ r. record item { key_id = r.key_id })
    if rows_affected == 0 then fail update_failed else pure tt

  unfoldable pub upsert : ProtonUserKeyModel → Exec DatabaseError Store (Option ProtonUserKeyModel)
  unfolding upsert_by get_by_key_id update insert
  upsert item = upsert_by table key_id_column item.key_id (update item) (insert item)
