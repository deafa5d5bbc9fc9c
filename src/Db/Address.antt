-- ===== src/Db/Address.antt =====
-- rust/src/proton_wallet/db/dao/address_dao.rs and model/address_model.rs.
use flutter_app.Common.{ℕ, Option, List, Exec, Text, codes}
use flutter_app.Errors.{DatabaseError}
use flutter_app.Db.Table.{Table}
use flutter_app.Db.Base.{
  Column, get_by_id, get_by_column_id, get_all_by_column_id, get_all as get_all_rows,
  delete_by_column_id,
}
use flutter_app.Db.Dao.{insert_row, update_by_id, upsert_by}

-- `AddressModel`
pub record AddressModel : Type 0 where
  pub id : ℕ
  pub server_id : Text
  pub email : Text
  pub server_wallet_id : Text
  pub server_account_id : Text

abbrev pub id : AddressModel → ℕ
id r = r.id

abbrev pub server_account_id_column : Column AddressModel
server_account_id_column = record {
  name = codes "server_account_id";
  read = λ r. r.server_account_id;
}

abbrev pub server_id_column : Column AddressModel
server_id_column = record { name = codes "server_id"; read = λ r. r.server_id }

module _ (table : Table AddressModel) where
  open table use {Store}

  unfoldable pub get : ℕ → Exec DatabaseError Store (Option AddressModel)
  unfolding get_by_id
  get k = get_by_id table id k

  unfoldable pub get_all_by_account_id : Text → Exec DatabaseError Store (List AddressModel)
  unfolding get_all_by_column_id
  get_all_by_account_id account_id = get_all_by_column_id table server_account_id_column account_id

  unfoldable pub get_by_server_id : Text → Exec DatabaseError Store (Option AddressModel)
  unfolding get_by_column_id
  get_by_server_id server_id = get_by_column_id table server_id_column server_id

  unfoldable pub get_all : Exec DatabaseError Store (List AddressModel)
  unfolding get_all_rows
  get_all = get_all_rows table

  unfoldable pub delete_by_server_id : Text → Exec DatabaseError Store (Unit {0})
  unfolding delete_by_column_id
  delete_by_server_id server_id = delete_by_column_id table server_id_column server_id

  unfoldable pub delete_by_account_id : Text → Exec DatabaseError Store (Unit {0})
  unfolding delete_by_column_id
  delete_by_account_id server_account_id =
      delete_by_column_id table server_account_id_column server_account_id

  unfoldable pub insert : AddressModel → Exec DatabaseError Store ℕ
  unfolding insert_row
  insert item = insert_row table (λ i. record item { id = i })

  unfoldable pub update : AddressModel → Exec DatabaseError Store (Option AddressModel)
  unfolding update_by_id
  update item = update_by_id table id (id item) (λ r. record item { id = r.id })

  unfoldable pub upsert : AddressModel → Exec DatabaseError Store (Option AddressModel)
  unfolding upsert_by get_by_server_id update insert
  upsert item = upsert_by table server_id_column item.server_id (update item) (insert item)
