-- ===== src/Db/Transactions.antt =====
-- rust/src/proton_wallet/db/dao/transaction_dao.rs and model/transaction_model.rs.
use flutter_app.Common.{ℕ, Option, List, Exec, Text, codes}
use flutter_app.Errors.{DatabaseError}
use flutter_app.Db.Table.{Table}
use flutter_app.Db.Base.{
  Column, get_by_id, get_by_column_id, get_all_by_column_id, get_all as get_all_rows,
  delete_by_column_id,
}
use flutter_app.Db.Dao.{insert_row, update_by_id, upsert_by}

-- `TransactionModel`
pub record TransactionModel : Type 0 where
  pub id : ℕ
  pub type_ : ℕ
  pub label : Text
  pub external_transaction_id : Text
  pub create_time : ℕ
  pub modify_time : ℕ
  pub hashed_transaction_id : Text
  pub transaction_id : Text
  pub transaction_time : Text
  pub exchange_rate_id : Text
  pub server_wallet_id : Text
  pub server_account_id : Text
  pub server_id : Text
  pub sender : Option Text
  pub tolist : Option Text
  pub subject : Option Text
  pub body : Option Text
  pub is_suspicious : ℕ
  pub is_private : ℕ
  pub is_anonymous : Option ℕ

abbrev pub id : TransactionModel → ℕ
id r = r.id

abbrev pub server_id_column : Column TransactionModel
server_id_column = record { name = codes "server_id"; read = λ r. r.server_id }

abbrev pub server_account_id_column : Column TransactionModel
server_account_id_column = record {
  name = codes "server_account_id";
  read = λ r. r.server_account_id;
}

module _ (table : Table TransactionModel) where
  open table use {Store}

  unfoldable pub get : ℕ → Exec DatabaseError Store (Option TransactionModel)
  unfolding get_by_id
  get k = get_by_id table id k

  unfoldable pub get_by_server_id : Text → Exec DatabaseError Store (Option TransactionModel)
  unfolding get_by_column_id
  get_by_server_id server_id = get_by_column_id table server_id_column server_id

  unfoldable pub get_by_account_id : Text → Exec DatabaseError Store (List TransactionModel)
  unfolding get_all_by_column_id
  get_by_account_id account_id = get_all_by_column_id table server_account_id_column account_id

  unfoldable pub get_all : Exec DatabaseError Store (List TransactionModel)
  unfolding get_all_rows
  get_all = get_all_rows table

  unfoldable pub delete_by_server_id : Text → Exec DatabaseError Store (Unit {0})
  unfolding delete_by_column_id
  delete_by_server_id server_id = delete_by_column_id table server_id_column server_id

  unfoldable pub insert : TransactionModel → Exec DatabaseError Store ℕ
  unfolding insert_row
  insert item = insert_row table (λ i. record item { id = i })

  unfoldable pub update : TransactionModel → Exec DatabaseError Store (Option TransactionModel)
  unfolding update_by_id
  update item = update_by_id table id (id item) (λ r. record item { id = r.id })

  unfoldable pub upsert : TransactionModel → Exec DatabaseError Store (Option TransactionModel)
  unfolding upsert_by get_by_server_id update insert
  upsert item = upsert_by table server_id_column item.server_id (update item) (insert item)
