-- ===== src/Db/Account.antt =====
-- rust/src/proton_wallet/db/dao/account_dao.rs and model/account_model.rs.
use flutter_app.Common.{ℕ, Option, List, Exec, Text, codes}
use flutter_app.Errors.{DatabaseError}
use flutter_app.Db.Table.{Table}
use flutter_app.Db.Base.{
  Column, get_by_id, get_by_column_id, get_all_by_column_id, get_all as get_all_rows, delete_by_id,
  delete_by_column_id,
}
use flutter_app.Db.Dao.{insert_row, update_by_id, upsert_by}

-- `AccountModel`
pub record AccountModel : Type 0 where
  pub id : ℕ
  pub account_id : Text
  pub wallet_id : Text
  pub derivation_path : Text
  pub label : Text
  pub script_type : ℕ
  pub create_time : ℕ
  pub modify_time : ℕ
  pub fiat_currency : Text
  pub priority : ℕ
  pub last_used_index : ℕ
  pub pool_size : ℕ

abbrev pub id : AccountModel → ℕ
id r = r.id

abbrev pub wallet_id_column : Column AccountModel
wallet_id_column = record { name = codes "wallet_id"; read = λ r. r.wallet_id }

abbrev pub account_id_column : Column AccountModel
account_id_column = record { name = codes "account_id"; read = λ r. r.account_id }

module _ (table : Table AccountModel) where
  open table use {Store}

  unfoldable pub get_all_by_wallet_id : Text → Exec DatabaseError Store (List AccountModel)
  unfolding get_all_by_column_id
  get_all_by_wallet_id wallet_id = get_all_by_column_id table wallet_id_column wallet_id

  unfoldable pub get : ℕ → Exec DatabaseError Store (Option AccountModel)
  unfolding get_by_id
  get k = get_by_id table id k

  unfoldable pub get_all : Exec DatabaseError Store (List AccountModel)
  unfolding get_all_rows
  get_all = get_all_rows table

  unfoldable pub get_by_server_id : Text → Exec DatabaseError Store (Option AccountModel)
  unfolding get_by_column_id
  get_by_server_id server_id = get_by_column_id table account_id_column server_id

  unfoldable pub delete : ℕ → Exec DatabaseError Store (Unit {0})
  unfolding delete_by_id
  delete k = delete_by_id table id k

  unfoldable pub delete_by_account_id : Text → Exec DatabaseError Store (Unit {0})
  unfolding delete_by_column_id
  delete_by_account_id account_id = delete_by_column_id table account_id_column account_id

  unfoldable pub delete_by_wallet_id : Text → Exec DatabaseError Store (Unit {0})
  unfolding delete_by_column_id
  delete_by_wallet_id account_id = delete_by_column_id table wallet_id_column account_id

  unfoldable pub insert : AccountModel → Exec DatabaseError Store ℕ
  unfolding insert_row
  insert item = insert_row table (λ i. record item { id = i })

  unfoldable pub update : AccountModel → Exec DatabaseError Store (Option AccountModel)
  unfolding update_by_id
  update item = update_by_id table id (id item) (λ r. record item { id = r.id })

  unfoldable pub upsert : AccountModel → Exec DatabaseError Store (Option AccountModel)
  unfolding upsert_by get_by_server_id update insert
  upsert item = upsert_by table account_id_column item.account_id (update item) (insert item)
