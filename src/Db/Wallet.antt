-- ===== src/Db/Wallet.antt =====
-- rust/src/proton_wallet/db/dao/wallet_dao.rs and model/wallet_model.rs.
pub mod Upsert
pub mod Ordered
use flutter_app.Common.{ℕ, Option, none, List, first, ok, err, map_err, Exec, Text, codes, text_eq}
use flutter_app.Errors.{DatabaseError, database}
use flutter_app.Db.Table.{Table}
use flutter_app.Db.Base.{
  Column, get_by_id, get_by_column_id, get_all as get_all_rows, delete_by_id, delete_by_column_id,
}
use flutter_app.Db.Dao.{insert_row, update_by_id, upsert_by}

-- `WalletModel`; `F` stands for `f64`.
pub record WalletModel (F : Type 0) : Type 0 where
  pub id : ℕ
  pub name : Text
  pub passphrase : ℕ
  pub public_key : Text
  pub imported : ℕ
  pub priority : ℕ
  pub status : ℕ
  pub type_ : ℕ
  pub create_time : ℕ
  pub modify_time : ℕ
  pub user_id : Text
  pub wallet_id : Text
  pub account_count : ℕ
  pub balance : F
  pub fingerprint : Option Text
  pub show_wallet_recovery : ℕ
  pub migration_required : ℕ
  pub legacy : Option ℕ

abbrev pub id : {F : Type 0} → WalletModel F → ℕ
id r = r.id

abbrev pub wallet_id_column : {F : Type 0} → Column (WalletModel F)
wallet_id_column = record { name = codes "wallet_id"; read = λ r. r.wallet_id }

module _ {F : Type 0} (table : Table (WalletModel F)) where
  open table use {Store}

  unfoldable pub get_by_server_id : Text → Exec DatabaseError Store (Option (WalletModel F))
  unfolding get_by_column_id
  get_by_server_id server_id = get_by_column_id table wallet_id_column server_id

  unfoldable pub get_all_by_user_id : Text → Exec DatabaseError Store (List (WalletModel F))
  get_all_by_user_id user_id s = (
    map_err database (table.select_ordered (λ r. text_eq r.user_id user_id) (λ r. r.priority) s),
    s,
  )

  unfoldable pub delete_by_wallet_id : Text → Exec DatabaseError Store (Unit {0})
  unfolding delete_by_column_id
  delete_by_wallet_id wallet_id = delete_by_column_id table wallet_id_column wallet_id

  unfoldable pub get : ℕ → Exec DatabaseError Store (Option (WalletModel F))
  unfolding get_by_id
  get k = get_by_id table id k

  unfoldable pub get_default_wallet_by_user_id :
      Text → Exec DatabaseError Store (Option (WalletModel F))
  get_default_wallet_by_user_id user_id s = (
    ok (elim (table.select_ordered (λ r. text_eq r.user_id user_id) (λ r. r.priority) s) [
      | ok rs ↦ first rs
      | err e ↦ none
    ]),
    s,
  )

  unfoldable pub get_all : Exec DatabaseError Store (List (WalletModel F))
  unfolding get_all_rows
  get_all = get_all_rows table

  unfoldable pub delete : ℕ → Exec DatabaseError Store (Unit {0})
  unfolding delete_by_id
  delete k = delete_by_id table id k

  unfoldable pub insert : WalletModel F → Exec DatabaseError Store ℕ
  unfolding insert_row
  insert item = insert_row table (λ i. record item { id = i })

  unfoldable pub update : WalletModel F → Exec DatabaseError Store (Option (WalletModel F))
  unfolding update_by_id
  update item = update_by_id table id (id item) (λ r. record item { id = r.id })

  unfoldable pub upsert : WalletModel F → Exec DatabaseError Store (Option (WalletModel F))
  unfolding upsert_by get_by_server_id update insert
  upsert item = upsert_by table wallet_id_column item.wallet_id (update item) (insert item)
