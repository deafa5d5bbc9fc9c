-- ===== src/Db/BitcoinAddress.antt =====
-- rust/src/proton_wallet/db/dao/bitcoin_address_dao.rs and model/bitcoin_address_model.rs.
use mathlib.Core.Option.{get_or}
use flutter_app.Common.{ℕ, Option, some, List, Exec, Text, codes}
use flutter_app.Errors.{DatabaseError}
use flutter_app.Db.Table.{Table}
use flutter_app.Db.Base.{
  Column, get_by_id, get_by_column_id, get_all_by_column_id, get_all as get_all_rows,
  delete_by_column_id,
}
use flutter_app.Db.Dao.{insert_row, update_by_id, upsert_by}

-- `BitcoinAddressModel`
pub record BitcoinAddressModel : Type 0 where
  pub id : Option ℕ
  pub server_id : Text
  pub wallet_id : ℕ
  pub account_id : ℕ
  pub bitcoin_address : Text
  pub bitcoin_address_index : ℕ
  pub in_email_integration_pool : ℕ
  pub used : ℕ
  pub server_wallet_id : Text
  pub server_account_id : Text

-- `item.id.unwrap_or_default()`
abbrev pub id : BitcoinAddressModel → ℕ
id r = get_or r.id 0

abbrev pub server_id_column : Column BitcoinAddressModel
server_id_column = record { name = codes "server_id"; read = λ r. r.server_id }

abbrev pub server_account_id_column : Column BitcoinAddressModel
server_account_id_column = record {
  name = codes "server_account_id";
  read = λ r. r.server_account_id;
}

module _ (table : Table BitcoinAddressModel) where
  open table use {Store}

  unfoldable pub get : ℕ → Exec DatabaseError Store (Option BitcoinAddressModel)
  unfolding get_by_id
  get k = get_by_id table id k

  unfoldable pub get_by_server_id : Text → Exec DatabaseError Store (Option BitcoinAddressModel)
  unfolding get_by_column_id
  get_by_server_id server_id = get_by_column_id table server_id_column server_id

  unfoldable pub get_all : Exec DatabaseError Store (List BitcoinAddressModel)
  unfolding get_all_rows
  get_all = get_all_rows table

  unfoldable pub get_all_by_account_id : Text → Exec DatabaseError Store (List BitcoinAddressModel)
  unfolding get_all_by_column_id
  get_all_by_account_id account_id = get_all_by_column_id table server_account_id_column account_id

  unfoldable pub delete_by_account_id : Text → Exec DatabaseError Store (Unit {0})
  unfolding delete_by_column_id
  delete_by_account_id account_id = delete_by_column_id table server_account_id_column account_id

  unfoldable pub insert : BitcoinAddressModel → Exec DatabaseError Store ℕ
  unfolding insert_row
  insert item = insert_row table (λ i. record item { id = some i })

  unfoldable pub update :
      BitcoinAddressModel → Exec DatabaseError Store (Option BitcoinAddressModel)
  unfolding update_by_id
  update item = update_by_id table id (id item) (λ r. record item { id = r.id })

  unfoldable pub upsert :
      BitcoinAddressModel → Exec DatabaseError Store (Option BitcoinAddressModel)
  unfolding upsert_by get_by_server_id update insert
  upsert item = upsert_by table server_id_column item.server_id (update item) (insert item)
