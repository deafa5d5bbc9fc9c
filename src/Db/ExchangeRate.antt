-- ===== src/Db/ExchangeRate.antt =====
-- rust/src/proton_wallet/db/dao/exchange_rate_dao.rs and model/exchange_rate_model.rs.
use mathlib.Core.Option.{get_or}
use flutter_app.Common.{ℕ, Option, some, List, Exec, Text, codes}
use flutter_app.Errors.{DatabaseError}
use flutter_app.Db.Table.{Table}
use flutter_app.Db.Base.{Column, get_by_id, get_by_column_id, get_all as get_all_rows}
use flutter_app.Db.Dao.{insert_row, update_by_id, upsert_by}

-- `ExchangeRateModel`
pub record ExchangeRateModel : Type 0 where
  pub id : Option ℕ
  pub server_id : Text
  pub bitcoin_unit : Text
  pub fiat_currency : Text
  pub sign : Text
  pub exchange_rate_time : Text
  pub exchange_rate : ℕ
  pub cents : ℕ

-- `item.id.unwrap_or_default()`
abbrev pub id : ExchangeRateModel → ℕ
id r = get_or r.id 0

abbrev pub server_id_column : Column ExchangeRateModel
server_id_column = record { name = codes "server_id"; read = λ r. r.server_id }

module _ (table : Table ExchangeRateModel) where
  open table use {Store}

  unfoldable pub get : ℕ → Exec DatabaseError Store (Option ExchangeRateModel)
  unfolding get_by_id
  get k = get_by_id table id k

  unfoldable pub get_by_server_id : Text → Exec DatabaseError Store (Option ExchangeRateModel)
  unfolding get_by_column_id
  get_by_server_id server_id = get_by_column_id table server_id_column server_id

  unfoldable pub get_all : Exec DatabaseError Store (List ExchangeRateModel)
  unfolding get_all_rows
  get_all = get_all_rows table

  unfoldable pub insert : ExchangeRateModel → Exec DatabaseError Store ℕ
  unfolding insert_row
  insert item = insert_row table (λ i. record item { id = some i })

  unfoldable pub update : ExchangeRateModel → Exec DatabaseError Store (Option ExchangeRateModel)
  unfolding update_by_id
  update item = update_by_id table id (id item) (λ r. record item { id = r.id })

  unfoldable pub upsert : ExchangeRateModel → Exec DatabaseError Store (Option ExchangeRateModel)
  unfolding upsert_by get_by_server_id update insert
  upsert item = upsert_by table server_id_column item.server_id (update item) (insert item)
