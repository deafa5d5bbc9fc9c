-- ===== src/Db/Contacts.antt =====
-- rust/src/proton_wallet/db/dao/contacts_dao.rs and model/contacts_model.rs.
use mathlib.Core.Option.{get_or}
use flutter_app.Common.{ℕ, Option, some, List, Exec, Text, codes}
use flutter_app.Errors.{DatabaseError}
use flutter_app.Db.Table.{Table}
use flutter_app.Db.Base.{
  Column, get_by_id, get_by_column_id, get_all as get_all_rows, delete_by_column_id,
}
use flutter_app.Db.Dao.{insert_row, update_by_id, upsert_by}

-- `ContactsModel`
pub record ContactsModel : Type 0 where
  pub id : Option ℕ
  pub server_contact_id : Text
  pub name : Text
  pub email : Text
  pub canonical_email : Text
  pub is_proton : ℕ

-- `item.id.unwrap_or_default()`
abbrev pub id : ContactsModel → ℕ
id r = get_or r.id 0

abbrev pub server_contact_id_column : Column ContactsModel
server_contact_id_column = record {
  name = codes "server_contact_id";
  read = λ r. r.server_contact_id;
}

module _ (table : Table ContactsModel) where
  open table use {Store}

  unfoldable pub get : ℕ → Exec DatabaseError Store (Option ContactsModel)
  unfolding get_by_id
  get k = get_by_id table id k

  unfoldable pub get_by_server_id : Text → Exec DatabaseError Store (Option ContactsModel)
  unfolding get_by_column_id
  get_by_server_id server_id = get_by_column_id table server_contact_id_column server_id

  unfoldable pub get_all : Exec DatabaseError Store (List ContactsModel)
  unfolding get_all_rows
  get_all = get_all_rows table

  unfoldable pub delete_by_server_id : Text → Exec DatabaseError Store (Unit {0})
  unfolding delete_by_column_id
  delete_by_server_id server_id = delete_by_column_id table server_contact_id_column server_id

  unfoldable pub insert : ContactsModel → Exec DatabaseError Store ℕ
  unfolding insert_row
  insert item = insert_row table (λ i. record item { id = some i })

  unfoldable pub update : ContactsModel → Exec DatabaseError Store (Option ContactsModel)
  unfolding update_by_id
  update item = update_by_id table id (id item) (λ r. record item { id = r.id })

  unfoldable pub upsert : ContactsModel → Exec DatabaseError Store (Option ContactsModel)
  unfolding upsert_by get_by_server_id update insert
  upsert item =
      upsert_by table server_contact_id_column item.server_contact_id (update item) (insert item)
