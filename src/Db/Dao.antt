-- ===== src/Db/Dao.antt =====
-- The statements that all data access objects of rust/src/proton_wallet/db/dao/ are made of, each
-- with its own table, columns and row.
pub mod Laws
pub mod Upsert
pub mod Kept
use flutter_app.Common.{
  ℕ, Bool, Option, none, some, ok, err, Exec, pure, fail, map_err, ◌>>=◌, ◌>>◌, ◌==◌, ◌%◌,
  if◌then◌else◌, Text,
}
use flutter_app.Errors.{DatabaseError, database, no_changed_rows}
use flutter_app.Db.Table.{Table}
use flutter_app.Db.Base.{Column, get_by_id, get_by_column_id}

module _ {R : Type 0} (table : Table R) where
  open table use {Store}

  -- `conn.execute("INSERT …")` and `conn.last_insert_rowid() as u32`; an error is logged and
  -- returned.
  unfoldable pub insert_row : (ℕ → R) → Exec DatabaseError Store ℕ
  insert_row row s =
      let (r, s') = table.insert row s in
      (elim r [ ok i ↦ ok (i % 4294967296) | err e ↦ err (database e) ], s')

  -- `conn.execute("UPDATE …")?`
  unfoldable pub execute_update : (R → Bool) → (R → R) → Exec DatabaseError Store ℕ
  execute_update p f s = let (r, s') = table.update p f s in (map_err database r, s')

  -- An update by id: it fails if it changed no row, and else reads the row by the same id.
  unfoldable pub update_by_id : (id : R → ℕ) (k : ℕ) → (R → R) → Exec DatabaseError Store (Option R)
  unfolding execute_update
  update_by_id id k f = do
    rows_affected ← execute_update (λ r. id r == k) f
    if rows_affected == 0 then fail no_changed_rows else get_by_id table id k

  -- The body of an `upsert`: it looks for the key in the column, updates or inserts, and reads the
  -- key again.
  unfoldable pub upsert_by :
      {A B : Type 0}
      → Column R
      → Text
      → Exec DatabaseError Store A
      → Exec DatabaseError Store B
      → Exec DatabaseError Store (Option R)
  upsert_by column key update insert = do
    found ← get_by_column_id table column key
    elim found [ some r ↦ (update >> pure tt) | none ↦ (insert >> pure tt) ]
    get_by_column_id table column key
