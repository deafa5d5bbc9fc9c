-- ===== src/Db/Base.antt =====
-- rust/src/proton_wallet/db/database/database.rs: the queries and deletions that every table has.
-- Each call takes the lock of the connection for each statement; the calls of one task are modelled
-- with no other task in between.
pub mod Laws
use flutter_app.Common.{
  ℕ, Bool, true, Option, none, List, first, any, ok, err, Exec, fail, map_err, ◌>>=◌, ◌==◌,
  if◌then◌else◌, Text, text_eq,
}
use flutter_app.Errors.{DatabaseError, database, column_not_found}
use flutter_app.Db.Table.{Table}

-- a column of text and the field of the row that it is read into
pub record Column (R : Type 0) : Type 0 where
  pub name : Text
  pub read : R → Text

module _ {R : Type 0} (table : Table R) where
  open table use {Store}

  unfoldable pub column_exists : Text → Exec DatabaseError Store Bool
  column_exists column_name s = (
    map_err database (elim (table.table_info s) [
      | ok names ↦ ok (any (λ name. text_eq name column_name) names)
      | err e ↦ err e
    ]),
    s,
  )

  unfoldable pub get_all : Exec DatabaseError Store (List R)
  get_all s = (map_err database (table.select (λ r. true) s), s)

  -- `query_row(…)` reads the first row, and an error counts as no row (`result.ok()`)
  abbrev pub query_row : (R → Bool) → Store → Option R
  query_row p s = elim (table.select p s) [ ok rs ↦ first rs | err e ↦ none ]

  unfoldable pub get_by_id : (R → ℕ) → ℕ → Exec DatabaseError Store (Option R)
  get_by_id id k s = (ok (query_row (λ r. id r == k) s), s)

  unfoldable pub get_by_column_id : Column R → Text → Exec DatabaseError Store (Option R)
  unfolding column_exists
  get_by_column_id column value = do
    exist ← column_exists column.name
    if exist
        then (λ s. (ok (query_row (λ r. text_eq (column.read r) value) s), s))
        else fail (column_not_found column.name)

  unfoldable pub get_all_by_column_id : Column R → Text → Exec DatabaseError Store (List R)
  unfolding column_exists
  get_all_by_column_id column value = do
    exist ← column_exists column.name
    if exist
        then (λ s. (map_err database (table.select (λ r. text_eq (column.read r) value) s), s))
        else fail (column_not_found column.name)

  abbrev delete_rows : (R → Bool) → Exec DatabaseError Store (Unit {0})
  delete_rows p s =
      let (r, s') = table.delete p s in
      (map_err database (elim r [ ok n ↦ ok tt | err e ↦ err e ]), s')

  unfoldable pub delete_by_id : (R → ℕ) → ℕ → Exec DatabaseError Store (Unit {0})
  delete_by_id id k = delete_rows (λ r. id r == k)

  unfoldable pub delete_by_column_id : Column R → Text → Exec DatabaseError Store (Unit {0})
  unfolding column_exists
  delete_by_column_id column value = do
    exist ← column_exists column.name
    if exist
        then delete_rows (λ r. text_eq (column.read r) value)
        else fail (column_not_found column.name)
