-- ===== src/Db/Base/Laws.antt =====
-- What the queries return on a connection that serves statements.
use flutter_app.Common.{
  ℕ, ◌≡◌, refl, Bool, true, List, [], ◌∷◌, first, any, find, keep, ok, ◌==◌, Text, text_eq, arith,
}
use flutter_app.Db.Table.{Table}
use flutter_app.Db.Base.{
  Column, query_row, get_by_id, get_by_column_id, get_all_by_column_id, get_all,
}

pub first-keep : {R : Type 0} (p : R → Bool) (rs : List R) → first (keep p rs) ≡ find p rs
first-keep p [] = refl
first-keep p (r ∷ rs) = ground (arith, first-keep p rs)

module _ {R : Type 0} (table : Table R) where
  open table use {Store, Live, rows, columns}

  -- the column is one of the table's
  abbrev pub Has : Column R → Store → Type 0
  Has column s = any (λ name. text_eq name column.name) (columns s) ≡ true

  query_row_live : (p : R → Bool) (s : Store) → Live s → query_row table p s ≡ find p (rows s)
  query_row_live p s live = rw (query_row, table.select_live p s live, first-keep)

  pub get_by_id_live :
      (id : R → ℕ) (k : ℕ) (s : Store)
      → Live s
      → get_by_id table id k s ≡ (ok (find (λ r. id r == k) (rows s)), s)
  unfolding get_by_id
  get_by_id_live id k s live = rw (query_row_live (λ r. id r == k) s live)

  pub get_all_live : (s : Store) → Live s → get_all table s ≡ (ok (keep (λ r. true) (rows s)), s)
  unfolding get_all
  get_all_live s live = rw (table.select_live (λ r. true) s live)

  module _ (column : Column R) (value : Text) (s : Store) (live : Live s) where
    abbrev matches : R → Bool
    matches r = text_eq (column.read r) value

    pub get_by_column_id_live :
        Has column s → get_by_column_id table column value s ≡ (ok (find matches (rows s)), s)
    unfolding get_by_column_id
    get_by_column_id_live has =
        rw (table.table_info_live s live, has, query_row_live matches s live)

    pub get_all_by_column_id_live :
        Has column s → get_all_by_column_id table column value s ≡ (ok (keep matches (rows s)), s)
    unfolding get_all_by_column_id
    get_all_by_column_id_live has =
        rw (table.table_info_live s live, has, table.select_live matches s live)
