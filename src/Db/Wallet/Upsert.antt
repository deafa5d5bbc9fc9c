-- ===== src/Db/Wallet/Upsert.antt =====
-- `WalletDaoImpl::upsert`, on each of its branches.
use flutter_app.Common.{
  ℕ, ◌≤◌, ◌≡◌, ◌⊎◌, none, some, ◌++◌, [], ◌∷◌, find, ok, err, ◌==◌, Text, text_eq, text_eq_refl,
}
use flutter_app.Errors.{database, no_changed_rows}
use flutter_app.Db.Table.{Table, update_where}
use flutter_app.Db.Base.Laws.{Has}
use flutter_app.Db.Dao.Upsert
use flutter_app.Db.Dao.Upsert.{IsDistinct}
use flutter_app.Db.Wallet.{WalletModel, id, wallet_id_column, upsert}

module _ {F : Type 0} (table : Table (WalletModel F)) (item : WalletModel F) (s : table.Store)
    (live : table.Live s) (has : Has table wallet_id_column s) where
  -- Where the table has the wallet of the item, and no row has the item's id, an upsert fails with
  -- `NoChangedRows` and changes no row.
  pub upsert-stale :
      {r : WalletModel F}
      → find (λ q. text_eq q.wallet_id item.wallet_id) (table.rows s) ≡ some r
      → find (λ q. q.id == item.id) (table.rows s) ≡ none
      → ((upsert table item s).0 ≡ err no_changed_rows)
        × (table.rows (upsert table item s).1 ≡ table.rows s)
  unfolding upsert
  upsert-stale known missing =
      Upsert.upsert-stale table wallet_id_column item.wallet_id id item.id
        (λ r. record item { id = r.id }) (λ i. record item { id = i }) s live has known missing

  -- Where the table has no row of the wallet, an upsert either fails in the database and changes no
  -- row, or adds the item as the last row, with the positive id that the database assigns, and returns
  -- that row.
  pub upsert-fresh :
      find (λ q. text_eq q.wallet_id item.wallet_id) (table.rows s) ≡ none
      → ((e : Text) × ((upsert table item s).0 ≡ err (database e))
          × (table.rows (upsert table item s).1 ≡ table.rows s))
        ⊎ ((i : ℕ) × (1 ≤ i)
            × ((upsert table item s).0 ≡ ok (some (record item { id = i })))
            × (table.rows (upsert table item s).1 ≡ table.rows s ++ record item { id = i } ∷ []))
  unfolding upsert
  upsert-fresh missing =
      Upsert.upsert-fresh table wallet_id_column item.wallet_id id item.id
        (λ r. record item { id = r.id }) (λ i. record item { id = i }) s live has
        (λ i. text_eq_refl item.wallet_id) missing

  pub upsert-fresh-keeps :
      find (λ q. text_eq q.wallet_id item.wallet_id) (table.rows s) ≡ none
      → table.Live (upsert table item s).1
        × (table.columns (upsert table item s).1 ≡ table.columns s)
  unfolding upsert
  upsert-fresh-keeps missing =
      Upsert.upsert-fresh-keeps table wallet_id_column item.wallet_id id item.id
        (λ r. record item { id = r.id }) (λ i. record item { id = i }) s live has missing

  -- Where the row of the wallet has the item's id, and no two rows have the same id, an upsert either
  -- fails in the database and changes no row, or writes the item over the rows of that id, leaves the
  -- others as they are, and returns the item.
  pub upsert-known :
      {r : WalletModel F}
      → IsDistinct id (table.rows s)
      → find (λ q. text_eq q.wallet_id item.wallet_id) (table.rows s) ≡ some r
      → r.id ≡ item.id
      → find (λ q. q.id == item.id) (table.rows s) ≡ some r
      → ((e : Text) × ((upsert table item s).0 ≡ err (database e))
          × (table.rows (upsert table item s).1 ≡ table.rows s))
        ⊎ (((upsert table item s).0 ≡ ok (some item))
            × (table.rows (upsert table item s).1
                ≡ update_where
                    (λ q. q.id == item.id)
                    (λ q. record item { id = q.id })
                    (table.rows s)))
  unfolding upsert
  upsert-known {r} distinct known same found = rw same at (
      Upsert.upsert-known table wallet_id_column item.wallet_id id item.id
        (λ r. record item { id = r.id }) (λ i. record item { id = i }) s live has {r = r}
        (λ q. text_eq_refl item.wallet_id) distinct known same found)
