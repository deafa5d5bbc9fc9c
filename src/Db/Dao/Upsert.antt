-- ===== src/Db/Dao/Upsert.antt =====
-- An upsert that updates by id, in its three cases: a key that no row has, a key whose row has the
-- id of the item, and a key whose row the item's id misses.
use flutter_app.Common.{
  Result-cases, ℕ, ◌≤◌, ◌≡◌, ◌≢◌, ◌∙◌, ap, inl, inr, ◌⊎◌, Bool, true, Option, none, some, List, [],
  ◌∷◌, ◌++◌, find, All, ok, err, Exec, ◌==◌, Text, text_eq, Bool-cases, arith, find-eq-some, All-In,
}
use flutter_app.Errors.{DatabaseError, database, no_changed_rows}
use flutter_app.Db.Table.{Table, update_where}
use flutter_app.Db.Base.{Column}
use flutter_app.Db.Base.Laws.{Has, get_by_column_id_live}
use flutter_app.Db.Dao.{insert_row, update_by_id, upsert_by}
use flutter_app.Db.Dao.Laws.{
  find-append, update_by_id-missing, update_by_id-found, upsert_by-found, upsert_by-missing,
}

-- no two rows have the same id
abbrev pub IsDistinct : {R : Type 0} → (R → ℕ) → List R → Type 0
IsDistinct id [] = Unit
IsDistinct id (r ∷ rs) = All (λ q. id r ≢ id q) rs × IsDistinct id rs

find-update_where :
    {R : Type 0} (id : R → ℕ) (k : ℕ) (p : R → Bool) (f : R → R) (rs : List R) {r : R}
    → ((q : R) → p (f q) ≡ true)
    → IsDistinct id rs
    → find p rs ≡ some r
    → id r ≡ k
    → find p (update_where (λ q. id q == k) f rs) ≡ some (f r)
find-update_where id k p f [] stays d h e = cc
find-update_where id k p f (x ∷ xs) {r} stays d h e = elim (Bool-cases (p x)) [
  | inl head ↦ let same : x ≡ r = ground arith in ground (arith, stays x, ap id same, ap f same)
  | inr tail ↦
      let later : find p xs ≡ some r = ground arith in
      let apart = All-In (λ q. id x ≢ id q) d.0 (find-eq-some p xs later).0 in
      ground (arith, apart, tail, find-update_where id k p f xs {r = r} stays d.1 later e)
]

module _ {R : Type 0} (table : Table R) (column : Column R) (key : Text) (id : R → ℕ) (k : ℕ)
    (f : R → R) (row : ℕ → R) (s : table.Store) (live : table.Live s)
    (has : Has table column s) where
  open table use {Store, rows}

  abbrev pub upsert : Exec DatabaseError Store (Option R)
  upsert = upsert_by table column key (update_by_id table id k f) (insert_row table row)

  abbrev pub keyed : R → Bool
  keyed r = text_eq (column.read r) key

  abbrev pub Fails : Type 0
  Fails = (e : Text) × ((upsert s).0 ≡ err (database e)) × (rows (upsert s).1 ≡ rows s)

  pub upsert-stale :
      {r : R}
      → find keyed (rows s) ≡ some r
      → find (λ q. id q == k) (rows s) ≡ none
      → ((upsert s).0 ≡ err no_changed_rows) × (rows (upsert s).1 ≡ rows s)
  upsert-stale there' missing =
      let (failed, same) = update_by_id-missing table id k f s live missing in
      let whole =
        upsert_by-found table column key (update_by_id table id k f) (insert_row table row) s live
          has there' in
      (rw (whole, failed), rw (whole, failed) same)

  pub upsert-fresh :
      ((i : ℕ) → keyed (row i) ≡ true)
      → find keyed (rows s) ≡ none
      → Fails
        ⊎ ((i : ℕ) × (1 ≤ i)
            × ((upsert s).0 ≡ ok (some (row i)))
            × (rows (upsert s).1 ≡ rows s ++ row i ∷ []))
  unfolding insert_row
  upsert-fresh keyed_row missing =
      let whole =
        upsert_by-missing table column key (update_by_id table id k f) (insert_row table row) s live
          has missing in
      elim (Result-cases (table.insert row s).0) [
        | inl (e, failed) ↦
            inl (e, rw (whole, failed), rw (whole, failed) (table.insert_err row s e failed))
        | inr (i, done) ↦
            let s' = (table.insert row s).1 in
            let added = table.insert_ok row s i done in
            let (live', same) = table.insert_keeps row s live in
            let has' : Has table column s' = rw same has in
            let found : find keyed (rows s') ≡ some (row i) =
              rw added (find-append keyed (rows s) (row i ∷ []) missing ∙ rw (keyed_row i, find)) in
            let read = get_by_column_id_live table column key s' live' has' in
            inr (
              i,
              table.insert_pos row s i done,
              rw (whole, done, read) (ap ok found),
              rw (whole, done, read) added,
            )
      ]

  -- Where no row has the key, an upsert leaves the connection and the columns as they are.
  pub upsert-fresh-keeps :
      find keyed (rows s) ≡ none
      → table.Live (upsert s).1 × (table.columns (upsert s).1 ≡ table.columns s)
  unfolding insert_row
  upsert-fresh-keeps missing =
      let whole =
        upsert_by-missing table column key (update_by_id table id k f) (insert_row table row) s live
          has missing in
      let (live', same) = table.insert_keeps row s live in
      elim (Result-cases (table.insert row s).0) [
        | inl (e, failed) ↦ (rw (whole, failed) live', rw (whole, failed) same)
        | inr (i, done) ↦
            let has' : Has table column (table.insert row s).1 = rw same has in
            let read = get_by_column_id_live table column key (table.insert row s).1 live' has' in
            (rw (whole, done, read) live', rw (whole, done, read) same)
      ]

  pub upsert-known :
      {r : R}
      → ((q : R) → keyed (f q) ≡ true)
      → IsDistinct id (rows s)
      → find keyed (rows s) ≡ some r
      → id r ≡ k
      → find (λ q. id q == k) (rows s) ≡ some r
      → Fails
        ⊎ (((upsert s).0 ≡ ok (some (f r)))
            × (rows (upsert s).1 ≡ update_where (λ q. id q == k) f (rows s)))
  upsert-known {r} keyed_f distinct there' same_id found =
      let whole =
        upsert_by-found table column key (update_by_id table id k f) (insert_row table row) s live
          has there' in
      elim (update_by_id-found table id k f s live found) [
        | inl (e, failed, same) ↦ inl (e, rw (whole, failed), rw (whole, failed) same)
        | inr (o, done, changed, live', same) ↦
            let s' = (update_by_id table id k f s).1 in
            let has' : Has table column s' = rw same has in
            let stored : find keyed (rows s') ≡ some (f r) =
              rw changed
                (find-update_where id k keyed f (rows s) keyed_f distinct there' same_id) in
            let read = get_by_column_id_live table column key s' live' has' in
            inr (rw (whole, done, read) (ap ok stored), rw (whole, done, read) changed)
      ]
