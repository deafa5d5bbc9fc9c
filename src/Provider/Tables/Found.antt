-- ===== src/Provider/Tables/Found.antt =====
-- What a provider of a table finds after it was given a row.
use flutter_app.Common.{
  ℕ, ◌≡◌, refl, inl, inr, ◌⊎◌, true, some, find, find-eq-some, ok, Result-cases, Exec, Text,
  text_eq, text_eq_iff, ◌==◌,
}
use flutter_app.Errors.{DatabaseError}
use flutter_app.Db.Table.{Table}
use flutter_app.Db.Base.{Column, get_by_column_id}
use flutter_app.Db.Base.Laws.{Has, get_by_column_id_live}
use flutter_app.Db.Dao.{insert_row, update_by_id, upsert_by}
use flutter_app.Db.Dao.Kept.{keyed, Kept, insert_row-Kept, upsert_by-Kept, update_by_id-wrote}
use flutter_app.Provider.Tables.{DataProvider, answered, returned}

module _ {R : Type 0} (table : Table R) (column : Column R) (item : R) (row : ℕ → R) where
  open table use {Store, Live, rows}

  abbrev pub key : Text
  key = column.read item

  -- `get` gives a row with the key of the item and changes nothing, and the row is the item with an
  -- assigned id unless the table had a row with the key before.
  abbrev pub Found : DataProvider Store R → Store → Store → Type 0
  Found provider s s' =
      (r : R) × (provider.get key s' ≡ (ok (some r), s'))
      × (column.read r ≡ key)
      × (((o : R) × (find (λ q. text_eq (column.read q) key) (rows s) ≡ some o))
          ⊎ ((i : ℕ) × (r ≡ row i)))

  pub kept-Found :
      {A : Type 0} (call : Exec DatabaseError Store A) (s : Store)
      → ((a : A) → (call s).0 ≡ ok a → Kept table column key row s (call s).1)
      → (returned call s).0 ≡ ok tt
      → Found
          (record {
            upsert = λ item. returned call;
            get = λ k. answered (get_by_column_id table column k);
          })
          s
          (returned call s).1
  kept-Found call s kept h = elim (Result-cases (call s).0) [
    | inl (e, failed) ↦ let bad = rw failed at h in cc
    | inr (a, done) ↦
        let (live, has, (r, found, origin)) = kept a done in
        let read = get_by_column_id_live table column key (call s).1 live has in
        let own =
          (text_eq_iff (column.read r) key).0
            (find-eq-some (keyed table column key row) (rows (call s).1) found).1 in
        rw done (r, rw (read, found) refl, own, origin)
  ]

  -- the provider whose upsert is the call
  abbrev pub of_call : {A : Type 0} → Exec DatabaseError Store A → DataProvider Store R
  of_call call = record {
    upsert = λ _. returned call;
    get = λ k. answered (get_by_column_id table column k);
  }

  pub insert_row-Found :
      (s : Store)
      → Live s
      → Has table column s
      → ((i : ℕ) → text_eq (column.read (row i)) key ≡ true)
      → (returned (insert_row table row) s).0 ≡ ok tt
      → Found (of_call (insert_row table row)) s (returned (insert_row table row) s).1
  insert_row-Found s live has own h =
      kept-Found (insert_row table row) s (insert_row-Kept table column key row s live has own) h

  pub upsert_by_id-Found :
      (id : R → ℕ) (k : ℕ) (f : R → R) (s : Store)
      → Live s
      → Has table column s
      → ((i : ℕ) → text_eq (column.read (row i)) key ≡ true)
      → ((r : R) → text_eq (column.read (f r)) key ≡ true)
      → (returned
          (upsert_by table column key (update_by_id table id k f) (insert_row table row))
          s).0
        ≡ ok tt
      → Found
          (of_call (upsert_by table column key (update_by_id table id k f) (insert_row table row)))
          s
          (returned
            (upsert_by table column key (update_by_id table id k f) (insert_row table row))
            s).1
  upsert_by_id-Found id k f s live has own stays h =
      kept-Found (upsert_by table column key (update_by_id table id k f) (insert_row table row)) s
        (upsert_by-Kept table column key row s live has own (update_by_id table id k f)
          (λ r. id r == k) f (λ r _. stays r)
          (update_by_id-wrote table column key row id k f s live))
        h
