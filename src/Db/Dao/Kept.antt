-- ===== src/Db/Dao/Kept.antt =====
-- What an insert and an upsert leave behind, whatever the update of the upsert tests for.
use flutter_app.Common.{
  Result-cases, ℕ, ◌≡◌, refl, ◌∙◌, inl, inr, ◌⊎◌, Bool, true, Option, some, List, [], ◌∷◌, ◌++◌,
  find, ok, Exec, ◌==◌, Text, text_eq, Bool-cases, Option-cases, arith,
}
use flutter_app.Errors.{DatabaseError}
use flutter_app.Db.Table.{Table, update_where}
use flutter_app.Db.Base.{Column}
use flutter_app.Db.Base.Laws.{Has, get_by_id_live, get_by_column_id_live}
use flutter_app.Db.Dao.{insert_row, update_by_id, upsert_by}
use flutter_app.Db.Dao.Laws.{find-append, upsert_by-found, upsert_by-missing}

find-append-some :
    {R : Type 0} (p : R → Bool) (xs ys : List R) {r : R}
    → find p xs ≡ some r
    → find p (xs ++ ys) ≡ some r
find-append-some p [] ys h = cc
find-append-some p (x ∷ xs) ys {r} h = ground (arith, find-append-some p xs ys {r = r})

find-kept :
    {R : Type 0} (p q : R → Bool) (f : R → R) (rs : List R) {r : R}
    → ((x : R) → q x ≡ true → p (f x) ≡ true)
    → find p rs ≡ some r
    → (x : R) × (find p (update_where q f rs) ≡ some x)
find-kept p q f [] stays h = absurd (cc)
find-kept p q f (x ∷ rs) {r} stays h = elim (Bool-cases (q x)) [
  | inl written ↦ (f x, ground (arith, written, stays x written))
  | inr left ↦ elim (Bool-cases (p x)) [
    | inl found ↦ (x, ground (arith, left, found))
    | inr later ↦
        let (y, e) = find-kept p q f rs {r = r} stays (rw (later, find) at h) in
        (y, ground (arith, left, later, e))
  ]
]

module _ {R : Type 0} (table : Table R) (column : Column R) (key : Text) (row : ℕ → R) where
  open table use {Store, Live, rows, columns}

  abbrev pub keyed : R → Bool
  keyed r = text_eq (column.read r) key

  -- There is a row with the key, and it is the new row unless there was one before.
  abbrev pub Kept : Store → Store → Type 0
  Kept s s' =
      Live s'
      × Has table column s'
      × ((r : R) × (find keyed (rows s') ≡ some r)
          × (((o : R) × (find keyed (rows s) ≡ some o)) ⊎ ((i : ℕ) × (r ≡ row i))))

  module _ (s : Store) (live : Live s) (has : Has table column s)
      (own : (i : ℕ) → keyed (row i) ≡ true) where
    pub insert_row-Kept :
        (n : ℕ) → (insert_row table row s).0 ≡ ok n → Kept s (insert_row table row s).1
    unfolding insert_row
    insert_row-Kept n h = elim (Result-cases (table.insert row s).0) [
      | inl (e, failed) ↦ let bad = rw failed at h in cc
      | inr (i, done) ↦
          let added = table.insert_ok row s i done in
          let (live', same) = table.insert_keeps row s live in
          let has' : Has table column (table.insert row s).1 = rw same has in
          elim (Option-cases (find keyed (rows s))) [
            | inl missing ↦
                let found : find keyed (rows (table.insert row s).1) ≡ some (row i) =
                  rw added (find-append keyed (rows s) (row i ∷ []) missing ∙ rw (own i, find)) in
                (live', has', (row i, found, inr (i, refl)))
            | inr (o, known) ↦
                let found : find keyed (rows (table.insert row s).1) ≡ some o =
                  rw added (find-append-some keyed (rows s) (row i ∷ []) known) in
                (live', has', (o, found, inl (o, known)))
          ]
    ]

    pub upsert_by-Kept :
        {A : Type 0} (update : Exec DatabaseError Store A) (q : R → Bool) (f : R → R)
        → ((x : R) → q x ≡ true → keyed (f x) ≡ true)
        → ((a : A)
            → (update s).0 ≡ ok a
            → Live (update s).1
              × (columns (update s).1 ≡ columns s)
              × (rows (update s).1 ≡ update_where q f (rows s)))
        → (o : Option R) → (upsert_by table column key update (insert_row table row) s).0 ≡ ok o
        → Kept s (upsert_by table column key update (insert_row table row) s).1
    upsert_by-Kept update q f stays wrote o h = elim (Option-cases (find keyed (rows s))) [
      | inl missing ↦
          let whole =
            upsert_by-missing table column key update (insert_row table row) s live has missing in
          elim (Result-cases (insert_row table row s).0) [
            | inl (e, failed) ↦ let bad = rw (whole, failed) at h in cc
            | inr (n, done) ↦
                let kept = insert_row-Kept n done in
                let read =
                  get_by_column_id_live table column key (insert_row table row s).1 kept.0 kept.1 in
                rw (whole, done, read) kept
          ]
      | inr (old, known) ↦
          let whole =
            upsert_by-found table column key update (insert_row table row) s live has known in
          elim (Result-cases (update s).0) [
            | inl (e, failed) ↦ let bad = rw (whole, failed) at h in cc
            | inr (a, done) ↦
                let (live', same, changed) = wrote a done in
                let has' : Has table column (update s).1 = rw same has in
                let (x, found) = find-kept keyed q f (rows s) stays known in
                let read = get_by_column_id_live table column key (update s).1 live' has' in
                rw (whole, done, read) (live', has', (x, rw changed found, inl (old, known)))
          ]
    ]

  -- an update by id that returns has written the rows of this id
  pub update_by_id-wrote :
      (id : R → ℕ) (k : ℕ) (f : R → R) (s : Store)
      → Live s
      → (o : Option R) → (update_by_id table id k f s).0 ≡ ok o
      → Live (update_by_id table id k f s).1
        × (columns (update_by_id table id k f s).1 ≡ columns s)
        × (rows (update_by_id table id k f s).1 ≡ update_where (λ r. id r == k) f (rows s))
  unfolding update_by_id
  update_by_id-wrote id k f s live o h =
      let p = λ (r : R). id r == k in
      elim (Result-cases (table.update p f s).0) [
        | inl (e, failed) ↦ let bad = rw failed at h in cc
        | inr (n, done) ↦ elim (Bool-cases (n == 0)) [
          | inl nothing ↦ let bad = rw (done, nothing) at h in cc
          | inr something ↦
              let (live', same) = table.update_keeps p f s live in
              let read = get_by_id_live table id k (table.update p f s).1 live' in
              rw (done, something, read) (live', same, (table.update_ok p f s n done).1)
        ]
      ]
