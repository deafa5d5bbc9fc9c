-- ===== src/Db/Dao/Laws.antt =====
-- What an upsert does on a connection that serves statements: every branch, errors included.
use flutter_app.Common.{
  Result-cases, ℕ, ◌≡◌, ◌≢◌, refl, sym, ◌∙◌, ap, subst, inl, inr, ◌⊎◌, Bool, false, Option, none,
  some, List, [], ◌∷◌, ◌++◌, find, count, ok, err, Exec, pure, Result, continue, ◌>>=◌, ◌==◌, Text,
  text_eq, arith,
}
use flutter_app.Errors.{database, no_changed_rows, DatabaseError}
use flutter_app.Db.Table.{Table, update_where}
use flutter_app.Db.Base.{Column, get_by_column_id}
use flutter_app.Db.Base.Laws.{Has, get_by_id_live, get_by_column_id_live}
use flutter_app.Db.Dao.{update_by_id, upsert_by}

pub count-eq-zero : {R : Type 0} (p : R → Bool) (rs : List R) → find p rs ≡ none → count p rs ≡ 0
count-eq-zero p [] h = refl
count-eq-zero p (r ∷ rs) h = ground (arith, count-eq-zero p rs)

pub count-ne-zero :
    {R : Type 0} (p : R → Bool) (rs : List R) {r : R} → find p rs ≡ some r → count p rs ≢ 0
count-ne-zero p [] h = cc
count-ne-zero p (x ∷ rs) {r} h = ground (arith, count-ne-zero p rs {r = r})

pub find-append :
    {R : Type 0} (p : R → Bool) (xs ys : List R) → find p xs ≡ none → find p (xs ++ ys) ≡ find p ys
find-append p [] ys h = refl
find-append p (x ∷ xs) ys h = ground (arith, find-append p xs ys)

update_where-missing :
    {R : Type 0} (p : R → Bool) (f : R → R) (rs : List R)
    → find p rs ≡ none
    → update_where p f rs ≡ rs
update_where-missing p f [] h = refl
update_where-missing p f (r ∷ rs) h = ground (arith, update_where-missing p f rs)

discard :
    {E S A B : Type 0} (r : Result E A) (g : Exec E S B) (s : S)
    → continue
        (continue r (λ _. pure {E = E} tt) s).0
        (λ _. g)
        (continue r (λ _. pure {E = E} tt) s).1
      ≡ continue r (λ _. g) s
discard (ok a) g s = refl
discard (err e) g s = refl

module _ {R : Type 0} (table : Table R) where
  open table use {Store, Live, rows, columns}

  module _ (id : R → ℕ) (k : ℕ) (f : R → R) (s : Store) (live : Live s) where
    abbrev has_id : R → Bool
    has_id r = id r == k

    -- An update by an id that no row has fails, and changes no row.
    pub update_by_id-missing :
        find has_id (rows s) ≡ none
        → ((update_by_id table id k f s).0 ≡ err no_changed_rows)
          × (rows (update_by_id table id k f s).1 ≡ rows s)
    unfolding update_by_id
    update_by_id-missing none' =
        let done = table.update_none has_id f s live (count-eq-zero has_id (rows s) none') in
        (
          rw done,
          rw done (
              (table.update_ok has_id f s 0 done).1 ∙ update_where-missing has_id f (rows s) none'),
        )

    -- An update by the id of a row either fails in the database and changes no row, or changes the
    -- rows of that id.
    pub update_by_id-found :
        {r : R}
        → find has_id (rows s) ≡ some r
        → ((e : Text) × ((update_by_id table id k f s).0 ≡ err (database e))
            × (rows (update_by_id table id k f s).1 ≡ rows s))
          ⊎ ((o : Option R) × ((update_by_id table id k f s).0 ≡ ok o)
              × (rows (update_by_id table id k f s).1 ≡ update_where has_id f (rows s))
              × Live (update_by_id table id k f s).1
              × (columns (update_by_id table id k f s).1 ≡ columns s))
    unfolding update_by_id
    update_by_id-found some' = elim (Result-cases (table.update has_id f s).0) [
      | inl (e, failed) ↦ inl (e, rw failed, rw failed (table.update_err has_id f s e failed))
      | inr (n, done) ↦
          let (counted, changed) = table.update_ok has_id f s n done in
          let (live', same) = table.update_keeps has_id f s live in
          let some_rows : (n == 0) ≡ false =
            ground (arith, counted, count-ne-zero has_id (rows s) some') in
          let read = get_by_id_live table id k (table.update has_id f s).1 live' in
          let whole : update_by_id table id k f s
              ≡ (ok (find has_id (rows (table.update has_id f s).1)), (table.update has_id f s).1) =
            rw (done, some_rows, read) in
          inr (
            find has_id (rows (table.update has_id f s).1),
            ap (λ z. z.0) whole,
            ap (λ z. rows z.1) whole ∙ changed,
            subst (λ z. Live z) (sym (ap (λ z. z.1) whole)) live',
            ap (λ z. columns z.1) whole ∙ same,
          )
    ]

  module _ {A B : Type 0} (column : Column R) (key : Text) (update : Exec DatabaseError Store A)
      (insert : Exec DatabaseError Store B) (s : Store) (live : Live s)
      (has : Has table column s) where
    abbrev pub has_key : R → Bool
    has_key r = text_eq (column.read r) key

    -- Where the key is there, an upsert is the update and then a query for the key; where the
    -- update fails, so does the upsert.
    pub upsert_by-found :
        {r : R}
        → find has_key (rows s) ≡ some r
        → upsert_by table column key update insert s
          ≡ (update >>= λ _. get_by_column_id table column key) s
    unfolding upsert_by
    upsert_by-found some' =
        rw (get_by_column_id_live table column key s live has, some')
          (discard (update s).0 (get_by_column_id table column key) (update s).1)

    pub upsert_by-missing :
        find has_key (rows s) ≡ none
        → upsert_by table column key update insert s
          ≡ (insert >>= λ _. get_by_column_id table column key) s
    unfolding upsert_by
    upsert_by-missing none' =
        rw (get_by_column_id_live table column key s live has, none')
          (discard (insert s).0 (get_by_column_id table column key) (insert s).1)
