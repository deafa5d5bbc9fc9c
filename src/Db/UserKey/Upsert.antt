-- ===== src/Db/UserKey/Upsert.antt =====
-- `ProtonUserKeyDaoImpl::upsert` of rust/src/proton_wallet/db/dao/proton_user_key_dao.rs, as a write to
-- a map from key ids to rows.
use flutter_app.Common.{
  Result-cases, ◌≡◌, refl, sym, ◌∙◌, ap, subst, inl, inr, ◌⊎◌, Bool, true, false, Option, none,
  some, List, [], ◌∷◌, ◌++◌, find, ok, err, ◌==◌, Text, text_eq, text_eq_iff, text_eq_refl,
  text_eq_comm, Bool-cases, Option-cases, if◌then◌else◌, arith,
}
use flutter_app.Errors.{DatabaseError, database}
use flutter_app.Db.Table.{Table, update_where}
use flutter_app.Db.Base.Laws.{Has, get_by_column_id_live}
use flutter_app.Db.Dao.{insert_row, execute_update}
use flutter_app.Db.Dao.Laws.{count-ne-zero, upsert_by-found, upsert_by-missing}
use flutter_app.Db.UserKey.{ProtonUserKeyModel, key_id_column, update, insert, upsert}

-- the test of a row for a key id
abbrev pub keyed : Text → ProtonUserKeyModel → Bool
keyed key_id r = text_eq r.key_id key_id

module _ (item : ProtonUserKeyModel) where
  abbrev written : ProtonUserKeyModel → ProtonUserKeyModel
  written r = record item { key_id = r.key_id }

  written-own : (r : ProtonUserKeyModel) → keyed item.key_id r ≡ true → written r ≡ item
  written-own r h = ap (λ k. record item { key_id = k }) ((text_eq_iff r.key_id item.key_id).0 h)

  find-written :
      (rs : List ProtonUserKeyModel) {r : ProtonUserKeyModel}
      → find (keyed item.key_id) rs ≡ some r
      → find (keyed item.key_id) (update_where (keyed item.key_id) written rs) ≡ some item
  find-written [] h = cc
  find-written (x ∷ rs) {r} h = elim (Bool-cases (keyed item.key_id x)) [
    | inl own ↦ ground (arith, written-own x own)
    | inr other ↦ ground (arith, find-written rs {r = r})
  ]

  find-other :
      (key_id : Text) (rs : List ProtonUserKeyModel)
      → text_eq item.key_id key_id ≡ false
      → find (keyed key_id) (update_where (keyed item.key_id) written rs) ≡ find (keyed key_id) rs
  find-other key_id [] h = refl
  find-other key_id (x ∷ rs) h = elim (Bool-cases (keyed item.key_id x)) [
    | inl own ↦
        let e : x.key_id ≡ item.key_id = (text_eq_iff x.key_id item.key_id).0 own in
        let apart : keyed key_id x ≡ false = ap (λ k. text_eq k key_id) e ∙ h in
        ground (arith, find-other key_id rs h)
    | inr other ↦ elim (Bool-cases (keyed key_id x)) [
      | inl found ↦ ground arith
      | inr missing ↦ ground (arith, find-other key_id rs h)
    ]
  ]

module _ (table : Table ProtonUserKeyModel) (item : ProtonUserKeyModel) (s : table.Store)
    (live : table.Live s) (has : Has table key_id_column s) where
  open table use {Store, Live, rows, columns}

  -- the connection serves statements, and the columns are the same
  abbrev pub Keeps : Store → Type 0
  Keeps s' = Live s' × (columns s' ≡ columns s)

  abbrev pub Wrote : Store → Type 0
  Wrote s' =
      (key_id : Text)
      → find (keyed key_id) (rows s')
        ≡ (if text_eq item.key_id key_id then some item else find (keyed key_id) (rows s))

  abbrev Outcome : Type 0
  Outcome =
      ((e : DatabaseError) × ((upsert table item s).0 ≡ err e)
        × (rows (upsert table item s).1 ≡ rows s)
        × Keeps (upsert table item s).1)
      ⊎ (((upsert table item s).0 ≡ ok (some item))
          × Wrote (upsert table item s).1
          × Keeps (upsert table item s).1)

  has_after : (s' : Store) → columns s' ≡ columns s → Has table key_id_column s'
  has_after s' same = rw same has

  appended :
      (key_id : Text) (rs : List ProtonUserKeyModel)
      → find (keyed item.key_id) rs ≡ none
      → find (keyed key_id) (rs ++ item ∷ [])
        ≡ (if text_eq item.key_id key_id then some item else find (keyed key_id) rs)
  appended key_id [] missing = elim (Bool-cases (text_eq item.key_id key_id)) [
    | inl same ↦ rw (same, find) refl
    | inr other ↦ rw (other, find) refl
  ]
  appended key_id (x ∷ rs) missing = elim (Bool-cases (keyed key_id x)) [
    | inl found ↦
        let e : x.key_id ≡ key_id = (text_eq_iff x.key_id key_id).0 found in
        let apart : text_eq item.key_id key_id ≡ false =
          text_eq_comm item.key_id key_id
          ∙ ap (λ k. text_eq k item.key_id) (sym e)
          ∙ skipped (text_eq x.key_id item.key_id) (find (keyed item.key_id) rs) missing in
        rw (apart, found, find) refl
    | inr other ↦
        rw (other, find)
          (appended key_id rs
            (skips (text_eq x.key_id item.key_id) (find (keyed item.key_id) rs) missing))
  ]
    where
      skipped :
          (b : Bool) (rest : Option ProtonUserKeyModel)
          → (elim b [ true ↦ some x | false ↦ rest ]) ≡ none
          → b ≡ false
      skipped true rest h = cc
      skipped false rest h = refl

      skips :
          (b : Bool) (rest : Option ProtonUserKeyModel)
          → (elim b [ true ↦ some x | false ↦ rest ]) ≡ none
          → rest ≡ none
      skips true rest h = cc
      skips false rest h = h

  rewritten :
      (key_id : Text) (rs : List ProtonUserKeyModel) {r : ProtonUserKeyModel}
      → find (keyed item.key_id) rs ≡ some r
      → find (keyed key_id) (update_where (keyed item.key_id) (written item) rs)
        ≡ (if text_eq item.key_id key_id then some item else find (keyed key_id) rs)
  rewritten key_id rs {r} known = elim (Bool-cases (text_eq item.key_id key_id)) [
    | inl own ↦
        let e : item.key_id ≡ key_id = (text_eq_iff item.key_id key_id).0 own in
        rw own (
          subst
            (λ k. find (keyed k) (update_where (keyed item.key_id) (written item) rs) ≡ some item) e
            (find-written item rs known))
    | inr other ↦ rw other (find-other item key_id rs other)
  ]

  inserted : find (keyed item.key_id) (rows s) ≡ none → Outcome
  unfolding upsert insert insert_row
  inserted missing =
      let whole =
        upsert_by-missing table key_id_column item.key_id (update table item) (insert table item) s
          live has missing in
      let (live', same) = table.insert_keeps (λ i. item) s live in
      elim (Result-cases (table.insert (λ i. item) s).0) [
        | inl (e, failed) ↦ inl (
          database e,
          (rw (whole, failed) refl),
          rw (whole, failed) (table.insert_err (λ i. item) s e failed),
          (rw (whole, failed) live', rw (whole, failed) same),
        )
        | inr (i, done) ↦
            let s' = (table.insert (λ i. item) s).1 in
            let added = table.insert_ok (λ i. item) s i done in
            let map : (key_id : Text)
                → find (keyed key_id) (rows s') ≡ (
                    if text_eq item.key_id key_id
                    then some item
                    else find (keyed key_id) (rows s)) =
              λ key_id. ap (find (keyed key_id)) added ∙ appended key_id (rows s) missing in
            let read =
              get_by_column_id_live table key_id_column item.key_id s' live' (has_after s' same) in
            let found : find (keyed item.key_id) (rows s') ≡ some item =
              map item.key_id ∙ (rw (text_eq_refl item.key_id) refl) in
            inr (
              rw (whole, done, read) (ap ok found),
              rw (whole, done, read) map,
              (rw (whole, done, read) live', rw (whole, done, read) same),
            )
      ]

  updated : {r : ProtonUserKeyModel} → find (keyed item.key_id) (rows s) ≡ some r → Outcome
  unfolding upsert update execute_update
  updated {r} known =
      let p = keyed item.key_id in
      let f = λ (q : ProtonUserKeyModel). record item { key_id = q.key_id } in
      let whole =
        upsert_by-found table key_id_column item.key_id (update table item) (insert table item) s
          live has known in
      let (live', same) = table.update_keeps p f s live in
      elim (Result-cases (table.update p f s).0) [
        | inl (e, failed) ↦ inl (
          database e,
          (rw (whole, failed) refl),
          rw (whole, failed) (table.update_err p f s e failed),
          (rw (whole, failed) live', rw (whole, failed) same),
        )
        | inr (n, done) ↦
            let s' = (table.update p f s).1 in
            let (counted, changed) = table.update_ok p f s n done in
            let some_rows : (n == 0) ≡ false =
              ground (arith, counted, count-ne-zero p (rows s) known) in
            let map : (key_id : Text)
                → find (keyed key_id) (rows s') ≡ (
                    if text_eq item.key_id key_id
                    then some item
                    else find (keyed key_id) (rows s)) =
              λ key_id. ap (find (keyed key_id)) changed ∙ rewritten key_id (rows s) known in
            let read =
              get_by_column_id_live table key_id_column item.key_id s' live' (has_after s' same) in
            let found : find (keyed item.key_id) (rows s') ≡ some item =
              map item.key_id ∙ (rw (text_eq_refl item.key_id) refl) in
            inr (
              rw (whole, done, some_rows, read) (ap ok found),
              rw (whole, done, some_rows, read) map,
              (rw (whole, done, some_rows, read) live', rw (whole, done, some_rows, read) same),
            )
      ]

  -- On a connection that serves statements, an upsert either fails and changes no row, or returns the
  -- item and is a write to the map that gives the first row of each key id: of the item's key id it is
  -- the item, and of every other it is what it was. In both cases the connection serves statements
  -- afterwards.
  pub upsert_lem :
      ((e : DatabaseError) × ((upsert table item s).0 ≡ err e)
        × (rows (upsert table item s).1 ≡ rows s)
        × Keeps (upsert table item s).1)
      ⊎ (((upsert table item s).0 ≡ ok (some item))
          × Wrote (upsert table item s).1
          × Keeps (upsert table item s).1)
  unfolding upsert update insert insert_row execute_update
  upsert_lem = elim (Option-cases (find (keyed item.key_id) (rows s))) [
    | inl missing ↦ inserted missing
    | inr (r, known) ↦ updated known
  ]
