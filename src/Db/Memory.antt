-- ===== src/Db/Memory.antt =====
-- A table in memory, which shows that the laws of `Db.Table` can be met. It keeps its rows in a
-- list, numbers them from 1 and refuses what breaks the
-- constraints of the table.
use flutter_app.Common.{
  ℕ, suc, ◌≤◌, ◌≡◌, refl, inl, inr, Bool, List, [], ◌∷◌, ◌++◌, Result, ok, err, Text, codes, leb,
  ◌==◌, if◌then◌else◌, Bool-cases, In, here, there, All, keep, count, arith,
}
use flutter_app.Db.Table.{Table, update_where, delete_where, IsAscending}

pub record Contents (R : Type 0) : Type 0 where
  pub stored : List R
  pub next_id : ℕ

module _ {R : Type 0} where
  unfoldable pub place : (R → ℕ) → R → List R → List R
  place key r [] = r ∷ []
  place key r (q ∷ qs) =
      let rest = place key r qs in if leb (key r) (key q) then r ∷ q ∷ qs else q ∷ rest

  unfoldable pub ordered : (R → ℕ) → List R → List R
  unfolding place
  ordered key [] = []
  ordered key (r ∷ rs) = place key r (ordered key rs)

  All-le_trans :
      (key : R → ℕ) (a b : ℕ) (rs : List R)
      → a ≤ b
      → All (λ q. b ≤ key q) rs
      → All (λ q. a ≤ key q) rs
  All-le_trans key a b [] h all = tt
  All-le_trans key a b (r ∷ rs) h all = (omega arith, All-le_trans key a b rs h all.1)

  All-place :
      (key : R → ℕ) (a : ℕ) (r : R) (qs : List R)
      → a ≤ key r
      → All (λ q. a ≤ key q) qs
      → All (λ q. a ≤ key q) (place key r qs)
  unfolding place
  All-place key a r [] h all = (h, tt)
  All-place key a r (q ∷ qs) h all = elim (Bool-cases (leb (key r) (key q))) [
    | inl small ↦ rw small (h, (all.0, all.1))
    | inr large ↦ rw large (all.0, All-place key a r qs h all.1)
  ]

  place-IsAscending :
      (key : R → ℕ) (r : R) (qs : List R) → IsAscending key qs → IsAscending key (place key r qs)
  unfolding place
  place-IsAscending key r [] s = (tt, tt)
  place-IsAscending key r (q ∷ qs) s = elim (Bool-cases (leb (key r) (key q))) [
    | inl small ↦
        rw small
          ((ground arith, All-le_trans key (key r) (key q) qs (ground arith) s.0), (s.0, s.1))
    | inr large ↦
        rw large (All-place key (key q) r qs (ground arith) s.0, place-IsAscending key r qs s.1)
  ]

  pub ordered-IsAscending : (key : R → ℕ) (rs : List R) → IsAscending key (ordered key rs)
  unfolding ordered
  ordered-IsAscending key [] = tt
  ordered-IsAscending key (r ∷ rs) =
      place-IsAscending key r (ordered key rs) (ordered-IsAscending key rs)

  place-In : (key : R → ℕ) (r : R) (qs : List R) {a : R} → In a (r ∷ qs) → In a (place key r qs)
  unfolding place
  place-In key r [] m = m
  place-In key r (q ∷ qs) here = elim (Bool-cases (leb (key r) (key q))) [
    | inl small ↦ rw small here
    | inr large ↦ rw large (there (place-In key r qs here))
  ]
  place-In key r (q ∷ qs) (there here) = elim (Bool-cases (leb (key r) (key q))) [
    | inl small ↦ rw small (there here)
    | inr large ↦ rw large here
  ]
  place-In key r (q ∷ qs) (there (there m)) = elim (Bool-cases (leb (key r) (key q))) [
    | inl small ↦ rw small (there (there m))
    | inr large ↦ rw large (there (place-In key r qs (there m)))
  ]

  swap_head : {a r q : R} {qs : List R} → In a (r ∷ qs) → In a (r ∷ q ∷ qs)
  swap_head here = here
  swap_head (there t) = there (there t)

  under :
      {a r q : R} {ps qs : List R} → (In a ps → In a (r ∷ qs)) → In a (q ∷ ps) → In a (r ∷ q ∷ qs)
  under ih here = there here
  under ih (there k) = swap_head (ih k)

  In-place : (key : R → ℕ) (r : R) (qs : List R) {a : R} → In a (place key r qs) → In a (r ∷ qs)
  unfolding place
  In-place key r [] m = m
  In-place key r (q ∷ qs) {a} m = elim (Bool-cases (leb (key r) (key q))) [
    | inl small ↦ rw (small, place) at m
    | inr large ↦ under (In-place key r qs) (rw (large, place) at m)
  ]

  pub ordered-In : (key : R → ℕ) (rs : List R) {a : R} → In a rs → In a (ordered key rs)
  unfolding ordered
  ordered-In key [] m = m
  ordered-In key (r ∷ rs) here = place-In key r (ordered key rs) here
  ordered-In key (r ∷ rs) (there m) = place-In key r (ordered key rs) (there (ordered-In key rs m))

  pub In-ordered : (key : R → ℕ) (rs : List R) {a : R} → In a (ordered key rs) → In a rs
  unfolding ordered
  In-ordered key [] m = m
  In-ordered key (r ∷ rs) m = put (In-ordered key rs) (In-place key r (ordered key rs) m)
    where
      put : {a : R} → (In a (ordered key rs) → In a rs) → In a (r ∷ ordered key rs) → In a (r ∷ rs)
      put ih here = here
      put ih (there k) = there (ih k)

-- `columns` are the columns of the table, and `allows` its constraints.
module _ {R : Type 0} (columns : List Text) (allows : List R → Bool) where
  abbrev violation : Text
  violation = codes "constraint failed"

  unfoldable pub insert : (ℕ → R) → Contents R → Result Text ℕ × Contents R
  insert mk s =
      let rs = s.stored ++ mk (suc s.next_id) ∷ [] in
      if allows rs
      then (ok (suc s.next_id), record { stored = rs; next_id = suc s.next_id })
      else (err violation, s)

  unfoldable pub update : (R → Bool) → (R → R) → Contents R → Result Text ℕ × Contents R
  update p f s =
      let rs = update_where p f s.stored in
      if count p s.stored == 0
      then (ok 0, s)
      else if allows rs
      then (ok (count p s.stored), record s { stored = rs })
      else (err violation, s)

  update_where-none :
      (p : R → Bool) (f : R → R) (rs : List R) → count p rs ≡ 0 → update_where p f rs ≡ rs
  update_where-none p f [] h = refl
  update_where-none p f (r ∷ rs) h = ground (arith, update_where-none p f rs)

  pub insert_ok :
      (mk : ℕ → R) (s : Contents R) (i : ℕ)
      → (insert mk s).0 ≡ ok i
      → (insert mk s).1.stored ≡ s.stored ++ mk i ∷ []
  unfolding insert
  insert_ok mk s i h = ground arith

  pub insert_pos : (mk : ℕ → R) (s : Contents R) (i : ℕ) → (insert mk s).0 ≡ ok i → 1 ≤ i
  unfolding insert
  insert_pos mk s i h = ground arith

  pub insert_err :
      (mk : ℕ → R) (s : Contents R) (e : Text)
      → (insert mk s).0 ≡ err e
      → (insert mk s).1.stored ≡ s.stored
  unfolding insert
  insert_err mk s e h = ground arith

  pub update_ok :
      (p : R → Bool) (f : R → R) (s : Contents R) (n : ℕ)
      → (update p f s).0 ≡ ok n
      → (n ≡ count p s.stored) × ((update p f s).1.stored ≡ update_where p f s.stored)
  unfolding update
  update_ok p f s n h = ground (arith, update_where-none p f s.stored)

  pub update_err :
      (p : R → Bool) (f : R → R) (s : Contents R) (e : Text)
      → (update p f s).0 ≡ err e
      → (update p f s).1.stored ≡ s.stored
  unfolding update
  update_err p f s e h = ground arith

  pub update_none :
      (p : R → Bool) (f : R → R) (s : Contents R) → count p s.stored ≡ 0 → (update p f s).0 ≡ ok 0
  unfolding update
  update_none p f s h = ground arith

  abbrev pub memory : Table R
  memory = record {
    Store = Contents R;
    Live = λ s. Unit {0};
    rows = λ s. s.stored;
    columns = λ s. columns;
    table_info = λ s. ok columns;
    select = λ p s. ok (keep p s.stored);
    select_ordered = λ p key s. ok (ordered key (keep p s.stored));
    insert = insert;
    update = update;
    delete = λ p s. (ok (count p s.stored), record s { stored = delete_where p s.stored });
    table_info_live = λ s live. refl;
    select_live = λ p s live. refl;
    select_ordered_live = λ p key s live. (
      ordered key (keep p s.stored),
      refl,
      ordered-IsAscending key (keep p s.stored),
      (λ r m. In-ordered key (keep p s.stored) m),
      (λ r m. ordered-In key (keep p s.stored) m),
    );
    insert_keeps = λ mk s live. (tt, refl);
    update_keeps = λ p f s live. (tt, refl);
    delete_keeps = λ p s live. (tt, refl);
    insert_ok = insert_ok;
    insert_pos = insert_pos;
    insert_err = insert_err;
    update_ok = update_ok;
    update_err = update_err;
    update_none = λ p f s live h. update_none p f s h;
    delete_live = λ p s live. (refl, refl);
  }
