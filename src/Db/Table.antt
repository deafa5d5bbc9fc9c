-- ===== src/Db/Table.antt =====
-- What the data access objects use of SQLite, through rusqlite: the statements on one table whose
-- rows are read as values of `R`. It is a parameter of the model. The laws are the documented
-- behaviour of the statements on a connection that serves them (`Live`).
use flutter_app.Common.{
  ℕ, ◌≤◌, ◌≡◌, Bool, not, List, [], ◌∷◌, ◌++◌, Result, ok, err, Text, In, All, keep, count,
  if◌then◌else◌,
}

-- the rows after `UPDATE … SET f WHERE p`
abbrev pub update_where {ℓ} : {R : Type ℓ} → (R → Bool) → (R → R) → List R → List R
update_where p f [] = []
update_where p f (r ∷ rs) = (if p r then f r else r) ∷ update_where p f rs

-- the rows after `DELETE … WHERE p`
abbrev pub delete_where {ℓ} : {R : Type ℓ} → (R → Bool) → List R → List R
delete_where p rs = keep (λ r. not (p r)) rs

-- each key is at most the next ones
abbrev pub IsAscending {ℓ} : {R : Type ℓ} → (R → ℕ) → List R → Type 0
IsAscending key [] = Unit
IsAscending key (r ∷ rs) = All (λ q. key r ≤ key q) rs × IsAscending key rs

pub record Table (R : Type 0) : Type 1 where
  pub Store : Type 0
  pub Live : Store → Type 0
  -- the rows, in the order in which a scan meets them, and the names of the columns
  pub rows : Store → List R
  pub columns : Store → List Text
  -- `PRAGMA table_info`
  pub table_info : Store → Result Text (List Text)
  -- `SELECT * … WHERE p`, and with `ORDER BY key ASC`
  pub select : (R → Bool) → Store → Result Text (List R)
  pub select_ordered : (R → Bool) → (R → ℕ) → Store → Result Text (List R)
  -- `INSERT`: the row as a function of the id that is assigned; it returns that id
  pub insert : (ℕ → R) → Store → Result Text ℕ × Store
  -- `UPDATE … SET f WHERE p` and `DELETE … WHERE p` return the number of rows changed
  pub update : (R → Bool) → (R → R) → Store → Result Text ℕ × Store
  pub delete : (R → Bool) → Store → Result Text ℕ × Store
  pub table_info_live : (s : Store) → Live s → table_info s ≡ ok (columns s)
  pub select_live : (p : R → Bool) (s : Store) → Live s → select p s ≡ ok (keep p (rows s))
  pub select_ordered_live :
      (p : R → Bool) (key : R → ℕ) (s : Store)
      → Live s
      → (rs : List R) × (select_ordered p key s ≡ ok rs)
        × IsAscending key rs
        × ((r : R) → In r rs → In r (keep p (rows s)))
        × ((r : R) → In r (keep p (rows s)) → In r rs)
  -- a statement leaves the connection and the columns as they are
  pub insert_keeps :
      (mk : ℕ → R) (s : Store)
      → Live s
      → Live (insert mk s).1 × (columns (insert mk s).1 ≡ columns s)
  pub update_keeps :
      (p : R → Bool) (f : R → R) (s : Store)
      → Live s
      → Live (update p f s).1 × (columns (update p f s).1 ≡ columns s)
  pub delete_keeps :
      (p : R → Bool) (s : Store)
      → Live s
      → Live (delete p s).1 × (columns (delete p s).1 ≡ columns s)
  -- a statement that fails, as one that breaks a constraint of the table does, changes no row
  pub insert_ok :
      (mk : ℕ → R) (s : Store) (i : ℕ)
      → (insert mk s).0 ≡ ok i
      → rows (insert mk s).1 ≡ rows s ++ mk i ∷ []
  -- ids start at 1
  pub insert_pos : (mk : ℕ → R) (s : Store) (i : ℕ) → (insert mk s).0 ≡ ok i → 1 ≤ i
  pub insert_err :
      (mk : ℕ → R) (s : Store) (e : Text) → (insert mk s).0 ≡ err e → rows (insert mk s).1 ≡ rows s
  pub update_ok :
      (p : R → Bool) (f : R → R) (s : Store) (n : ℕ)
      → (update p f s).0 ≡ ok n
      → (n ≡ count p (rows s)) × (rows (update p f s).1 ≡ update_where p f (rows s))
  pub update_err :
      (p : R → Bool) (f : R → R) (s : Store) (e : Text)
      → (update p f s).0 ≡ err e
      → rows (update p f s).1 ≡ rows s
  -- an update that meets no row breaks no constraint
  pub update_none :
      (p : R → Bool) (f : R → R) (s : Store)
      → Live s
      → count p (rows s) ≡ 0
      → (update p f s).0 ≡ ok 0
  pub delete_live :
      (p : R → Bool) (s : Store)
      → Live s
      → ((delete p s).0 ≡ ok (count p (rows s))) × (rows (delete p s).1 ≡ delete_where p (rows s))
