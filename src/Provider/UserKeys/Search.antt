-- ===== src/Provider/UserKeys/Search.antt =====
-- What a search for a user key finds, by what the local table has.
use flutter_app.Common.{
  ◌≡◌, inl, inr, refl, true, List, [], ◌∷◌, keep, is_empty, ok, err, pure, fail, Text, text_eq,
  if◌then◌else◌, Bool-cases,
}
use flutter_app.Errors.{no_user_keys_found}
use flutter_app.Storage.UserKey.{ProtonUsersClient, UserKeyStore}
use flutter_app.Db.Table.{Table}
use flutter_app.Db.Base.Laws.{Has, get_all_by_column_id_live}
use flutter_app.Db.UserKey
use flutter_app.Db.UserKey.{ProtonUserKeyModel, user_id_column}
use flutter_app.Provider.UserKeys.{
  UserKeys, locked_keys, get_user_keys_from_db, find_user_key, get_primary_key, get_user_key,
  get_user_keys, load_user_keys_from_server,
}

module _ {W : Type 0} (user_id : Text) (table : Table ProtonUserKeyModel) (store : UserKeyStore W)
    (client : ProtonUsersClient W) (s : UserKeys table.Store W) where
  -- the user's rows
  abbrev pub rows_of : List ProtonUserKeyModel
  rows_of = keep (λ r. text_eq r.user_id user_id) (table.rows s.database)

  module _ (live : table.Live s.database) (has : Has table user_id_column s.database) where
    from_db :
        get_user_keys_from_db user_id table store client s
        ≡ (if is_empty rows_of then err no_user_keys_found else ok (locked_keys rows_of), s)
    unfolding get_user_keys_from_db UserKey.get_all_by_user_id
    from_db =
        rw (get_all_by_column_id_live table user_id_column user_id s.database live has) (go rows_of)
      where
        go :
            (rows : List ProtonUserKeyModel)
            → (if is_empty rows then fail no_user_keys_found else pure (locked_keys rows)) s
              ≡ (if is_empty rows then err no_user_keys_found else ok (locked_keys rows), s)
        go [] = refl
        go (r ∷ rows) = refl

    -- Where the table serves queries and has no key of the user, `get_primary_key` and
    -- `get_user_key` fail with `NoUserKeysFound` and ask neither the server nor the store: the state
    -- and the world are unchanged.
    pub get_primary_key-empty :
        is_empty rows_of ≡ true
        → (get_primary_key user_id table store client s ≡ (err no_user_keys_found, s))
          × ((key_id : Text)
              → get_user_key user_id table store client key_id s ≡ (err no_user_keys_found, s))
    unfolding get_primary_key get_user_key find_user_key
    get_primary_key-empty empty = (rw (from_db, empty), λ key_id. rw (from_db, empty) refl)

    -- Where the table serves queries, `get_user_keys` returns all keys of the user that it has, in
    -- the order of the rows, and changes nothing, if it has any; and else does what loading from the server
    -- does.
    pub get_user_keys_lem : get_user_keys user_id table store client s ≡ (
        if is_empty rows_of
        then load_user_keys_from_server user_id table store client s
        else (ok (locked_keys rows_of), s))
    unfolding get_user_keys
    get_user_keys_lem = elim (Bool-cases (is_empty rows_of)) [
      | inl empty ↦ rw (from_db, empty) refl
      | inr nonempty ↦ rw (from_db, nonempty) refl
    ]
