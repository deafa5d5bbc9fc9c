-- ===== src/Provider/UserKeys/Loaded.antt =====
-- What the local table has after the user keys were loaded from the server:
-- rust/src/proton_wallet/provider/user_keys.rs.
use flutter_app.Common.{
  Result-cases, ◌≡◌, refl, sym, ◌∙◌, ap, inl, inr, Bool, true, false, Option, none, some, List, [],
  ◌∷◌, find, ok, Text, text_eq, if◌then◌else◌,
}
use flutter_app.Common.HashMap.{newest, or_else}
use flutter_app.Storage.UserKey.{ProtonUsersClient, ProtonUserKey, LockedKey, UserKeyStore}
use flutter_app.Db.Table.{Table}
use flutter_app.Db.Base.Laws.{Has}
use flutter_app.Db.UserKey
use flutter_app.Db.UserKey.{ProtonUserKeyModel, key_id_column}
use flutter_app.Db.UserKey.Upsert.{keyed, upsert_lem}
use flutter_app.Provider.UserKeys.{
  UserKeys, locked_keys, user_key_models, save_user_keys, load_user_keys_from_server,
}

-- the rows that are saved, with the user that they belong to
abbrev pub owned : Text → List ProtonUserKeyModel → List ProtonUserKeyModel
owned user_id [] = []
owned user_id (key ∷ keys) = record key { user_id = user_id } ∷ owned user_id keys

or_else-step :
    (b : Bool) (x : ProtonUserKeyModel) (later before : Option ProtonUserKeyModel)
    → or_else later (if b then some x else before)
      ≡ or_else (or_else later (if b then some x else none)) before
or_else-step true x none before = refl
or_else-step false x none before = refl
or_else-step b x (some y) before = refl

module _ {W : Type 0} (user_id : Text) (table : Table ProtonUserKeyModel) (store : UserKeyStore W)
    (client : ProtonUsersClient W) where
  open table use {Live, rows}

  -- The first row of a key id is the last one saved, and where none was saved the one before.
  abbrev pub Saved :
      List ProtonUserKeyModel → UserKeys table.Store W → UserKeys table.Store W → Type 0
  Saved keys s s' =
      (key_id : Text)
      → find (keyed key_id) (rows s'.database)
        ≡ or_else (newest (keyed key_id) (owned user_id keys))
            (find (keyed key_id) (rows s.database))

  save_user_keys-ok :
      (keys : List ProtonUserKeyModel) (s : UserKeys table.Store W)
      → Live s.database
      → Has table key_id_column s.database
      → (save_user_keys user_id table store client keys s).0 ≡ ok tt
      → Saved keys s (save_user_keys user_id table store client keys s).1
  unfolding save_user_keys
  save_user_keys-ok [] s live has h = λ key_id. refl
  save_user_keys-ok (key ∷ keys) s live has h =
      let item : ProtonUserKeyModel = record key { user_id = user_id } in
      elim (upsert_lem table item s.database live has) [
        | inl (e, failed, _, _) ↦ let bad = rw failed at h in cc
        | inr (done, wrote, (live', same)) ↦
            let s1 : UserKeys table.Store W = record s {
              database = (UserKey.upsert table item s.database).1;
            } in
            let has' : Has table key_id_column s1.database = rw same has in
            let rest = save_user_keys-ok keys s1 live' has' (rw done at h) in
            rw done (λ key_id.
              rest key_id
              ∙ ap (or_else (newest (keyed key_id) (owned user_id keys))) (wrote key_id)
              ∙ or_else-step (text_eq key.key_id key_id) item
                  (newest (keyed key_id) (owned user_id keys)) _)
      ]

  -- Where the table serves statements and loading the keys from the server returns, the server had a
  -- list of keys, the keys returned are these as locked keys, in order, and the first row of each key
  -- id is then the last key of the server with this id, as a row of the user, and where the server has
  -- none the row that was there before.
  pub load_user_keys_from_server-ok :
      (s : UserKeys table.Store W) (locked : List LockedKey)
      → Live s.database
      → Has table key_id_column s.database
      → (load_user_keys_from_server user_id table store client s).0 ≡ ok locked
      → (keys : List ProtonUserKey) × ((client.get_user_info_keys s.outside).0 ≡ ok (some keys))
        × (locked ≡ locked_keys (user_key_models keys))
        × Saved (user_key_models keys) s (load_user_keys_from_server user_id table store client s).1
  unfolding load_user_keys_from_server
  load_user_keys_from_server-ok s locked live has h =
      elim (Result-cases (client.get_user_info_keys s.outside).0) [
        | inl (e, failed) ↦ let bad = rw failed at h in cc
        | inr (none, empty) ↦ let bad = rw empty at h in cc
        | inr (some keys, served) ↦
            let s1 : UserKeys table.Store W = record s {
              outside = (client.get_user_info_keys s.outside).1;
            } in
            let models : List ProtonUserKeyModel = user_key_models keys in
            elim (Result-cases (save_user_keys user_id table store client models s1).0) [
              | inl (e, failed) ↦ let bad = rw (served, failed) at h in cc
              | inr (tt, saved) ↦
                  let returned : ok locked ≡ ok (locked_keys models) =
                    sym (rw (served, saved) at h) in
                  (
                    keys,
                    served,
                    cc,
                    rw (served, saved) (save_user_keys-ok models s1 live has saved),
                  )
            ]
      ]
