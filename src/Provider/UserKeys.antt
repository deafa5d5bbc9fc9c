-- ===== src/Provider/UserKeys.antt =====
-- rust/src/proton_wallet/provider/user_keys.rs: the user keys in the local table, on the server and
-- in the app's store. The calls of one task are modelled with no other task in between.
pub mod Search
pub mod Loaded
use flutter_app.Common.{
  ℕ, Bool, true, Option, none, some, List, [], ◌∷◌, find, is_empty, ok, err, Exec, pure, fail,
  ◌>>=◌, ◌>>◌, Text, text_eq, within, ◌==◌, if◌then◌else◌, Result,
}
use flutter_app.Errors.{
  ProviderError, ApiError, DatabaseError, WalletStorageError, wallet_storage, no_user_keys_found,
}
use flutter_app.Storage.UserKey.{ProtonUserKey, ProtonUsersClient, LockedKey, UserKeyStore}
use flutter_app.Db.Table.{Table}
use flutter_app.Db.UserKey
use flutter_app.Db.UserKey.{ProtonUserKeyModel}

-- `LockedKey::from` of a `ProtonUserKeyModel`
unfoldable pub locked_key : ProtonUserKeyModel → LockedKey
locked_key key = record {
  id = key.key_id;
  version = key.version;
  private_key = key.private_key;
  token = key.token;
  signature = none;
  flags = none;
  primary = key.primary == 1;
  active = true;
  recovery_secret = key.recovery_secret;
  recovery_secret_signature = key.recovery_secret_signature;
}

-- `ProtonUserKeyModel::from` of a `ProtonUserKey`
unfoldable pub user_key_model : ProtonUserKey → ProtonUserKeyModel
user_key_model key = record {
  key_id = key.id;
  user_id = [];
  version = key.version;
  private_key = key.private_key;
  token = key.token;
  fingerprint = some key.fingerprint;
  recovery_secret = key.recovery_secret;
  recovery_secret_signature = key.recovery_secret_signature;
  primary = key.primary;
  active = key.active;
}

unfoldable pub locked_keys : List ProtonUserKeyModel → List LockedKey
unfolding locked_key
locked_keys [] = []
locked_keys (key ∷ keys) = locked_key key ∷ locked_keys keys

unfoldable pub user_key_models : List ProtonUserKey → List ProtonUserKeyModel
unfolding user_key_model
user_key_models [] = []
user_key_models (key ∷ keys) = user_key_model key ∷ user_key_models keys

-- The connection to the table of keys, and the world that the store and the client live in.
pub record UserKeys (S W : Type 0) : Type 0 where
  pub database : S
  pub outside : W

-- `UserKeysProvider`, as far as other providers call it
pub record UserKeysProvider (W : Type 0) : Type 0 where
  pub get_user_keys : Exec ProviderError W (List LockedKey)
  pub get_user_key_passphrase : Exec ProviderError W Text

module _ {W : Type 0} (user_id : Text) (table : Table ProtonUserKeyModel) (store : UserKeyStore W)
    (client : ProtonUsersClient W) where
  abbrev pub State : Type 0
  State = UserKeys table.Store W

  abbrev pub in_table : {A : Type 0} → Exec DatabaseError table.Store A → Exec ProviderError State A
  in_table call =
      within ProviderError.database (λ s. s.database) (λ s d. record s { database = d }) call

  abbrev pub outer : {E A : Type 0} → (E → ProviderError) → Exec E W A → Exec ProviderError State A
  outer from' call = within from' (λ s. s.outside) (λ s w. record s { outside = w }) call

  unfoldable pub get_user_keys_from_db : Exec ProviderError State (List LockedKey)
  unfolding UserKey.get_all_by_user_id locked_keys
  get_user_keys_from_db = do
    user_keys ← in_table (UserKey.get_all_by_user_id table user_id)
    if is_empty user_keys then fail no_user_keys_found else pure (locked_keys user_keys)

  -- the `for` loop of `load_user_keys_from_server`
  unfoldable pub save_user_keys : List ProtonUserKeyModel → Exec ProviderError State (Unit {0})
  unfolding UserKey.upsert
  save_user_keys [] = pure tt
  save_user_keys (key ∷ keys) =
      in_table (UserKey.upsert table (record key { user_id = user_id })) >> save_user_keys keys

  abbrev keep_user_keys : Option (List ProtonUserKey) → Exec ProviderError State (List LockedKey)
  keep_user_keys none = fail no_user_keys_found
  keep_user_keys (some keys) =
      save_user_keys (user_key_models keys) >> pure (locked_keys (user_key_models keys))

  unfoldable pub load_user_keys_from_server : Exec ProviderError State (List LockedKey)
  unfolding save_user_keys user_key_models locked_keys
  load_user_keys_from_server = do
    keys ← outer ProviderError.andromeda_api client.get_user_info_keys
    keep_user_keys keys

  unfoldable pub get_default_user_key : Exec ProviderError State LockedKey
  get_default_user_key = outer wallet_storage (store.get_default_user_key user_id)

  abbrev pub return_found :
      Option LockedKey → Exec ProviderError State LockedKey → Exec ProviderError State LockedKey
  return_found (some key) rest = pure key
  return_found none rest = rest

  -- The first key that passes the test, in the table and else from the server; and else the default
  -- key. The body of `get_primary_key` and of `get_user_key`.
  unfoldable pub find_user_key : (LockedKey → Bool) → Exec ProviderError State LockedKey
  unfolding get_user_keys_from_db load_user_keys_from_server get_default_user_key
  find_user_key p = do
    keys ← get_user_keys_from_db
    return_found (find p keys) (
        load_user_keys_from_server >>= λ new_keys.
        return_found (find p new_keys) get_default_user_key)

  unfoldable pub get_primary_key : Exec ProviderError State LockedKey
  unfolding find_user_key
  get_primary_key = find_user_key (λ item. item.primary)

  unfoldable pub get_user_key : Text → Exec ProviderError State LockedKey
  unfolding find_user_key
  get_user_key key_id = find_user_key (λ item. text_eq item.id key_id)

  abbrev or_load : Result ProviderError (List LockedKey) → Exec ProviderError State (List LockedKey)
  or_load (ok keys) = pure keys
  or_load (err e) = load_user_keys_from_server

  -- An error of the table is dropped.
  unfoldable pub get_user_keys : Exec ProviderError State (List LockedKey)
  unfolding get_user_keys_from_db load_user_keys_from_server
  get_user_keys s = let (r, s') = get_user_keys_from_db s in or_load r s'

  unfoldable pub get_user_key_passphrase : Exec ProviderError State Text
  get_user_key_passphrase = outer wallet_storage (store.get_user_key_passphrase user_id)

  -- the provider as other providers see it
  abbrev pub provider : UserKeysProvider State
  provider = record {
    get_user_keys = get_user_keys;
    get_user_key_passphrase = get_user_key_passphrase;
  }
