-- ===== src/Tests/UserKeys.antt =====
-- The user keys at work: rust/src/proton_wallet/provider/user_keys.rs and wallet_keys.rs.
use flutter_app.Common.{
  ℕ, ◌≡◌, ◌⊎◌, refl, true, none, some, List, [], ◌∷◌, ok, err, Result, Text, codes, text_eq,
}
use flutter_app.Errors.{WalletCryptoError, no_user_keys_found}
use flutter_app.Api.{ApiWalletKey, WalletClient}
use flutter_app.Storage.WalletKey.{WalletKeyStore}
use flutter_app.Storage.UserKey.{ProtonUsersClient, LockedKey, UserKeyStore}
use flutter_app.Db.Table.{Table}
use flutter_app.Db.Memory.{Contents, memory}
use flutter_app.Db.UserKey.{ProtonUserKeyModel}
use flutter_app.Provider.UserKeys.{
  UserKeys, UserKeysProvider, locked_keys, get_primary_key, get_user_key,
  load_user_keys_from_server, get_default_user_key,
}
use flutter_app.Provider.UserKeys.Search.{get_primary_key-empty}
use flutter_app.Provider.WalletKeys.{
  Keys, LockedWalletKey, locked, find_from_memory, get_locked_wallet_key, get_unlocked_wallet_key,
}
use flutter_app.Provider.WalletKeys.Unlocked.{get_unlocked_wallet_key-ok}
use flutter_app.Errors.{DatabaseError}
use flutter_app.Storage.UserKey.{ProtonUserKey}
use flutter_app.Db.Memory
use flutter_app.Db.Base.Laws.{Has}
use flutter_app.Db.UserKey.{upsert, key_id_column}
use flutter_app.Db.UserKey.Upsert.{upsert_lem, Keeps, Wrote}
use flutter_app.Provider.UserKeys.{user_key_models}
use flutter_app.Provider.UserKeys.Loaded.{load_user_keys_from_server-ok, Saved}

abbrev pub primary_key : LockedKey
primary_key = record {
  id = codes "k";
  version = 3;
  private_key = codes "armored";
  token = none;
  signature = none;
  flags = none;
  primary = true;
  active = true;
  recovery_secret = none;
  recovery_secret_signature = none;
}

abbrev pub row : ProtonUserKeyModel
row = record {
  key_id = codes "k";
  user_id = codes "u";
  version = 3;
  private_key = codes "armored";
  token = none;
  fingerprint = none;
  recovery_secret = none;
  recovery_secret_signature = none;
  primary = 1;
  active = 1;
}

abbrev pub keys_table : Table ProtonUserKeyModel
keys_table = memory (codes "key_id" ∷ codes "user_id" ∷ []) (λ rows. true)

abbrev pub secure : UserKeyStore ℕ
secure = record {
  get_default_user_key = λ user_id w. (ok primary_key, w);
  get_user_key_passphrase = λ user_id w. (ok (codes "secret"), w);
}

abbrev pub server : ProtonUsersClient ℕ
server = record { get_user_info_keys = λ w. (ok none, w) }

abbrev stored : UserKeys (Contents ProtonUserKeyModel) ℕ
stored = record { database = record { stored = row ∷ []; next_id = 1 }; outside = 0 }

abbrev empty : UserKeys (Contents ProtonUserKeyModel) ℕ
empty = record { database = record { stored = []; next_id = 0 }; outside = 0 }

get_primary_key-empty_example :
    (get_primary_key (codes "u") keys_table secure server empty ≡ (err no_user_keys_found, empty))
    × ((key_id : Text)
        → get_user_key (codes "u") keys_table secure server key_id empty
          ≡ (err no_user_keys_found, empty))
unfolding text_eq
get_primary_key-empty_example =
    get_primary_key-empty (codes "u") keys_table secure server empty tt refl refl

has_key_id : Has keys_table key_id_column empty.database
unfolding text_eq
has_key_id = refl

upsert_lem_example :
    ((e : DatabaseError) × ((upsert keys_table row empty.database).0 ≡ err e)
      × (keys_table.rows (upsert keys_table row empty.database).1 ≡ keys_table.rows empty.database)
      × Keeps keys_table row empty.database tt has_key_id (upsert keys_table row empty.database).1)
    ⊎ (((upsert keys_table row empty.database).0 ≡ ok (some row))
        × Wrote keys_table row empty.database tt has_key_id (upsert keys_table row empty.database).1
        × Keeps keys_table row empty.database tt has_key_id
            (upsert keys_table row empty.database).1)
upsert_lem_example = upsert_lem keys_table row empty.database tt has_key_id

abbrev served_key : ProtonUserKey
served_key = record {
  id = codes "k";
  version = 3;
  private_key = codes "armored";
  recovery_secret = none;
  recovery_secret_signature = none;
  token = none;
  fingerprint = [];
  primary = 1;
  active = 1;
}

abbrev key_server : ProtonUsersClient ℕ
key_server = record { get_user_info_keys = λ w. (ok (some (served_key ∷ [])), w) }

loads :
    (load_user_keys_from_server (codes "u") keys_table secure key_server empty).0
    ≡ ok (locked_keys (user_key_models (served_key ∷ [])))
unfolding load_user_keys_from_server text_eq Memory.insert
loads = refl

load_user_keys_from_server-ok_example :
    (keys : List ProtonUserKey) × ((key_server.get_user_info_keys 0).0 ≡ ok (some keys))
    × (locked_keys (user_key_models (served_key ∷ [])) ≡ locked_keys (user_key_models keys))
    × Saved
        (codes "u")
        keys_table
        secure
        key_server
        (user_key_models keys)
        empty
        (load_user_keys_from_server (codes "u") keys_table secure key_server empty).1
load_user_keys_from_server-ok_example =
    load_user_keys_from_server-ok (codes "u") keys_table secure key_server empty
      (locked_keys (user_key_models (served_key ∷ []))) tt has_key_id loads

-- a provider that gives one key, and PGP calls that open a key to its text
abbrev pub one_key : UserKeysProvider ℕ
one_key = record {
  get_user_keys = λ w. (ok (primary_key ∷ []), w);
  get_user_key_passphrase = λ w. (ok (codes "secret"), w);
}

abbrev pub wallet_key : ApiWalletKey
wallet_key = record {
  wallet_id = codes "w";
  user_key_id = codes "k";
  wallet_key = codes "sealed";
  wallet_key_signature = codes "signature";
}

abbrev keys_store : WalletKeyStore ℕ
keys_store = record {
  get_wallet_keys = λ w. (ok [], w);
  save_api_wallet_keys = λ keys w. (ok tt, w);
}

abbrev pub wallets : WalletClient ℕ
wallets = record { get_wallets = λ w. (ok [], w) }

abbrev cached : Keys ℕ
cached = record { wallet_keys = some (wallet_key ∷ []); outside = 0 }

abbrev opens : LockedWalletKey → Result WalletCryptoError Text
opens l = ok l.encrypted

unlocks :
    (get_unlocked_wallet_key keys_store wallets
      (λ keys. keys)
      one_key
      (λ keys secret. keys)
      (λ l keys. opens l)
      (codes "w")
      cached).0
    ≡ ok (codes "sealed")
unfolding get_unlocked_wallet_key get_locked_wallet_key find_from_memory locked text_eq
unlocks = refl

get_unlocked_wallet_key-ok_example :
    (key : ApiWalletKey) × (user_keys : List LockedKey) × (key_secret : Text) × (key.wallet_id
      ≡ codes "w")
    × (find_from_memory keys_store wallets
          (λ keys. keys)
          (codes "w")
          (get_locked_wallet_key keys_store wallets (λ keys. keys) (codes "w") cached).1
        ≡ some key)
    × ((one_key.get_user_keys 0).0 ≡ ok user_keys)
    × ((one_key.get_user_key_passphrase 0).0 ≡ ok key_secret)
    × (opens (locked key) ≡ ok (codes "sealed"))
get_unlocked_wallet_key-ok_example =
    get_unlocked_wallet_key-ok keys_store wallets (λ keys. keys) one_key (λ keys secret. keys)
      (λ l keys. opens l) (codes "w") cached (codes "sealed") unlocks
