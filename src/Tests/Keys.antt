-- ===== src/Tests/Keys.antt =====
-- The wallet keys at work: rust/src/proton_wallet/provider/wallet_keys.rs.
use flutter_app.Common.{
  ◌≡◌, ◌⊎◌, refl, true, none, some, List, [], ◌∷◌, ok, err, Text, codes, text_eq, is_empty,
}
use flutter_app.Common.HashMap
use flutter_app.Common.HashMap.{newest, or_else}
use flutter_app.Errors.{wallet_key_empty}
use flutter_app.Api.{ApiWalletKey, ApiWalletData, WalletClient}
use flutter_app.Storage.WalletKey.{WalletKeyStore}
use flutter_app.Provider.WalletKeys.{
  Keys, locked, find_from_memory, save_api_wallet_keys, reset, get_locked_wallet_key,
  wallet_keys_of,
}
use flutter_app.Provider.WalletKeys.Merge.{is_for, save_api_wallet_keys_lem}
use flutter_app.Provider.WalletKeys.Served.{get_locked_wallet_key-served}
use flutter_app.Provider.WalletKeys.Locked.{get_locked_wallet_key-ok}
use flutter_app.Provider.WalletKeys.Refined.{Call}

abbrev key : Text → Text → ApiWalletKey
key wallet_id text = record {
  wallet_id = wallet_id;
  user_key_id = [];
  wallet_key = text;
  wallet_key_signature = codes "signature";
}

abbrev pub served : ApiWalletData
served = record {
  wallet = record {
    id = codes "w";
    name = codes "travel";
    is_imported = 0;
    priority = 1;
    type_ = 1;
    has_passphrase = 0;
    status = 1;
    mnemonic = some (codes "words");
    fingerprint = none;
    public_key = none;
    migration_required = none;
    legacy = none;
  };
  wallet_key = key (codes "w") (codes "armored");
  show_wallet_recovery = none;
}

-- The world is the list of the keys that the app keeps.
abbrev secure : WalletKeyStore (List ApiWalletKey)
secure = record { get_wallet_keys = λ w. (ok w, w); save_api_wallet_keys = λ keys w. (ok tt, keys) }

abbrev server : WalletClient (List ApiWalletKey)
server = record { get_wallets = λ w. (ok (served ∷ []), w) }

abbrev same_order : List ApiWalletKey → List ApiWalletKey
same_order keys = keys

abbrev empty : Keys (List ApiWalletKey)
empty = record { wallet_keys = none; outside = [] }

save_api_wallet_keys_lem_example :
    ((is_empty (served.wallet_key ∷ []) ≡ true)
      × (save_api_wallet_keys secure server same_order (served.wallet_key ∷ []) empty
          ≡ (err wallet_key_empty, empty)))
    ⊎ (((save_api_wallet_keys secure server same_order (served.wallet_key ∷ []) empty).0 ≡ ok tt)
        × ((wallet_id : Text)
            → find_from_memory secure server same_order wallet_id
                (save_api_wallet_keys secure server same_order (served.wallet_key ∷ []) empty).1
              ≡ or_else
                  (newest (is_for wallet_id) (served.wallet_key ∷ []))
                  (newest (is_for wallet_id) [])))
save_api_wallet_keys_lem_example =
    save_api_wallet_keys_lem secure server same_order (λ keys k. ((λ i. i), (λ i. i)))
      (served.wallet_key ∷ []) empty

get_locked_wallet_key-served_example :
    (get_locked_wallet_key secure server same_order (codes "w") empty).0
    ≡ ok (locked served.wallet_key)
unfolding text_eq wallet_keys_of find_from_memory
get_locked_wallet_key-served_example =
    get_locked_wallet_key-served secure server same_order (λ keys k. ((λ i. i), (λ i. i)))
      (codes "w") empty [] (served ∷ []) served.wallet_key [] [] refl refl refl refl refl refl

get_locked_wallet_key-ok_example :
    (found : ApiWalletKey) × (find_from_memory secure server same_order
        (codes "w")
        (get_locked_wallet_key secure server same_order (codes "w") empty).1
      ≡ some found)
    × (found.wallet_id ≡ codes "w")
    × (locked served.wallet_key ≡ locked found)
unfolding find_from_memory wallet_keys_of text_eq
get_locked_wallet_key-ok_example =
    get_locked_wallet_key-ok secure server same_order (codes "w") empty (locked served.wallet_key) (
      get_locked_wallet_key-served secure server same_order (λ keys k. ((λ i. i), (λ i. i)))
        (codes "w") empty [] (served ∷ []) served.wallet_key [] [] refl refl refl refl refl refl)

-- Two calls, from an empty memory: the world of keys that the app keeps is one key for each wallet
-- where it is empty.
abbrev no_keys : WalletKeyStore (List ApiWalletKey)
no_keys = record {
  get_wallet_keys = λ w. (ok [], w);
  save_api_wallet_keys = λ keys w. (ok tt, keys);
}

abbrev two_calls : List Call
two_calls = Call.get_locked_wallet_key (codes "w") ∷ Call.reset ∷ []
