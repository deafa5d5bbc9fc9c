-- ===== src/Provider/WalletKeys/Merge.antt =====
-- What is in memory after keys were saved: rust/src/proton_wallet/provider/wallet_keys.rs.
use flutter_app.Common.{
  ◌≡◌, refl, ap, ◌∙◌, ◌⊎◌, inl, inr, Bool, true, false, Option, none, some, List, [], ◌∷◌, find,
  is_empty, In, map_err, Text, text_eq, if◌then◌else◌, err,
}
use flutter_app.Common.HashMap.{
  HashMap, get, insert, values, newest, or_else, get-insert, IsFiled, IsFiled-nil, insert-IsFiled,
  find-values,
}
use flutter_app.Errors.{wallet_storage, wallet_key_empty}
use flutter_app.Api.{ApiWalletKey, WalletClient}
use flutter_app.Storage.WalletKey.{WalletKeyStore}
use flutter_app.Provider.WalletKeys.{
  Keys, insert_all, find_from_memory, save_api_wallet_keys, memory,
}

abbrev pub wallet_of : ApiWalletKey → Text
wallet_of key = key.wallet_id

-- the test of `find_from_memory`
abbrev pub is_for : Text → ApiWalletKey → Bool
is_for wallet_id key = text_eq key.wallet_id wallet_id

or_else_assoc : {A : Type 0} (a b c : Option A) → or_else a (or_else b c) ≡ or_else (or_else a b) c
or_else_assoc none b c = refl
or_else_assoc (some x) b c = refl

or_else-if :
    {A : Type 0} (t : Bool) (x : A) (o : Option A)
    → (if t then some x else o) ≡ or_else (if t then some x else none) o
or_else-if true x o = refl
or_else-if false x o = refl

insert_all-IsFiled :
    (keys : List ApiWalletKey) (m : HashMap ApiWalletKey)
    → IsFiled wallet_of m
    → IsFiled wallet_of (insert_all m keys)
unfolding insert_all
insert_all-IsFiled [] m f = f
insert_all-IsFiled (key ∷ keys) m f =
    insert_all-IsFiled keys (insert key.wallet_id key m) (insert-IsFiled wallet_of key m f)

get-insert_all :
    (wallet_id : Text) (keys : List ApiWalletKey) (m : HashMap ApiWalletKey)
    → get wallet_id (insert_all m keys) ≡ or_else (newest (is_for wallet_id) keys) (get wallet_id m)
unfolding insert_all
get-insert_all wallet_id [] m = refl
get-insert_all wallet_id (key ∷ keys) m =
    get-insert_all wallet_id keys (insert key.wallet_id key m)
    ∙ ap (or_else (newest (is_for wallet_id) keys)) (
        get-insert key.wallet_id wallet_id key m
        ∙ or_else-if (is_for wallet_id key) key (get wallet_id m))
    ∙ or_else_assoc (newest (is_for wallet_id) keys)
        (if is_for wallet_id key then some key else none) (get wallet_id m)

module _ {W : Type 0} (store : WalletKeyStore W) (client : WalletClient W)
    (arrange : List ApiWalletKey → List ApiWalletKey)
    (arranged : (keys : List ApiWalletKey) (k : ApiWalletKey)
      → (In k (arrange keys) → In k keys) × (In k keys → In k (arrange keys))) where
  pub find-merged :
      (wallet_id : Text) (old keys : List ApiWalletKey)
      → find (is_for wallet_id) (arrange (values (insert_all (insert_all [] old) keys)))
        ≡ or_else (newest (is_for wallet_id) keys) (newest (is_for wallet_id) old)
  unfolding get
  find-merged wallet_id old keys =
      let before = insert_all-IsFiled old [] (IsFiled-nil wallet_of) in
      let merged = insert_all (insert_all [] old) keys in
      find-values wallet_of merged (arrange (values merged)) wallet_id
        (insert_all-IsFiled keys (insert_all [] old) before) (λ v. (arranged (values merged) v).0)
        (λ v. (arranged (values merged) v).1)
      ∙ get-insert_all wallet_id keys (insert_all [] old)
      ∙ ap (or_else (newest (is_for wallet_id) keys))
          (get-insert_all wallet_id old [] ∙ or_else-none (newest (is_for wallet_id) old))
    where
      or_else-none : (o : Option ApiWalletKey) → or_else o none ≡ o
      or_else-none none = refl
      or_else-none (some k) = refl

  -- Saving a list of keys that is not empty answers what the store answers; whether or not the store
  -- fails, a search in memory then finds the last of the saved keys for the wallet, and where there is
  -- none the last of the keys that memory had for it. Saving no keys fails and changes nothing. The
  -- order in which the map gives its values is any.
  pub save_api_wallet_keys_lem :
      (keys : List ApiWalletKey) (s : Keys W)
      → ((is_empty keys ≡ true)
          × (save_api_wallet_keys store client arrange keys s ≡ (err wallet_key_empty, s)))
        ⊎ (((save_api_wallet_keys store client arrange keys s).0
              ≡ map_err wallet_storage (store.save_api_wallet_keys keys s.outside).0)
            × ((wallet_id : Text)
                → find_from_memory store client arrange wallet_id
                    (save_api_wallet_keys store client arrange keys s).1
                  ≡ or_else
                      (newest (is_for wallet_id) keys)
                      (newest (is_for wallet_id) (memory store client arrange s))))
  unfolding save_api_wallet_keys find_from_memory
  save_api_wallet_keys_lem [] s = inl (refl, refl)
  save_api_wallet_keys_lem (k ∷ keys) s =
      inr (refl, λ wallet_id. find-merged wallet_id (memory store client arrange s) (k ∷ keys))
