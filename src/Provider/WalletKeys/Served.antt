-- ===== src/Provider/WalletKeys/Served.antt =====
-- When `get_locked_wallet_key` returns a key of the server.
use flutter_app.Common.{
  ◌≡◌, ◌≢◌, refl, ap, ◌∙◌, inl, inr, true, none, some, List, [], ◌∷◌, find, is_empty, In, map_err,
  Text, Result, ok, fail, continue,
}
use flutter_app.Common.HashMap.{newest, or_else}
use flutter_app.Errors.{ProviderError, wallet_storage, wallet_key_not_found}
use flutter_app.Api.{ApiWalletKey, ApiWalletData, WalletClient}
use flutter_app.Storage.WalletKey.{WalletKeyStore}
use flutter_app.Provider.WalletKeys.{
  Keys, locked, find_from_memory, save_api_wallet_keys, load_wallet_keys_from_store, memory,
  fetch_from_server, wallet_keys_of, get_locked_wallet_key, unless_in_memory,
}
use flutter_app.Provider.WalletKeys.Merge.{is_for, save_api_wallet_keys_lem}

module _ {W : Type 0} (store : WalletKeyStore W) (client : WalletClient W)
    (arrange : List ApiWalletKey → List ApiWalletKey)
    (arranged : (keys : List ApiWalletKey) (k : ApiWalletKey)
      → (In k (arrange keys) → In k keys) × (In k keys → In k (arrange keys))) where
  newest-nonempty :
      (wallet_id : Text) (keys : List ApiWalletKey) {key : ApiWalletKey}
      → newest (is_for wallet_id) keys ≡ some key
      → is_empty keys ≢ true
  newest-nonempty wallet_id [] h e = cc
  newest-nonempty wallet_id (k ∷ keys) h e = cc

  saved-served :
      (wallet_id : Text) (keys : List ApiWalletKey) (key : ApiWalletKey) (s : Keys W)
      → newest (is_for wallet_id) keys ≡ some key
      → (store.save_api_wallet_keys keys s.outside).0 ≡ ok tt
      → ((save_api_wallet_keys store client arrange keys s).0 ≡ ok tt)
        × (find_from_memory store client arrange wallet_id
              (save_api_wallet_keys store client arrange keys s).1
            ≡ some key)
  saved-served wallet_id keys key s h h' =
      elim (save_api_wallet_keys_lem store client arrange arranged keys s) [
        | inl (empty, _) ↦ absurd (newest-nonempty wallet_id keys h empty)
        | inr (same, found) ↦ (
          same ∙ ap (map_err wallet_storage) h',
          found wallet_id
              ∙ ap (λ o. or_else o (newest (is_for wallet_id) (memory store client arrange s))) h,
        )
      ]

  stored-found :
      (wallet_id : Text) (key : ApiWalletKey) (r : Result ProviderError (Unit {0}) × Keys W)
      → r.0 ≡ ok tt
      → find_from_memory store client arrange wallet_id r.1 ≡ some key
      → (continue r.0
          (λ done. unless_in_memory store client arrange wallet_id (fail wallet_key_not_found))
          r.1).0
        ≡ ok (locked key)
  stored-found wallet_id key (r, s) e f = rw (e, f) refl

  missing :
      (wallet_id : Text) (kept : List ApiWalletKey) (w : W)
      → find (is_for wallet_id) kept ≡ none
      → find_from_memory store client arrange wallet_id
          (record { wallet_keys = some kept; outside = w })
        ≡ none
  unfolding find_from_memory
  missing wallet_id kept w h = h

  fetched :
      (kept : List ApiWalletKey) (wallets : List ApiWalletData) (w1 w2 : W)
      → client.get_wallets w1 ≡ (ok wallets, w2)
      → fetch_from_server store client arrange (record { wallet_keys = some kept; outside = w1 })
        ≡ save_api_wallet_keys store client arrange
            (wallet_keys_of wallets)
            (record { wallet_keys = some kept; outside = w2 })
  unfolding fetch_from_server
  fetched kept wallets w1 w2 h = rw h refl

  -- Where neither memory nor the store has a key of the wallet, the server's answer has one and the
  -- store takes the server's keys, the last of the server's keys for the wallet is returned, locked.
  pub get_locked_wallet_key-served :
      (wallet_id : Text) (s : Keys W) (kept : List ApiWalletKey) (wallets : List ApiWalletData)
      (key : ApiWalletKey) (w1 w2 : W)
      → find_from_memory store client arrange wallet_id s ≡ none
      → store.get_wallet_keys s.outside ≡ (ok kept, w1)
      → find (is_for wallet_id) kept ≡ none
      → client.get_wallets w1 ≡ (ok wallets, w2)
      → newest (is_for wallet_id) (wallet_keys_of wallets) ≡ some key
      → (store.save_api_wallet_keys (wallet_keys_of wallets) w2).0 ≡ ok tt
      → (get_locked_wallet_key store client arrange wallet_id s).0 ≡ ok (locked key)
  unfolding get_locked_wallet_key load_wallet_keys_from_store
  get_locked_wallet_key-served wallet_id s kept wallets key w1 w2 h0 h1 h2 h3 h4 h5 =
      let answer =
        saved-served wallet_id (wallet_keys_of wallets) key
          (record { wallet_keys = some kept; outside = w2 }) h4 h5 in
      rw (h0, h1, missing wallet_id kept w1 h2, fetched kept wallets w1 w2 h3)
        (stored-found wallet_id key _ answer.0 answer.1)
