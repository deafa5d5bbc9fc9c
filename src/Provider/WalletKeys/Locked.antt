-- ===== src/Provider/WalletKeys/Locked.antt =====
-- What `get_locked_wallet_key` returns, and what a reset leaves in memory.
use flutter_app.Common.{
  Result-cases, ◌≡◌, refl, sym, ◌∙◌, ◌⊎◌, inl, inr, true, Option, none, some, List, [], ◌∷◌, find,
  is_empty, In, Text, text_eq_iff, err, Result, ok, Exec, continue, find-eq-some,
}
use flutter_app.Common.HashMap.{newest, or_else}
use flutter_app.Errors.{ProviderError, ApiError}
use flutter_app.Api.{ApiWalletKey, ApiWalletData, WalletClient}
use flutter_app.Storage.WalletKey.{WalletKeyStore}
use flutter_app.Provider.WalletKeys.{
  Keys, LockedWalletKey, locked, find_from_memory, save_api_wallet_keys,
  load_wallet_keys_from_store, fetch_from_server, wallet_keys_of, clear, reset,
  get_locked_wallet_key, unless_in_memory, return_found,
}
use flutter_app.Provider.WalletKeys.Merge.{is_for, save_api_wallet_keys_lem}

module _ {W : Type 0} (store : WalletKeyStore W) (client : WalletClient W)
    (arrange : List ApiWalletKey → List ApiWalletKey) where
  -- A key of the wallet is in memory, and it is the one returned.
  pub record IsFromMemory (wallet_id : Text) (l : LockedWalletKey) (s : Keys W) : Type 0 where
    pub key : ApiWalletKey
    pub in_memory : find_from_memory store client arrange wallet_id s ≡ some key
    pub same : l ≡ locked key

  abbrev Sound : Text → Result ProviderError LockedWalletKey × Keys W → Type 0
  Sound wallet_id (ok l, s) = IsFromMemory wallet_id l s
  Sound wallet_id (err e, s) = Unit

  unless_in_memory-Sound :
      (wallet_id : Text) (rest : Exec ProviderError (Keys W) LockedWalletKey) (s : Keys W)
      → Sound wallet_id (rest s)
      → Sound wallet_id (unless_in_memory store client arrange wallet_id rest s)
  unless_in_memory-Sound wallet_id rest s h =
      go (find_from_memory store client arrange wallet_id s) refl
    where
      go :
          (found : Option ApiWalletKey)
          → find_from_memory store client arrange wallet_id s ≡ found
          → Sound wallet_id (return_found store client arrange found rest s)
      go (some key) e = record { key = key; in_memory = e; same = refl }
      go none e = h

  continue-Sound :
      {A : Type 0} (wallet_id : Text) (r : Result ProviderError A)
      (rest : Exec ProviderError (Keys W) LockedWalletKey) (s : Keys W)
      → ((s' : Keys W) → Sound wallet_id (rest s'))
      → Sound wallet_id (continue r (λ a. rest) s)
  continue-Sound wallet_id (ok a) rest s h = h s
  continue-Sound wallet_id (err e) rest s h = tt

  get_locked_wallet_key-Sound :
      (wallet_id : Text) (s : Keys W)
      → Sound wallet_id (get_locked_wallet_key store client arrange wallet_id s)
  unfolding get_locked_wallet_key
  get_locked_wallet_key-Sound wallet_id s = unless_in_memory-Sound wallet_id _ s (
      continue-Sound wallet_id (load_wallet_keys_from_store store client arrange s).0 _ _ (λ s1.
        unless_in_memory-Sound wallet_id _ s1 (
          continue-Sound wallet_id (fetch_from_server store client arrange s1).0 _ _
            (λ s2. unless_in_memory-Sound wallet_id _ s2 tt))))

  Sound-ok :
      (wallet_id : Text) (l : LockedWalletKey) (r : Result ProviderError LockedWalletKey × Keys W)
      → Sound wallet_id r
      → r.0 ≡ ok l
      → IsFromMemory wallet_id l r.1
  Sound-ok wallet_id l (ok l', s) h e =
      let e' : l ≡ l' = cc in record { key = h.key; in_memory = h.in_memory; same = e' ∙ h.same }
  Sound-ok wallet_id l (err e', s) h e = cc

  search-own :
      (wallet_id : Text) (key : ApiWalletKey) (cached : Option (List ApiWalletKey))
      → (elim cached [ some keys ↦ find (is_for wallet_id) keys | none ↦ none ]) ≡ some key
      → key.wallet_id ≡ wallet_id
  search-own wallet_id key none h = cc
  search-own wallet_id key (some keys) h =
      (text_eq_iff key.wallet_id wallet_id).0 (find-eq-some (is_for wallet_id) keys h).1

  find_from_memory-own :
      (wallet_id : Text) (key : ApiWalletKey) (s : Keys W)
      → find_from_memory store client arrange wallet_id s ≡ some key
      → key.wallet_id ≡ wallet_id
  unfolding find_from_memory
  find_from_memory-own wallet_id key s h = search-own wallet_id key s.wallet_keys h

  -- Whatever the store and the server give, a locked key that is returned is that of a key which
  -- is in memory afterwards and belongs to the wallet that was asked for.
  pub get_locked_wallet_key-ok :
      (wallet_id : Text) (s : Keys W) (l : LockedWalletKey)
      → (get_locked_wallet_key store client arrange wallet_id s).0 ≡ ok l
      → (key : ApiWalletKey) × (find_from_memory store client arrange wallet_id
            (get_locked_wallet_key store client arrange wallet_id s).1
          ≡ some key)
        × (key.wallet_id ≡ wallet_id)
        × (l ≡ locked key)
  get_locked_wallet_key-ok wallet_id s l h =
      let f = Sound-ok wallet_id l _ (get_locked_wallet_key-Sound wallet_id s) h in
      (f.key, f.in_memory, find_from_memory-own wallet_id f.key _ f.in_memory, f.same)

module _ {W : Type 0} (store : WalletKeyStore W) (client : WalletClient W)
    (arrange : List ApiWalletKey → List ApiWalletKey)
    (arranged : (keys : List ApiWalletKey) (k : ApiWalletKey)
      → (In k (arrange keys) → In k keys) × (In k keys → In k (arrange keys))) where
  or_else-none : (o : Option ApiWalletKey) → or_else o none ≡ o
  or_else-none none = refl
  or_else-none (some k) = refl

  saved-fresh :
      (wallet_id : Text) (keys : List ApiWalletKey) (w : W)
      → find_from_memory store client arrange wallet_id
          (save_api_wallet_keys store client arrange keys
            (record { wallet_keys = none; outside = w })).1
        ≡ newest (is_for wallet_id) keys
  unfolding find_from_memory
  saved-fresh wallet_id keys w =
      elim (save_api_wallet_keys_lem store client arrange arranged keys
        (record { wallet_keys = none; outside = w })) [
          | inl (empty, same) ↦ rw same (sym (none_of_empty keys empty))
          | inr (_, found) ↦ found wallet_id ∙ or_else-none (newest (is_for wallet_id) keys)
        ]
    where
      none_of_empty :
          (keys : List ApiWalletKey) → is_empty keys ≡ true → newest (is_for wallet_id) keys ≡ none
      none_of_empty [] h = refl
      none_of_empty (k ∷ keys) h = cc

  -- After a reset in which the server answered, a search in memory finds the last of the server's
  -- keys for the wallet, and nothing of what memory had before, also where the answer is empty or
  -- the store fails; a reset in which the server failed leaves the memory empty.
  pub reset_lem :
      (wallet_id : Text) (s : Keys W)
      → ((e : ApiError) × ((client.get_wallets s.outside).0 ≡ err e)
          × ((reset store client arrange s).0 ≡ err (ProviderError.andromeda_api e))
          × (find_from_memory store client arrange wallet_id (reset store client arrange s).1
              ≡ none))
        ⊎ ((wallets : List ApiWalletData) × ((client.get_wallets s.outside).0 ≡ ok wallets)
            × (find_from_memory store client arrange wallet_id (reset store client arrange s).1
                ≡ newest (is_for wallet_id) (wallet_keys_of wallets)))
  unfolding reset clear fetch_from_server find_from_memory
  reset_lem wallet_id s = elim (Result-cases (client.get_wallets s.outside).0) [
    | inl (e, failed) ↦ inl (e, failed, (rw failed), (rw failed refl))
    | inr (wallets, served) ↦ inr (
      wallets,
      served,
      rw served (saved-fresh wallet_id (wallet_keys_of wallets) (client.get_wallets s.outside).1),
    )
  ]
