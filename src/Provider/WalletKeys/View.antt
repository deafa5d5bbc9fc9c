-- ===== src/Provider/WalletKeys/View.antt =====
-- The cache of rust/src/proton_wallet/provider/wallet_keys.rs seen as a partial map from wallets to
-- keys, and what may happen to the map.
use flutter_app.Common.{
  ◌≡◌, sym, ap, ◌∙◌, ◌⊎◌, inl, inr, Bool, Option, none, some, List, [], ◌∷◌, find, In, here, there,
  ok, Text, Bool-cases, find-eq-some, Option-cases, arith, subst,
}
use flutter_app.Common.HashMap.{newest, or_else}
use flutter_app.Api.{ApiWalletKey, ApiWalletData, WalletClient}
use flutter_app.Storage.WalletKey.{WalletKeyStore}
use flutter_app.Provider.WalletKeys.{wallet_keys_of}
use flutter_app.Provider.WalletKeys.Merge.{is_for}

-- the key of each wallet, where the cache has one
abbrev pub View : Type 0
View = Text → Option ApiWalletKey

abbrev pub Same : View → View → Type 0
Same v v' = (wallet_id : Text) → v' wallet_id ≡ v wallet_id

module _ {W : Type 0} (store : WalletKeyStore W) (client : WalletClient W) where
  -- The map is emptied, replaced by an answer of the store, or overridden by an answer of the server,
  -- in which the last key of a wallet counts.
  pub data Step (v v' : View) : Type 0 where
    forget : ((wallet_id : Text) → v' wallet_id ≡ none) → Step v v'
    load :
        (keys : List ApiWalletKey) (w w' : W)
        → store.get_wallet_keys w ≡ (ok keys, w')
        → ((wallet_id : Text) → v' wallet_id ≡ find (is_for wallet_id) keys)
        → Step v v'
    learn :
        (wallets : List ApiWalletData) (w w' : W)
        → client.get_wallets w ≡ (ok wallets, w')
        → ((wallet_id : Text)
            → v' wallet_id
              ≡ or_else (newest (is_for wallet_id) (wallet_keys_of wallets)) (v wallet_id))
        → Step v v'

  pub data Steps (v : View) : View → Type 0 where
    unchanged : {v' : View} → Same v v' → Steps v v'
    more : {v1 v' : View} → Steps v v1 → Step v1 v' → Steps v v'

  -- The key comes from an answer of the store or of the server.
  pub data Given (key : ApiWalletKey) : Type 0 where
    kept :
        (keys : List ApiWalletKey) (w w' : W)
        → store.get_wallet_keys w ≡ (ok keys, w')
        → In key keys
        → Given key
    served :
        (wallets : List ApiWalletData) (w w' : W)
        → client.get_wallets w ≡ (ok wallets, w')
        → In key (wallet_keys_of wallets)
        → Given key

  Steps-Same : {v v1 v2 : View} → Steps v v1 → Same v1 v2 → Steps v v2
  Steps-Same (unchanged h) g = unchanged (λ id. g id ∙ h id)
  Steps-Same (more t (forget h)) g = more t (forget (λ id. g id ∙ h id))
  Steps-Same (more t (load keys w w' a h)) g = more t (load keys w w' a (λ id. g id ∙ h id))
  Steps-Same (more t (learn ws w w' a h)) g = more t (learn ws w w' a (λ id. g id ∙ h id))

  pub Steps-append : {v v1 v2 : View} → Steps v v1 → Steps v1 v2 → Steps v v2
  Steps-append s (unchanged same) = Steps-Same s same
  Steps-append s (more t st) = more (Steps-append s t) st

newest-eq-some :
    (p : ApiWalletKey → Bool) (xs : List ApiWalletKey) {k : ApiWalletKey}
    → newest p xs ≡ some k
    → In k xs
newest-eq-some p [] h = cc
newest-eq-some p (x ∷ xs) {k} h = elim (Option-cases (newest p xs)) [
  | inr (y, later) ↦
      let same : y ≡ k = ground (arith, rw later at h) in
      there (newest-eq-some p xs {k = k} (later ∙ ap some same))
  | inl last ↦ elim (Bool-cases (p x)) [
    | inl yes' ↦
        let e : x ≡ k = ground (arith, rw (last, yes') at h) in subst (λ z. In z (x ∷ xs)) e here
    | inr no' ↦ ground (arith, rw (last, no') at h)
  ]
]

or_else-cases :
    (a b : Option ApiWalletKey) (k : ApiWalletKey)
    → or_else a b ≡ some k
    → (a ≡ some k) ⊎ (b ≡ some k)
or_else-cases (some x) b k h = inl h
or_else-cases none b k h = inr h

module _ {W : Type 0} (store : WalletKeyStore W) (client : WalletClient W) where
  -- Whatever happens to the map, a key that it has was there before or was given by the store or by
  -- the server.
  pub Steps-Given :
      {v v' : View} (wallet_id : Text) (key : ApiWalletKey)
      → Steps store client v v'
      → v' wallet_id ≡ some key
      → (v wallet_id ≡ some key) ⊎ Given store client key
  Steps-Given wallet_id key (unchanged same) h = inl (sym (same wallet_id) ∙ h)
  Steps-Given wallet_id key (more t (forget e)) h = let no' = e wallet_id in cc
  Steps-Given wallet_id key (more t (load keys w w' a e)) h =
      inr (kept keys w w' a (find-eq-some (is_for wallet_id) keys (sym (e wallet_id) ∙ h)).0)
  Steps-Given wallet_id key (more t (learn ws w w' a e)) h =
      elim (or_else-cases (newest (is_for wallet_id) (wallet_keys_of ws)) _ key
        (sym (e wallet_id) ∙ h)) [
          | inl last ↦
              inr (served ws w w' a (newest-eq-some (is_for wallet_id) (wallet_keys_of ws) last))
          | inr before ↦ Steps-Given wallet_id key t before
        ]
