-- ===== src/Provider/WalletKeys/Refined.antt =====
-- The calls of rust/src/proton_wallet/provider/wallet_keys.rs against the partial map of its cache.
use flutter_app.Common.{◌≡◌, List, [], ◌∷◌, find, In, ok, Exec, Text}
use flutter_app.Common.HashMap.{newest}
use flutter_app.Errors.{ProviderError}
use flutter_app.Api.{ApiWalletKey, WalletClient}
use flutter_app.Storage.WalletKey.{WalletKeyStore}
use flutter_app.Provider.WalletKeys
use flutter_app.Provider.WalletKeys.{Keys, find_from_memory, memory}
use flutter_app.Provider.WalletKeys.Merge.{is_for}
use flutter_app.Provider.WalletKeys.View.{View, Steps}

-- the calls of the provider that other parts make
pub data Call : Type 0 where
  get_locked_wallet_key : Text → Call
  clear reset : Call

module _ {W : Type 0} (store : WalletKeyStore W) (client : WalletClient W)
    (arrange : List ApiWalletKey → List ApiWalletKey) where
  abbrev pub run : Call → Keys W → Keys W
  run (Call.get_locked_wallet_key wallet_id) s =
      (WalletKeys.get_locked_wallet_key store client arrange wallet_id s).1
  run Call.clear s = (WalletKeys.clear store client arrange s).1
  run Call.reset s = (WalletKeys.reset store client arrange s).1

  abbrev pub runs : List Call → Keys W → Keys W
  runs [] s = s
  runs (call ∷ calls) s = runs calls (run call s)

module _ {W : Type 0} (store : WalletKeyStore W) (client : WalletClient W)
    (arrange : List ApiWalletKey → List ApiWalletKey)
    (arranged : (keys : List ApiWalletKey) (k : ApiWalletKey)
      → (In k (arrange keys) → In k keys) × (In k keys → In k (arrange keys))) where
  abbrev pub view : Keys W → View
  view s = λ wallet_id. find_from_memory store client arrange wallet_id s

  -- The first key of each wallet in the list is also the last.
  abbrev pub IsUnique : List ApiWalletKey → Type 0
  IsUnique keys = (wallet_id : Text) → newest (is_for wallet_id) keys ≡ find (is_for wallet_id) keys

  module _
      (unique : (keys : List ApiWalletKey) (w w' : W)
        → store.get_wallet_keys w ≡ (ok keys, w')
        → IsUnique keys) where
    -- From a memory with one key for each wallet the call leaves such a memory, and does to the map
    -- what the steps allow.
    abbrev pub Refines : {A : Type 0} → Exec ProviderError (Keys W) A → Type 0
    Refines m =
        (s : Keys W)
        → IsUnique (memory store client arrange s)
        → IsUnique (memory store client arrange (m s).1)
          × Steps store client (view s) (view (m s).1)
