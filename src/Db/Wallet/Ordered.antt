-- ===== src/Db/Wallet/Ordered.antt =====
-- The wallets of a user in the order of their priority, and the one with the least.
use flutter_app.Common.{
  ◌≤◌, ◌≡◌, refl, Option, none, some, List, [], ◌∷◌, first, keep, In, here, there, All-In, ok, Text,
  text_eq, text_eq_iff, arith,
}
use flutter_app.Common.HashMap.{In-keep}
use flutter_app.Db.Table.{Table, IsAscending}
use flutter_app.Db.Wallet.{WalletModel, get_all_by_user_id, get_default_wallet_by_user_id}

module _ {F : Type 0} (table : Table (WalletModel F)) (user_id : Text) (s : table.Store)
    (live : table.Live s) where
  abbrev pub wallets_of : List (WalletModel F)
  wallets_of = keep (λ r. text_eq r.user_id user_id) (table.rows s)

  -- On a connection that serves statements, `get_all_by_user_id` changes nothing and returns wallets
  -- in ascending order of their priority, which are exactly the wallets of the user.
  pub get_all_by_user_id_lem :
      (rs : List (WalletModel F)) × (get_all_by_user_id table user_id s ≡ (ok rs, s))
      × IsAscending (λ r. r.priority) rs
      × ((r : WalletModel F) → In r rs → In r wallets_of)
      × ((r : WalletModel F) → In r wallets_of → In r rs)
  unfolding get_all_by_user_id
  get_all_by_user_id_lem =
      let (rs, found, ascending, to, from') =
        table.select_ordered_live (λ r. text_eq r.user_id user_id) (λ r. r.priority) s live in
      (rs, (rw found refl), ascending, to, from')

  least-first :
      (r : WalletModel F) (rs : List (WalletModel F))
      → IsAscending (λ q. q.priority) (r ∷ rs)
      → (q : WalletModel F) → In q (r ∷ rs)
      → r.priority ≤ q.priority
  least-first r rs a q here = omega arith
  least-first r rs a q (there i) = All-In (λ q. r.priority ≤ q.priority) a.0 i

  abbrev pub Default : Option (WalletModel F) → Type 0
  Default none = (q : WalletModel F) → ¬ (In q wallets_of)
  Default (some r) =
      In r (table.rows s)
      × (r.user_id ≡ user_id)
      × ((q : WalletModel F) → In q wallets_of → r.priority ≤ q.priority)

  first-Default :
      (rs : List (WalletModel F))
      → IsAscending (λ r. r.priority) rs
      → ((r : WalletModel F) → In r rs → In r wallets_of)
      → ((r : WalletModel F) → In r wallets_of → In r rs)
      → Default (first rs)
  first-Default [] a to from' = λ q i. elim (from' q i) [ ]
  first-Default (r ∷ rs) a to from' =
      let (row, own) = In-keep (λ q. text_eq q.user_id user_id) (table.rows s) (to r here) in
      (row, (text_eq_iff r.user_id user_id).0 own, λ q i. least-first r rs a q (from' q i))

  -- On a connection that serves statements, `get_default_wallet_by_user_id` changes nothing and
  -- returns a wallet of the user whose priority is at most that of each wallet of the user, or none
  -- where the user has no wallet.
  pub get_default_wallet_by_user_id_lem :
      (found : Option (WalletModel F)) × (get_default_wallet_by_user_id table user_id s
        ≡ (ok found, s))
      × Default found
  unfolding get_default_wallet_by_user_id
  get_default_wallet_by_user_id_lem =
      let (rs, found, ascending, to, from') =
        table.select_ordered_live (λ r. text_eq r.user_id user_id) (λ r. r.priority) s live in
      (first rs, (rw found refl), first-Default rs ascending to from')
