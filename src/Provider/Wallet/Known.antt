-- ===== src/Provider/Wallet/Known.antt =====
-- Loading from the server when the local table has one of the wallets that the server lists.
use flutter_app.Common.{
  ℕ, ◌≡◌, ◌≢◌, refl, ◌∙◌, inl, inr, ◌⊎◌, Bool, false, Option, none, some, List, [], ◌∷◌, ◌++◌, find,
  In, here, there, ok, err, Result, Exec, continue, ◌==◌, Text, text_eq, Option-cases, arith,
}
use flutter_app.Errors.{ProviderError, DatabaseError, database, no_changed_rows}
use flutter_app.Api.{ApiWalletData, WalletClient}
use flutter_app.Storage.WalletMnemonic.{WalletMnemonicStore, MnemonicData}
use flutter_app.Db.Table.{Table}
use flutter_app.Db.Base.Laws.{Has}
use flutter_app.Db.Dao.Laws.{find-append}
use flutter_app.Db.Wallet.{WalletModel, wallet_id_column, upsert}
use flutter_app.Db.Wallet.Upsert.{upsert-stale, upsert-fresh, upsert-fresh-keeps}
use flutter_app.Provider.Wallet.{
  Wallets, wallet_model, save_wallets, load_from_server, get_wallet_mnemonic,
  find_mnemonic_from_store, mnemonic_in,
}

find-append_some :
    {R : Type 0} (p : R → Bool) (xs ys : List R) {r : R}
    → find p xs ≡ some r
    → find p (xs ++ ys) ≡ some r
find-append_some p [] ys h = cc
find-append_some p (x ∷ xs) ys {r} h = ground (arith, find-append_some p xs ys {r = r})

module _ {F W : Type 0} (zero_balance : F) (clock : ApiWalletData → ℕ)
    (table : Table (WalletModel F)) (store : WalletMnemonicStore W) (client : WalletClient W) where
  -- the row of the wallet in the table, if it has one
  abbrev pub row_of : table.Store → ApiWalletData → Option (WalletModel F)
  row_of s w = find (λ q. text_eq q.wallet_id w.wallet.id) (table.rows s)

  -- The connection serves statements, the table has the column `wallet_id`, and ids are positive.
  pub record IsReady (s : table.Store) : Type 0 where
    pub live : table.Live s
    pub has : Has table wallet_id_column s
    pub positive : find (λ q. q.id == 0) (table.rows s) ≡ none

  abbrev model : ApiWalletData → WalletModel F
  model w = wallet_model zero_balance (clock w) w

  abbrev Failed : Result ProviderError (Unit {0}) × Wallets table.Store W → W → Type 0
  Failed r w = (e : DatabaseError) × (r.0 ≡ err (ProviderError.database e)) × (r.1.outside ≡ w)

  head-known :
      (x : ApiWalletData) (s : table.Store) {r : WalletModel F}
      → IsReady s
      → row_of s x ≡ some r
      → (upsert table (model x) s).0 ≡ err no_changed_rows
  unfolding wallet_model
  head-known x s {r} ready known =
      (upsert-stale table (model x) s ready.live ready.has {r = r} known ready.positive).0

  head-fresh :
      (x w : ApiWalletData) (s : table.Store) {r : WalletModel F}
      → IsReady s
      → row_of s x ≡ none
      → row_of s w ≡ some r
      → ((e : DatabaseError) × ((upsert table (model x) s).0 ≡ err e))
        ⊎ ((o : Option (WalletModel F)) × ((upsert table (model x) s).0 ≡ ok o)
            × IsReady (upsert table (model x) s).1
            × (row_of (upsert table (model x) s).1 w ≡ some r))
  unfolding wallet_model
  head-fresh x w s {r} ready fresh known =
      elim (upsert-fresh table (model x) s ready.live ready.has fresh) [
        | inl (e, failed, _) ↦ inl (database e, failed)
        | inr (i, pos, done, added) ↦
            let (live', same) = upsert-fresh-keeps table (model x) s ready.live ready.has fresh in
            let row = record (model x) { id = i } in
            let zero' : (i == 0) ≡ false = ground arith in
            let nonzero = find-append (λ q. q.id == 0) (table.rows s) (row ∷ []) ready.positive in
            inr (
              some row,
              done,
              (record {
                live = live';
                has = rw same ready.has;
                positive = rw added (nonzero ∙ rw (zero', find) refl);
              }),
              rw added (
                  find-append_some (λ q. text_eq q.wallet_id w.wallet.id) (table.rows s) (row ∷ [])
                    known),
            )
      ]

  save_wallets-Failed :
      (ws : List ApiWalletData) (w : ApiWalletData) (s : Wallets table.Store W) {r : WalletModel F}
      → In w ws
      → IsReady s.database
      → row_of s.database w ≡ some r
      → Failed (save_wallets zero_balance clock table store client ws s) s.outside
  unfolding save_wallets
  save_wallets-Failed [] w s i ready known = elim i [ ]
  save_wallets-Failed (x ∷ ws) w s {r} i ready known = elim (Option-cases (row_of s.database x)) [
    | inr (q, there') ↦ (
      no_changed_rows,
      (rw (head-known x s.database {r = q} ready there')),
      (rw (head-known x s.database {r = q} ready there') refl),
    )
    | inl fresh ↦ elim (head-fresh x w s.database ready fresh known) [
      | inl (e, failed) ↦ (e, (rw failed), (rw failed refl))
      | inr (o, done, ready', known') ↦ rw done (
          save_wallets-Failed ws w (record s { database = (upsert table (model x) s.database).1 })
            (later i (λ same. cc (fresh, known, same))) ready' known')
    ]
  ]
    where
      later : {x w : ApiWalletData} {ws : List ApiWalletData} → In w (x ∷ ws) → (w ≢ x) → In w ws
      later here h = absurd (h refl)
      later (there i) h = i

  continue-Failed :
      (r : Result ProviderError (Unit {0}) × Wallets table.Store W)
      (rest : Exec ProviderError (Wallets table.Store W) (Unit {0})) (w : W)
      → Failed r w
      → Failed (continue r.0 (λ done. rest) r.1) w
  continue-Failed (r, s) rest w (e, failed, same) = (e, (rw failed), (rw failed same))

  -- Where the server lists a wallet that the local table has already, loading from the server fails
  -- with an error of the database, and the mnemonics are not given to the store, on every connection
  -- that serves statements and has positive ids.
  pub load_from_server-known :
      (wallets : List ApiWalletData) (w : ApiWalletData) (s : Wallets table.Store W) (outside' : W)
      {r : WalletModel F}
      → client.get_wallets s.outside ≡ (ok wallets, outside')
      → In w wallets
      → IsReady s.database
      → row_of s.database w ≡ some r
      → (e : DatabaseError) × ((load_from_server zero_balance clock table store client s).0
          ≡ err (ProviderError.database e))
        × ((load_from_server zero_balance clock table store client s).1.outside ≡ outside')
  unfolding load_from_server
  load_from_server-known wallets w s outside' served i ready known = rw served (
      continue-Failed _ _ outside' (
        save_wallets-Failed wallets w (record { database = s.database; outside = outside' }) i ready
          known))

  -- Where the store has no mnemonic of the wallet, and the server lists some wallet that the local
  -- table has already, `get_wallet_mnemonic` fails with an error of the database.
  pub get_wallet_mnemonic-known :
      (wallet_id : Text) (datas : List MnemonicData) (wallets : List ApiWalletData)
      (w : ApiWalletData) (s : Wallets table.Store W) (asked outside' : W) {r : WalletModel F}
      → store.get_wallet_mnemonics s.outside ≡ (ok datas, asked)
      → mnemonic_in zero_balance clock table store client wallet_id datas ≡ none
      → client.get_wallets asked ≡ (ok wallets, outside')
      → In w wallets
      → IsReady s.database
      → row_of s.database w ≡ some r
      → (e : DatabaseError) × ((get_wallet_mnemonic zero_balance clock table store client wallet_id
            s).0
          ≡ err (ProviderError.database e))
  unfolding get_wallet_mnemonic find_mnemonic_from_store
  get_wallet_mnemonic-known wallet_id datas wallets w s asked outside' kept missing served i ready
        known =
      let (e, failed, _) =
        load_from_server-known wallets w (record { database = s.database; outside = asked })
          outside' served i ready known in
      (e, (rw (kept, missing, failed)))
