-- ===== src/Tests/Tables.antt =====
-- The table of wallets in memory: rust/src/proton_wallet/db/dao/wallet_dao.rs at work.
use flutter_app.Common.{
  ℕ, ◌≡◌, ◌⊎◌, refl, true, none, some, [], ◌∷◌, ok, err, Text, codes, text_eq, ◌==◌,
}
use flutter_app.Errors.{database}
use flutter_app.Db.Table.{Table, update_where}
use flutter_app.Db.Memory.{Contents, memory}
use flutter_app.Db.Wallet.{WalletModel, upsert}
use flutter_app.Db.Wallet.Upsert.{upsert-known}

abbrev wallet : (id : ℕ) (name wallet_id : Text) → WalletModel ℕ
wallet id name wallet_id = record {
  id = id;
  name = name;
  passphrase = 0;
  public_key = [];
  imported = 0;
  priority = 1;
  status = 1;
  type_ = 1;
  create_time = 0;
  modify_time = 0;
  user_id = [];
  wallet_id = wallet_id;
  account_count = 1;
  balance = 0;
  fingerprint = none;
  show_wallet_recovery = 0;
  migration_required = 0;
  legacy = some 0;
}

abbrev pub wallet_table : Table (WalletModel ℕ)
wallet_table = memory (codes "wallet_id" ∷ []) (λ rows. true)

abbrev pub savings : WalletModel ℕ
savings = wallet 1 (codes "savings") (codes "w")

abbrev pub one_wallet : Contents (WalletModel ℕ)
one_wallet = record { stored = savings ∷ []; next_id = 1 }

-- what the server says of the same wallet, and of another one
abbrev renamed : ℕ → WalletModel ℕ
renamed id = wallet id (codes "travel") (codes "w")

upsert-known_example :
    ((e : Text) × ((upsert wallet_table (renamed 1) one_wallet).0 ≡ err (database e))
      × (wallet_table.rows (upsert wallet_table (renamed 1) one_wallet).1 ≡ savings ∷ []))
    ⊎ (((upsert wallet_table (renamed 1) one_wallet).0 ≡ ok (some (renamed 1)))
        × (wallet_table.rows (upsert wallet_table (renamed 1) one_wallet).1
            ≡ update_where (λ q. q.id == 1) (λ q. record (renamed 1) { id = q.id }) (savings ∷ [])))
unfolding text_eq
upsert-known_example =
    upsert-known wallet_table (renamed 1) one_wallet tt refl {r = savings} (tt, tt) refl refl refl
