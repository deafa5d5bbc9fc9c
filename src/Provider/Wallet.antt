-- ===== src/Provider/Wallet.antt =====
-- rust/src/proton_wallet/provider/wallet.rs: the wallets in the local table, their mnemonics in the
-- app's store, and both on the server. The calls of one task are modelled with no other task in
-- between.
pub mod Known
use flutter_app.Common.{
  ℕ, Bool, true, false, Option, none, some, List, [], ◌∷◌, find, ok, err, Exec, pure, fail, ◌>>=◌,
  ◌>>◌, Text, text_eq, within, ◌%◌,
}
use flutter_app.Errors.{
  ProviderError, ApiError, DatabaseError, WalletStorageError, wallet_storage, no_wallet_keys_found,
  no_mnemonic_found,
}
use flutter_app.Api.{ApiWalletData, WalletClient}
use flutter_app.Storage.WalletMnemonic.{WalletMnemonicStore, MnemonicData, mnemonic_datas}
use flutter_app.Db.Table.{Table}
use flutter_app.Db.Wallet
use flutter_app.Db.Wallet.{WalletModel}

-- `value.unwrap_or(default)`
abbrev pub or_default : {A : Type 0} → Option A → A → A
or_default none d = d
or_default (some a) d = a

abbrev pub bool_as_u32 : Bool → ℕ
bool_as_u32 true = 1
bool_as_u32 false = 0

-- `WalletModel::from` of an `ApiWalletData`; `now` is the time in seconds, and `zero_balance` is
-- `f64::default()`.
unfoldable pub wallet_model :
    {F : Type 0} → (zero_balance : F) (now : ℕ) → ApiWalletData → WalletModel F
wallet_model zero_balance now value = record {
  id = 0;
  name = value.wallet.name;
  passphrase = value.wallet.has_passphrase;
  public_key = or_default value.wallet.public_key [];
  imported = value.wallet.is_imported;
  priority = value.wallet.priority;
  status = value.wallet.status;
  type_ = value.wallet.type_;
  create_time = now % 4294967296;
  modify_time = now % 4294967296;
  user_id = [];
  wallet_id = value.wallet.id;
  account_count = 1;
  balance = zero_balance;
  fingerprint = value.wallet.fingerprint;
  show_wallet_recovery = bool_as_u32 (or_default value.show_wallet_recovery false);
  migration_required = or_default value.wallet.migration_required 0;
  legacy = some (or_default value.wallet.legacy 0);
}

-- The connection to the table of wallets, and the world that the store and the client live in.
pub record Wallets (S W : Type 0) : Type 0 where
  pub database : S
  pub outside : W

-- `clock` is the time at which a wallet is converted.
module _ {F W : Type 0} (zero_balance : F) (clock : ApiWalletData → ℕ)
    (table : Table (WalletModel F)) (store : WalletMnemonicStore W) (client : WalletClient W) where
  abbrev pub State : Type 0
  State = Wallets table.Store W

  abbrev pub in_table : {A : Type 0} → Exec DatabaseError table.Store A → Exec ProviderError State A
  in_table call =
      within ProviderError.database (λ s. s.database) (λ s d. record s { database = d }) call

  abbrev pub outer : {E A : Type 0} → (E → ProviderError) → Exec E W A → Exec ProviderError State A
  outer from' call = within from' (λ s. s.outside) (λ s w. record s { outside = w }) call

  -- the `for` loop of `load_from_server`
  unfoldable pub save_wallets : List ApiWalletData → Exec ProviderError State (Unit {0})
  unfolding wallet_model
  save_wallets [] = pure tt
  save_wallets (w ∷ ws) =
      in_table (Wallet.upsert table (wallet_model zero_balance (clock w) w)) >> save_wallets ws

  unfoldable pub load_from_server : Exec ProviderError State (Unit {0})
  unfolding save_wallets mnemonic_datas
  load_from_server = do
    wallets ← outer ProviderError.andromeda_api client.get_wallets
    save_wallets wallets
    outer wallet_storage (store.save_api_wallet_mnemonics (mnemonic_datas wallets))

  abbrev pub return_found :
      {A : Type 0} → Option A → Exec ProviderError State A → Exec ProviderError State A
  return_found (some a) rest = pure a
  return_found none rest = rest

  unfoldable pub get_wallet : Text → Exec ProviderError State (WalletModel F)
  unfolding Wallet.get_by_server_id load_from_server
  get_wallet wallet_id = do
    found ← in_table (Wallet.get_by_server_id table wallet_id)
    return_found found (
        load_from_server
        >> (in_table (Wallet.get_by_server_id table wallet_id) >>= λ loaded.
            return_found loaded (fail no_wallet_keys_found)))

  -- the mnemonic of the entry of the wallet, where there is an entry with one
  abbrev pub mnemonic_in : Text → List MnemonicData → Option Text
  mnemonic_in wallet_id datas = elim (find (λ item. text_eq item.wallet_id wallet_id) datas) [
    | some item ↦ item.mnemonic
    | none ↦ none
  ]

  unfoldable pub find_mnemonic_from_store : Text → Exec ProviderError State (Option Text)
  find_mnemonic_from_store wallet_id = do
    wallet_mnemonics ← outer wallet_storage store.get_wallet_mnemonics
    pure (mnemonic_in wallet_id wallet_mnemonics)

  unfoldable pub get_wallet_mnemonic : Text → Exec ProviderError State Text
  unfolding find_mnemonic_from_store load_from_server
  get_wallet_mnemonic wallet_id = do
    found ← find_mnemonic_from_store wallet_id
    return_found found (
        load_from_server
        >> (find_mnemonic_from_store wallet_id >>= λ loaded.
            return_found loaded (fail no_mnemonic_found)))

  unfoldable pub delete_by_wallet_id : Text → Exec ProviderError State (Unit {0})
  unfolding Wallet.delete_by_wallet_id
  delete_by_wallet_id wallet_id = in_table (Wallet.delete_by_wallet_id table wallet_id)

  unfoldable pub get_all_by_user_id : Text → Exec ProviderError State (List (WalletModel F))
  unfolding Wallet.get_all_by_user_id
  get_all_by_user_id user_id = in_table (Wallet.get_all_by_user_id table user_id)

  -- `DataProvider::upsert` and `DataProvider::get`
  unfoldable pub upsert : WalletModel F → Exec ProviderError State (Unit {0})
  unfolding Wallet.upsert
  upsert item = in_table (Wallet.upsert table item) >> pure tt

  unfoldable pub get : Text → Exec ProviderError State (Option (WalletModel F))
  unfolding Wallet.get_by_server_id
  get server_id = in_table (Wallet.get_by_server_id table server_id)
