-- ===== src/Provider/Tables/All.antt =====
-- The providers of all tables, and what they have in common.
use flutter_app.Common.{
  Result-cases, ℕ, ◌≡◌, inl, inr, Option, some, ok, text_eq, text_eq_refl, ◌==◌, Bool-cases,
}
use flutter_app.Db.Table.{Table, update_where}
use flutter_app.Db.Base.{Column}
use flutter_app.Db.Base.Laws.{Has, get_by_column_id_live}
use flutter_app.Db.Dao.{execute_update}
use flutter_app.Db.Dao.Kept.{upsert_by-Kept}
use flutter_app.Db.Account.{AccountModel, account_id_column}
use flutter_app.Db.Address.{AddressModel}
use flutter_app.Db.Address
use flutter_app.Db.BitcoinAddress.{BitcoinAddressModel}
use flutter_app.Db.BitcoinAddress
use flutter_app.Db.Contacts.{ContactsModel}
use flutter_app.Db.Contacts
use flutter_app.Db.ExchangeRate.{ExchangeRateModel}
use flutter_app.Db.ExchangeRate
use flutter_app.Db.Transactions.{TransactionModel}
use flutter_app.Db.Transactions
use flutter_app.Db.User.{ProtonUserModel}
use flutter_app.Db.User
use flutter_app.Db.UserKey.{ProtonUserKeyModel, key_id_column}
use flutter_app.Db.UserKey
use flutter_app.Db.WalletUserSettings.{WalletUserSettingsModel}
use flutter_app.Db.WalletUserSettings
use flutter_app.Db.Account
use flutter_app.Provider.Tables.{DataProvider}
use flutter_app.Provider.Tables.Found.{Found, kept-Found, insert_row-Found, upsert_by_id-Found}
use flutter_app.Provider.Tables.Account as AccountTable
use flutter_app.Provider.Tables.Address as AddressTable
use flutter_app.Provider.Tables.BitcoinAddress as BitcoinAddressTable
use flutter_app.Provider.Tables.Contacts as ContactsTable
use flutter_app.Provider.Tables.ExchangeRate as ExchangeRateTable
use flutter_app.Provider.Tables.Transactions as TransactionsTable
use flutter_app.Provider.Tables.User as UserTable
use flutter_app.Provider.Tables.UserKey as UserKeyTable
use flutter_app.Provider.Tables.WalletUserSettings as WalletUserSettingsTable

pub data TableKind : Type 0 where
  account address bitcoin_address contacts exchange_rate transaction user user_key
        wallet_user_settings :
      TableKind

module _ (F : Type 0) where
  -- the rows of a table, the column that `get` searches, and a row with the id that is assigned
  abbrev pub Model : TableKind → Type 0
  Model account = AccountModel
  Model address = AddressModel
  Model bitcoin_address = BitcoinAddressModel
  Model contacts = ContactsModel
  Model exchange_rate = ExchangeRateModel
  Model transaction = TransactionModel
  Model user = ProtonUserModel
  Model user_key = ProtonUserKeyModel
  Model wallet_user_settings = WalletUserSettingsModel F

  abbrev pub key_column : (k : TableKind) → Column (Model k)
  key_column account = account_id_column
  key_column address = Address.server_id_column
  key_column bitcoin_address = BitcoinAddress.server_id_column
  key_column contacts = Contacts.server_contact_id_column
  key_column exchange_rate = ExchangeRate.server_id_column
  key_column transaction = Transactions.server_id_column
  key_column user = User.user_id_column
  key_column user_key = key_id_column
  key_column wallet_user_settings = WalletUserSettings.user_id_column

  abbrev pub assigned : (k : TableKind) → Model k → ℕ → Model k
  assigned account item i = record item { id = i }
  assigned address item i = record item { id = i }
  assigned bitcoin_address item i = record item { id = some i }
  assigned contacts item i = record item { id = some i }
  assigned exchange_rate item i = record item { id = some i }
  assigned transaction item i = record item { id = i }
  assigned user item i = record item { id = i }
  assigned user_key item i = item
  assigned wallet_user_settings item i = item

  abbrev pub provider :
      (k : TableKind) (table : Table (Model k)) → DataProvider table.Store (Model k)
  provider account table = AccountTable.data_provider table
  provider address table = AddressTable.data_provider table
  provider bitcoin_address table = BitcoinAddressTable.data_provider table
  provider contacts table = ContactsTable.data_provider table
  provider exchange_rate table = ExchangeRateTable.data_provider table
  provider transaction table = TransactionsTable.data_provider table
  provider user table = UserTable.data_provider table
  provider user_key table = UserKeyTable.data_provider table
  provider wallet_user_settings table = WalletUserSettingsTable.data_provider table

  settings-wrote :
      (table : Table (WalletUserSettingsModel F)) (item : WalletUserSettingsModel F)
      (s : table.Store)
      → table.Live s
      → Has table WalletUserSettings.user_id_column s
      → (o : Option (WalletUserSettingsModel F)) → (WalletUserSettings.update table item s).0 ≡ ok o
      → table.Live (WalletUserSettings.update table item s).1
        × (table.columns (WalletUserSettings.update table item s).1 ≡ table.columns s)
        × (table.rows (WalletUserSettings.update table item s).1
            ≡ update_where
                (λ r. text_eq r.user_id item.user_id)
                (λ r. record item { user_id = r.user_id })
                (table.rows s))
  unfolding WalletUserSettings.update execute_update WalletUserSettings.get
  settings-wrote table item s live has o h =
      let p = λ (r : WalletUserSettingsModel F). text_eq r.user_id item.user_id in
      let f = λ (r : WalletUserSettingsModel F). record item { user_id = r.user_id } in
      elim (Result-cases (table.update p f s).0) [
        | inl (e, failed) ↦ let bad = rw failed at h in cc
        | inr (n, done) ↦ elim (Bool-cases (n == 0)) [
          | inl nothing ↦ let bad = rw (done, nothing) at h in cc
          | inr something ↦
              let (live', same) = table.update_keeps p f s live in
              let has' : Has table WalletUserSettings.user_id_column (table.update p f s).1 =
                rw same has in
              let read =
                get_by_column_id_live table WalletUserSettings.user_id_column item.user_id
                  (table.update p f s).1 live' has' in
              rw (done, something, read) (live', same, (table.update_ok p f s n done).1)
        ]
      ]

  -- After an upsert that returned, on a table that served statements and has the column of the key,
  -- `get` of the key of the item returns a row with this key and changes nothing, and the row is the
  -- item, with the id that was assigned, unless the table had a row with the key before; so for each
  -- of the nine tables.
  pub get-upsert :
      (k : TableKind) (table : Table (Model k)) (item : Model k) (s : table.Store)
      → table.Live s
      → Has table (key_column k) s
      → ((provider k table).upsert item s).0 ≡ ok tt
      → Found table
          (key_column k)
          item
          (assigned k item)
          (provider k table)
          s
          ((provider k table).upsert item s).1
  unfolding Account.upsert Account.update Account.insert Account.get_by_server_id
      AccountTable.upsert AccountTable.get Address.upsert Address.update Address.insert
      Address.get_by_server_id AddressTable.upsert AddressTable.get BitcoinAddress.upsert
      BitcoinAddress.update BitcoinAddress.insert BitcoinAddress.get_by_server_id
      BitcoinAddressTable.upsert BitcoinAddressTable.get Contacts.upsert Contacts.update
      Contacts.insert Contacts.get_by_server_id ContactsTable.upsert ContactsTable.get
      ExchangeRate.upsert ExchangeRate.update ExchangeRate.insert ExchangeRate.get_by_server_id
      ExchangeRateTable.upsert ExchangeRateTable.get Transactions.upsert Transactions.update
      Transactions.insert Transactions.get_by_server_id TransactionsTable.upsert
      TransactionsTable.get User.insert User.get_by_user_id UserTable.upsert UserTable.get
      UserKey.insert UserKey.get_by_key_id UserKeyTable.upsert UserKeyTable.get
      WalletUserSettings.upsert WalletUserSettings.update WalletUserSettings.insert
      WalletUserSettings.get_by_user_id WalletUserSettingsTable.upsert WalletUserSettingsTable.get
  get-upsert account table item s live has h =
      upsert_by_id-Found table account_id_column item (λ i. record item { id = i }) Account.id
        (Account.id item) (λ r. record item { id = r.id }) s live has
        (λ i. text_eq_refl item.account_id) (λ r. text_eq_refl item.account_id) h
  get-upsert address table item s live has h =
      upsert_by_id-Found table Address.server_id_column item (λ i. record item { id = i })
        Address.id (Address.id item) (λ r. record item { id = r.id }) s live has
        (λ i. text_eq_refl item.server_id) (λ r. text_eq_refl item.server_id) h
  get-upsert bitcoin_address table item s live has h =
      upsert_by_id-Found table BitcoinAddress.server_id_column item
        (λ i. record item { id = some i }) BitcoinAddress.id (BitcoinAddress.id item)
        (λ r. record item { id = r.id }) s live has (λ i. text_eq_refl item.server_id)
        (λ r. text_eq_refl item.server_id) h
  get-upsert contacts table item s live has h =
      upsert_by_id-Found table Contacts.server_contact_id_column item
        (λ i. record item { id = some i }) Contacts.id (Contacts.id item)
        (λ r. record item { id = r.id }) s live has (λ i. text_eq_refl item.server_contact_id)
        (λ r. text_eq_refl item.server_contact_id) h
  get-upsert exchange_rate table item s live has h =
      upsert_by_id-Found table ExchangeRate.server_id_column item (λ i. record item { id = some i })
        ExchangeRate.id (ExchangeRate.id item) (λ r. record item { id = r.id }) s live has
        (λ i. text_eq_refl item.server_id) (λ r. text_eq_refl item.server_id) h
  get-upsert transaction table item s live has h =
      upsert_by_id-Found table Transactions.server_id_column item (λ i. record item { id = i })
        Transactions.id (Transactions.id item) (λ r. record item { id = r.id }) s live has
        (λ i. text_eq_refl item.server_id) (λ r. text_eq_refl item.server_id) h
  get-upsert user table item s live has h =
      insert_row-Found table User.user_id_column item (λ i. record item { id = i }) s live has
        (λ i. text_eq_refl item.user_id) h
  get-upsert user_key table item s live has h =
      insert_row-Found table key_id_column item (λ i. item) s live has
        (λ i. text_eq_refl item.key_id) h
  get-upsert wallet_user_settings table item s live has h =
      kept-Found table WalletUserSettings.user_id_column item (λ i. item)
        (WalletUserSettings.upsert table item) s
        (upsert_by-Kept table WalletUserSettings.user_id_column item.user_id (λ i. item) s live has
          (λ i. text_eq_refl item.user_id) (WalletUserSettings.update table item)
          (λ r. text_eq r.user_id item.user_id) (λ r. record item { user_id = r.user_id })
          (λ r same. same) (settings-wrote table item s live has))
        h
