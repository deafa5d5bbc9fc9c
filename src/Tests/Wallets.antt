-- ===== src/Tests/Wallets.antt =====
-- Loading wallets from the server: rust/src/proton_wallet/provider/wallet.rs.
use flutter_app.Common.{ℕ, ◌≡◌, refl, List, [], ◌∷◌, here, ok, err, text_eq}
use flutter_app.Errors.{ProviderError, DatabaseError}
use flutter_app.Api.{WalletClient}
use flutter_app.Storage.WalletMnemonic.{WalletMnemonicStore, MnemonicData}
use flutter_app.Db.Memory.{Contents}
use flutter_app.Db.Wallet.{WalletModel}
use flutter_app.Provider.Wallet.{Wallets, load_from_server}
use flutter_app.Provider.Wallet.Known.{load_from_server-known}
use flutter_app.Tests.Tables.{wallet_table, savings, one_wallet}
use flutter_app.Tests.Keys.{served}

-- The world is the list of the mnemonics that the app keeps.
abbrev secure : WalletMnemonicStore (List MnemonicData)
secure = record {
  get_wallet_mnemonics = λ w. (ok w, w);
  save_api_wallet_mnemonics = λ datas w. (ok tt, datas);
}

abbrev server : WalletClient (List MnemonicData)
server = record { get_wallets = λ w. (ok (served ∷ []), w) }

abbrev start : Wallets (Contents (WalletModel ℕ)) (List MnemonicData)
start = record { database = one_wallet; outside = [] }

load_from_server-known_example :
    (e : DatabaseError) × ((load_from_server 0 (λ w. 0) wallet_table secure server start).0
      ≡ err (ProviderError.database e))
    × ((load_from_server 0 (λ w. 0) wallet_table secure server start).1.outside ≡ [])
unfolding text_eq
load_from_server-known_example =
    load_from_server-known 0 (λ w. 0) wallet_table secure server (served ∷ []) served start []
      {r = savings} refl here (record { live = tt; has = refl; positive = refl }) refl
