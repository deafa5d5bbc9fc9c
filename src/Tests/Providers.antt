-- ===== src/Tests/Providers.antt =====
-- A provider of a table at work: rust/src/proton_wallet/provider/address.rs.
use flutter_app.Common.{ℕ, ◌≡◌, refl, true, [], ◌∷◌, ok, codes, text_eq}
use flutter_app.Db.Table.{Table}
use flutter_app.Db.Memory.{Contents, memory}
use flutter_app.Db.Memory
use flutter_app.Db.Base.Laws.{Has}
use flutter_app.Db.Address.{AddressModel, server_id_column}
use flutter_app.Db.Address
use flutter_app.Provider.Tables.Address as AddressTable
use flutter_app.Provider.Tables.Found.{Found}
use flutter_app.Provider.Tables.All.{TableKind, assigned, provider, get-upsert}

abbrev home : AddressModel
home = record {
  id = 0;
  server_id = codes "a";
  email = codes "me";
  server_wallet_id = codes "w";
  server_account_id = codes "c";
}

abbrev addresses : Table AddressModel
addresses = memory (codes "server_id" ∷ []) (λ rows. true)

abbrev no_addresses : Contents AddressModel
no_addresses = record { stored = []; next_id = 0 }

has_server_id : Has addresses server_id_column no_addresses
unfolding text_eq
has_server_id = refl

upserts : ((provider ℕ TableKind.address addresses).upsert home no_addresses).0 ≡ ok tt
unfolding AddressTable.upsert Address.upsert text_eq Memory.insert
upserts = refl

get-upsert_example :
    Found addresses server_id_column home
      (assigned ℕ TableKind.address home)
      (provider ℕ TableKind.address addresses)
      no_addresses
      ((provider ℕ TableKind.address addresses).upsert home no_addresses).1
get-upsert_example =
    get-upsert ℕ TableKind.address addresses home no_addresses tt has_server_id upserts
