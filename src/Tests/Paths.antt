-- ===== src/Tests/Paths.antt =====
-- Derivation paths of new accounts: rust/src/proton_wallet/provider/wallet.rs.
use flutter_app.Common.{
  ℕ, ◌≡◌, refl, true, some, List, [], ◌∷◌, ok, Text, codes, text_eq, decimal, digits, arith,
}
use flutter_app.Db.Table.{Table}
use flutter_app.Db.Memory.{Contents, memory}
use flutter_app.Db.Account.{AccountModel}
use flutter_app.Provider.Derivation.{format_derivation_path, find_path, get_new_derivation_path}
use flutter_app.Provider.Derivation.Fresh.{
  IsFirstFree, Found, accounts_of, get_new_derivation_path_lem, find_path-succeeds,
}

abbrev account : (id : ℕ) (derivation_path : Text) → AccountModel
account id derivation_path = record {
  id = id;
  account_id = codes "a";
  wallet_id = codes "w";
  derivation_path = derivation_path;
  label = [];
  script_type = 3;
  create_time = 0;
  modify_time = 0;
  fiat_currency = codes "USD";
  priority = 1;
  last_used_index = 0;
  pool_size = 10;
}

abbrev accounts : List AccountModel
accounts = account 1 (codes "84'/0'/0'") ∷ account 2 (codes "m/84'/0'/1'") ∷ []

abbrev account_table : Table AccountModel
account_table = memory (codes "wallet_id" ∷ []) (λ rows. true)

abbrev contents : Contents AccountModel
contents = record { stored = accounts; next_id = 2 }

third_path : format_derivation_path 84 0 2 ≡ codes "84'/0'/2'"
unfolding format_derivation_path decimal digits
third_path = refl

get_new_derivation_path_lem_example :
    (Found
      (accounts_of account_table (codes "w") 84 0 contents)
      84
      0
      0
      (get_new_derivation_path account_table (codes "w") 84 0 contents).0)
    × ((get_new_derivation_path account_table (codes "w") 84 0 contents).1 ≡ contents)
unfolding text_eq
get_new_derivation_path_lem_example =
    get_new_derivation_path_lem account_table (codes "w") 84 0 contents tt refl

find_path-succeeds_example :
    (i : ℕ) × (find_path accounts 84 0 10001 0 ≡ some (ok (format_derivation_path 84 0 i)))
    × IsFirstFree accounts 84 0 0 i
find_path-succeeds_example = find_path-succeeds accounts 84 0 (omega arith)
