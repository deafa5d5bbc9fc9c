-- ===== src/Tests/Seed.antt =====
-- The object of an account at work: rust/src/proton_wallet/wallet.rs.
use flutter_app.Common.{ℕ, ◌≡◌, refl, some, [], ◌∷◌, ◌++◌, ok, codes, text_eq}
use flutter_app.Storage.WalletKey.{WalletKeyStore}
use flutter_app.Storage.WalletMnemonic.{WalletMnemonicStore}
use flutter_app.Db.Memory.{Contents}
use flutter_app.Db.Wallet.{WalletModel}
use flutter_app.Db.UserKey.{ProtonUserKeyModel}
use flutter_app.Crypto.Label.{Binary, as_utf8_string}
use flutter_app.Provider.Auth.{AuthInfo, SrpProof, build_client_proofs}
use flutter_app.Features.PasswordScope.{MnemonicResult}
use flutter_app.Provider.UserKeys.{get_user_keys, get_user_key_passphrase}
use flutter_app.ProtonWallet.{ProtonWallet, Parts, Data, view_seed}
use flutter_app.ProtonWallet.Seed.{view_seed-ok, unlocked, mnemonic_of, name_of}
use flutter_app.Tests.Guards.{client, srp}
use flutter_app.Tests.UserKeys.{secure, server, keys_table, wallets, row, wallet_key}
use flutter_app.Tests.Ciphers.{plain, base64, utf, key, zeros, named}
use flutter_app.Tests.Tables.{wallet_table}

abbrev keys_store : WalletKeyStore ℕ
keys_store = record {
  get_wallet_keys = λ w. (ok [], w);
  save_api_wallet_keys = λ keys w. (ok tt, w);
}

abbrev mnemonics : WalletMnemonicStore ℕ
mnemonics = record {
  get_wallet_mnemonics = λ w.
      (ok (record { wallet_id = codes "w"; mnemonic = some (zeros ++ codes "words") } ∷ []), w);
  save_api_wallet_mnemonics = λ datas w. (ok tt, w);
}

abbrev parts : Parts ℕ ℕ ℕ
parts = record {
  auth_client = client;
  users_client = server;
  wallet_client = wallets;
  srp = srp;
  aes = plain;
  base64 = base64;
  utf = utf;
  zero_balance = 0;
  clock = λ wallet. 0;
  arrange = λ keys. keys;
  unlock_user_keys = λ keys secret. [];
  unlock_wallet_key = λ locked keys. ok key;
  decrypt_legacy = λ keys secret bytes. ok (record { bytes = bytes });
}

abbrev account : ProtonWallet ℕ
account = record {
  user_id = [];
  user_key_store = secure;
  wallet_key_store = keys_store;
  wallet_mnemonic_store = mnemonics;
}

abbrev at_hand : Data (Contents (WalletModel ℕ)) (Contents ProtonUserKeyModel) ℕ
at_hand = record {
  wallets = record { stored = named ∷ []; next_id = 1 };
  user_keys = record { stored = record row { user_id = [] } ∷ []; next_id = 1 };
  wallet_keys = some (wallet_key ∷ []);
  outside = 0;
}

abbrev seed : MnemonicResult
seed = record {
  wallet_id = codes "w";
  wallet_name = codes "words";
  wallet_mnemonic = codes "words";
}

shows :
    (view_seed wallet_table keys_table parts account
      (codes "w")
      (codes "password")
      (codes "123456")
      at_hand).0
    ≡ ok seed
unfolding view_seed text_eq get_user_keys get_user_key_passphrase
shows = refl

view_seed-ok_example :
    (info : AuthInfo) × (proof : SrpProof) × (mnemonic : Binary) × ((client.get_auth_info
        (codes "Proton")
        0).0
      ≡ ok info)
    × (srp.generate_proofs
          (codes "password")
          info.version
          info.salt
          info.modulus
          info.server_ephemeral
        ≡ ok proof)
    × ((client.unlock_password_change
          (build_client_proofs (codes "123456") info proof)
          (client.get_auth_info (codes "Proton") 0).1).0
        ≡ ok proof.expected_server_proof)
    × ((mnemonic_of wallet_table keys_table parts account (codes "w") (
          unlocked wallet_table keys_table parts account
            (codes "password")
            (codes "123456")
            at_hand)).0
        ≡ ok mnemonic)
    × (as_utf8_string utf mnemonic ≡ ok (codes "words"))
    × ((name_of wallet_table keys_table parts account
          (codes "w")
          (mnemonic_of wallet_table keys_table parts account (codes "w") (
            unlocked wallet_table keys_table parts account
              (codes "password")
              (codes "123456")
              at_hand)).1).0
        ≡ ok (codes "words"))
    × (codes "w" ≡ codes "w")
view_seed-ok_example =
    view_seed-ok wallet_table keys_table parts account (codes "w") (codes "password")
      (codes "123456") at_hand seed shows
