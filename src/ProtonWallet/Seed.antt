-- ===== src/ProtonWallet/Seed.antt =====
-- The opening of the object of an account, and the seed that it shows.
use flutter_app.Common.{map_err-ok, ◌≡◌, ok, Exec, Text, codes}
use flutter_app.Errors.{ProviderError}
use flutter_app.AppDatabase
use flutter_app.Db.Table.{Table}
use flutter_app.Db.Wallet.{WalletModel}
use flutter_app.Db.UserKey.{ProtonUserKeyModel}
use flutter_app.Crypto.Label.{Binary, as_utf8_string}
use flutter_app.Provider.Auth.{AuthInfo, SrpProof, build_client_proofs}
use flutter_app.Provider.Mnemonic
use flutter_app.Features.PasswordScope.{MnemonicResult, unlock_password_change}
use flutter_app.Features.PasswordScope
use flutter_app.Features.PasswordScope.Guarded.{unlock_password_change-ok, view_seed-returned}
use flutter_app.ProtonWallet.{
  ProtonWallet, Parts, Data, view_seed, scope, wallet_data_provider, wallet_keys_provider, users,
}

module _ {F W R : Type 0} (wallet_table : Table (WalletModel F))
    (user_key_table : Table ProtonUserKeyModel) (parts : Parts F W R)
    (wallet : ProtonWallet W) where
  abbrev State : Type 0
  State = Data wallet_table.Store user_key_table.Store W

  -- the state after the password was proved
  abbrev pub unlocked : (login_password twofa : Text) → State → State
  unlocked login_password twofa s =
      ((scope wallet_table user_key_table parts wallet).unlock login_password twofa s).1

  abbrev pub mnemonic_of : Text → Exec ProviderError State Binary
  mnemonic_of wallet_id =
      Mnemonic.get_wallet_mnemonic (wallet_data_provider wallet_table user_key_table parts wallet)
        (wallet_keys_provider wallet_table user_key_table parts wallet) parts.aes parts.base64
        (users wallet_table user_key_table parts wallet) parts.decrypt_legacy wallet_id

  abbrev pub name_of : Text → Exec ProviderError State Text
  name_of wallet_id =
      Mnemonic.get_wallet_name (wallet_data_provider wallet_table user_key_table parts wallet)
        (wallet_keys_provider wallet_table user_key_table parts wallet) parts.aes parts.base64
        parts.utf wallet_id

  -- Where a seed is shown, the server gave the parameters of the login, and answered the proofs of the
  -- login password and the code for these parameters with the proof that was expected; the mnemonic
  -- that the providers gave after that is the seed, and the name that they gave then is the name.
  pub view_seed-ok :
      (wallet_id login_password twofa : Text) (s : State) (result : MnemonicResult)
      → (view_seed wallet_table user_key_table parts wallet wallet_id login_password twofa s).0
        ≡ ok result
      → (info : AuthInfo) × (proof : SrpProof) × (mnemonic : Binary)
        × ((parts.auth_client.get_auth_info (codes "Proton") s.outside).0 ≡ ok info)
        × (parts.srp.generate_proofs login_password info.version info.salt info.modulus
              info.server_ephemeral
            ≡ ok proof)
        × ((parts.auth_client.unlock_password_change
              (build_client_proofs twofa info proof)
              (parts.auth_client.get_auth_info (codes "Proton") s.outside).1).0
            ≡ ok proof.expected_server_proof)
        × ((mnemonic_of wallet_id (unlocked login_password twofa s)).0 ≡ ok mnemonic)
        × (as_utf8_string parts.utf mnemonic ≡ ok result.wallet_mnemonic)
        × ((name_of wallet_id (mnemonic_of wallet_id (unlocked login_password twofa s)).1).0
            ≡ ok result.wallet_name)
        × (result.wallet_id ≡ wallet_id)
  unfolding view_seed PasswordScope.view_seed scope
  view_seed-ok wallet_id login_password twofa s result h =
      let (mnemonic, opened, got, read, named, id) =
        view_seed-returned (scope wallet_table user_key_table parts wallet) parts.utf mnemonic_of
          name_of wallet_id login_password twofa s result h in
      let proved =
        map_err-ok (λ e. e)
          (unlock_password_change parts.auth_client parts.srp login_password twofa s.outside).0 tt
          opened in
      let (info, proof, asked, made, answered) =
        unlock_password_change-ok parts.auth_client parts.srp login_password twofa s.outside
          proved in
      (info, proof, mnemonic, asked, made, answered, got, read, named, id)
