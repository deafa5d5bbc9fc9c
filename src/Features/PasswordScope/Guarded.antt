-- ===== src/Features/PasswordScope/Guarded.antt =====
-- How a password scope is opened, and what it guards:
-- rust/src/proton_wallet/features/proton_settings/.
use flutter_app.Common.{
  continue-ok, map_err, map_err-ok, ◌≡◌, refl, sym, ap, ◌∙◌, ok, err, Exec, pure, fail,
  if◌then◌else◌, Text, text_eq, text_eq_iff, Bool-cases, inl, inr, codes,
}
use flutter_app.Errors.{FeaturesError, ProviderError, invalid_srp_server_proofs}
use flutter_app.Crypto.{Utf8}
use flutter_app.Crypto.Label.{Binary, as_utf8_string}
use flutter_app.Provider.Auth.{
  AuthClient, AuthInfo, SrpClient, SrpProof, auth_info, generate_srp_proofs, build_client_proofs,
}
use flutter_app.Features.PasswordScope.{
  prove_password, unlock_password_change, PasswordScope, TwoFaClient, enable_twofa, view_seed,
  MnemonicResult,
}

module _ {W : Type 0} where
  checked :
      (expected answer : Text) (w : W)
      → ((if text_eq expected answer then pure tt else fail invalid_srp_server_proofs) w).0 ≡ ok tt
      → expected ≡ answer
  checked expected answer w h = elim (Bool-cases (text_eq expected answer)) [
    | inl same ↦ (text_eq_iff expected answer).0 same
    | inr other ↦ cc (rw other at h)
  ]

  module _ (client : AuthClient W) (srp : SrpClient) where
    -- Where the password scope is unlocked, the server gave the parameters of the login, the proofs
    -- that were sent are those of the login password and of the code for these parameters, and the
    -- server's answer is the proof that only a server that knows the password is expected to give.
    pub unlock_password_change-ok :
        (login_password twofa : Text) (w : W)
        → (unlock_password_change client srp login_password twofa w).0 ≡ ok tt
        → (info : AuthInfo) × (proof : SrpProof) × ((client.get_auth_info (codes "Proton") w).0
            ≡ ok info)
          × (srp.generate_proofs login_password info.version info.salt info.modulus
                info.server_ephemeral
              ≡ ok proof)
          × ((client.unlock_password_change
                (build_client_proofs twofa info proof)
                (client.get_auth_info (codes "Proton") w).1).0
              ≡ ok proof.expected_server_proof)
    unfolding unlock_password_change prove_password auth_info generate_srp_proofs
    unlock_password_change-ok login_password twofa w h =
        let w1 = (client.get_auth_info (codes "Proton") w).1 in
        let (info, got, h1) = continue-ok _ _ w1 tt h in
        let (proof, made, h2) = continue-ok _ _ w1 tt h1 in
        let sent = client.unlock_password_change (build_client_proofs twofa info proof) w1 in
        let (answer, answered, h3) = continue-ok _ _ sent.1 tt h2 in
        let expected = checked proof.expected_server_proof answer sent.1 h3 in
        let made' = map_err-ok FeaturesError.provider _ proof made in
        let got' = map_err-ok FeaturesError.provider _ info got in
        let answered' = map_err-ok FeaturesError.provider _ answer answered in
        (
          info,
          proof,
          map_err-ok ProviderError.andromeda_api _ info got',
          map_err-ok ProviderError.wallet_crypto _ proof made',
          map_err-ok ProviderError.andromeda_api sent.0 answer answered' ∙ ap ok (sym expected),
        )

  -- Where a seed is shown, the scope was unlocked, the provider of mnemonics gave the mnemonic of the
  -- wallet after that, whose text is the seed, and the provider of names then gave the name.
  pub view_seed-returned :
      (scope : PasswordScope W) (utf : Utf8)
      (get_wallet_mnemonic : Text → Exec ProviderError W Binary)
      (get_wallet_name : Text → Exec ProviderError W Text) (wallet_id login_password twofa : Text)
      (w : W) (result : MnemonicResult)
      → (view_seed scope utf get_wallet_mnemonic get_wallet_name wallet_id login_password twofa w).0
        ≡ ok result
      → (mnemonic : Binary) × ((scope.unlock login_password twofa w).0 ≡ ok tt)
        × ((get_wallet_mnemonic wallet_id (scope.unlock login_password twofa w).1).0 ≡ ok mnemonic)
        × (as_utf8_string utf mnemonic ≡ ok result.wallet_mnemonic)
        × ((get_wallet_name wallet_id
              (get_wallet_mnemonic wallet_id (scope.unlock login_password twofa w).1).1).0
            ≡ ok result.wallet_name)
        × (result.wallet_id ≡ wallet_id)
  unfolding view_seed
  view_seed-returned scope utf get_wallet_mnemonic get_wallet_name wallet_id login_password twofa w
        result h =
      let s1 = (scope.unlock login_password twofa w).1 in
      let s2 = (get_wallet_mnemonic wallet_id s1).1 in
      let s3 = (get_wallet_name wallet_id s2).1 in
      let (tt, opened, h1) = continue-ok (scope.unlock login_password twofa w).0 _ s1 result h in
      let got' = map_err FeaturesError.provider (get_wallet_mnemonic wallet_id s1).0 in
      let (mnemonic, got, h2) = continue-ok got' _ s2 result h1 in
      let named' = map_err FeaturesError.provider (get_wallet_name wallet_id s2).0 in
      let (name, named, h3) = continue-ok named' _ s3 result h2 in
      let read' = map_err FeaturesError.wallet_crypto (as_utf8_string utf mnemonic) in
      let (words, read, h4) = continue-ok read' _ s3 result h3 in
      let made : MnemonicResult = record {
        wallet_id = wallet_id;
        wallet_name = name;
        wallet_mnemonic = words;
      } in
      let same : made ≡ result = cc in
      (
        mnemonic,
        opened,
        map_err-ok FeaturesError.provider (get_wallet_mnemonic wallet_id s1).0 mnemonic got,
        map_err-ok FeaturesError.wallet_crypto (as_utf8_string utf mnemonic) words read
            ∙ ap (λ z. ok z.wallet_mnemonic) same,
        map_err-ok FeaturesError.provider (get_wallet_name wallet_id s2).0 name named
            ∙ ap (λ z. ok z.wallet_name) same,
        ap (λ z. z.wallet_id) (sym same),
      )

  -- Where the password scope is not unlocked, viewing the seed and enabling the second factor fail
  -- with its error and leave the world as it left it: neither the mnemonic nor the name is read, and
  -- nothing is sent.
  pub locked_scope :
      {R S : Type 0} (scope : PasswordScope W) (settings : TwoFaClient R S W) (utf : Utf8)
      (get_wallet_mnemonic : Text → Exec ProviderError W Binary)
      (get_wallet_name : Text → Exec ProviderError W Text) (wallet_id login_password twofa : Text)
      (w w' : W) (e : FeaturesError)
      → scope.unlock login_password twofa w ≡ (err e, w')
      → (view_seed scope utf get_wallet_mnemonic get_wallet_name wallet_id login_password twofa w
          ≡ (err e, w'))
        × (enable_twofa scope settings login_password twofa w ≡ (err e, w'))
  unfolding view_seed enable_twofa
  locked_scope scope settings utf get_wallet_mnemonic get_wallet_name wallet_id login_password twofa
        w w' e h =
      ((rw h refl), (rw h refl))
