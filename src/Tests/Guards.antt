-- ===== src/Tests/Guards.antt =====
-- The features at work: rust/src/proton_wallet/features/.
use flutter_app.Common.{ℕ, ◌≡◌, refl, [], ◌∷◌, ok, codes, text_eq}
use flutter_app.Crypto.Relock.{relock_user_key_with, relock_all}
use flutter_app.Crypto.Password.{compute_key_password}
use flutter_app.Provider.Auth.{
  AuthClient, AuthInfo, SrpClient, SrpProof, auth_info, generate_srp_proofs, build_client_proofs,
  generate_auth_module,
}
use flutter_app.Features.PasswordScope.{PasswordScope, prove_password, unlock_password_change}
use flutter_app.Features.PasswordScope.Guarded.{unlock_password_change-ok}
use flutter_app.Features.Recovery.{
  RecoveryClient, RecoveryTools, UpdateMnemonicSettings, new_recovery, enable_recovery,
}
use flutter_app.Features.Recovery.Enabled.{recovery_of, enable_recovery-ok}
use flutter_app.Tests.UserKeys.{one_key}
use flutter_app.Tests.Ciphers.{base64, utf, pgp}

abbrev info : AuthInfo
info = record {
  code = 1000;
  modulus = codes "m";
  server_ephemeral = codes "e";
  version = 4;
  salt = codes "s";
  srp_session = codes "session";
  two_fa_enabled = 1;
}

abbrev proof : SrpProof
proof = record {
  client_ephemeral = codes "c";
  client_proof = codes "p";
  expected_server_proof = codes "expected";
}

abbrev pub client : AuthClient ℕ
client = record {
  get_auth_info = λ intent w. (ok info, w);
  get_auth_modulus = λ w. (ok (record { modulus = codes "m"; modulus_id = codes "id" }), w);
  unlock_password_change = λ proofs w. (ok (codes "expected"), w);
  lock_sensitive_settings = λ w. (ok 1000, w);
}

abbrev pub srp : SrpClient
srp = record {
  generate_proofs = λ login_password version salt modulus server_ephemeral. ok proof;
  generate_verifier =
      λ password modulus. ok (record { version = 4; salt = codes "s"; verifier = codes "v" });
}

unlocked : (unlock_password_change client srp (codes "password") (codes "123456") 0).0 ≡ ok tt
unfolding unlock_password_change prove_password auth_info generate_srp_proofs text_eq
unlocked = refl

unlock_password_change-ok_example :
    (info : AuthInfo) × (proof : SrpProof) × ((client.get_auth_info (codes "Proton") 0).0 ≡ ok info)
    × (srp.generate_proofs
          (codes "password")
          info.version
          info.salt
          info.modulus
          info.server_ephemeral
        ≡ ok proof)
    × ((client.unlock_password_change
          (build_client_proofs (codes "123456") info proof)
          (client.get_auth_info (codes "Proton") 0).1).0
        ≡ ok proof.expected_server_proof)
unlock_password_change-ok_example =
    unlock_password_change-ok client srp (codes "password") (codes "123456") 0 unlocked

abbrev open' : PasswordScope ℕ
open' = record { unlock = λ login_password twofa w. (ok tt, w) }

abbrev settings : RecoveryClient ℕ
settings = record {
  set_mnemonic_settings = λ request w. (ok 1000, w);
  reactive_mnemonic_settings = λ request w. (ok 1000, w);
  disable_mnemonic_settings = λ proofs w. (ok (codes "expected"), w);
  get_user_info_mnemonic_status = λ w. (ok 1, w);
}

abbrev tools : RecoveryTools ℕ
tools = record {
  generate_secure_random_bytes = λ w. (codes "sixteen random..", w);
  words = λ entropy. ok (codes "abandon" ∷ codes "about" ∷ []);
  mailbox_password_hash = λ password salt. ok (codes "a hash that has more than 31 bytes");
}

abbrev request : UpdateMnemonicSettings
request = record {
  mnemonic_user_keys =
      record { private_key = codes "ash that has more than 31 bytes"; key_id = codes "k" } ∷ [];
  mnemonic_salt = codes "sixteen random..";
  mnemonic_auth = record {
    version = 4;
    modulus_id = codes "id";
    salt = codes "s";
    verifier = codes "v";
  };
}

made :
    (recovery_of client srp settings open' one_key pgp base64 utf tools 0).0
    ≡ ok (codes "abandon" ∷ codes "about" ∷ [], request)
unfolding new_recovery compute_key_password relock_user_key_with relock_all generate_auth_module
made = refl

enabled :
    (enable_recovery client srp settings open' one_key pgp base64 utf tools
      (codes "password")
      (codes "123456")
      0).0
    ≡ ok (codes "abandon" ∷ codes "about" ∷ [])
unfolding enable_recovery new_recovery compute_key_password relock_user_key_with relock_all
    generate_auth_module
enabled = refl

enable_recovery-ok_example :
    (request : UpdateMnemonicSettings) × (code : ℕ) × ((open'.unlock
        (codes "password")
        (codes "123456")
        0).0
      ≡ ok tt)
    × ((recovery_of client srp settings open' one_key pgp base64 utf tools 0).0
        ≡ ok (codes "abandon" ∷ codes "about" ∷ [], request))
    × ((settings.set_mnemonic_settings request
          (recovery_of client srp settings open' one_key pgp base64 utf tools 0).1).0
        ≡ ok code)
    × ((client.lock_sensitive_settings
          (settings.set_mnemonic_settings request
            (recovery_of client srp settings open' one_key pgp base64 utf tools 0).1).1).0
        ≡ ok 1000)
enable_recovery-ok_example =
    enable_recovery-ok client srp settings open' one_key pgp base64 utf tools (codes "password")
      (codes "123456") (codes "abandon" ∷ codes "about" ∷ []) 0 enabled
