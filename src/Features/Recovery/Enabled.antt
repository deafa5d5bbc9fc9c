-- ===== src/Features/Recovery/Enabled.antt =====
-- What holds when the words of a recovery phrase are returned.
use flutter_app.Common.{
  continue-ok, map_err-ok, ℕ, ◌≡◌, sym, ap, ◌∙◌, inl, inr, List, Result, ok, err, map_err, pure,
  fail, ◌==◌, ==_iff, if◌then◌else◌, Text, length, Bool-cases,
}
use flutter_app.Errors.{FeaturesError, andromeda_bitcoin, lock_sensitive_settings}
use flutter_app.Crypto.{Bytes, Base64, Utf8}
use flutter_app.Crypto.Password.{compute_key_password}
use flutter_app.Crypto.Relock.{Pgp, relock_user_key_with-ok, relock_user_key_with}
use flutter_app.Storage.UserKey.{LockedKey}
use flutter_app.Provider.Auth.{AuthClient, SrpClient, generate_auth_module}
use flutter_app.Provider.UserKeys.{UserKeysProvider}
use flutter_app.Features.PasswordScope.{PasswordScope}
use flutter_app.Features.Recovery.{
  UpdateMnemonicSettings, RecoveryClient, RecoveryTools, new_recovery, enable_recovery,
}

module _ {D W : Type 0} (client : AuthClient W) (srp : SrpClient) (settings : RecoveryClient W)
    (scope : PasswordScope W) (user_keys_provider : UserKeysProvider W) (pgp : Pgp D)
    (base64 : Base64) (utf : Utf8) (tools : RecoveryTools W) where
  abbrev pub recovery_of : W → Result FeaturesError (List Text × UpdateMnemonicSettings) × W
  recovery_of = new_recovery client srp settings scope user_keys_provider pgp base64 utf tools

  lock_checked :
      (code : ℕ) (words found : List Text) (w : W)
      → ((if code == 1000 then pure words else fail (lock_sensitive_settings code)) w).0 ≡ ok found
      → (code ≡ 1000) × (words ≡ found)
  lock_checked code words found w h = elim (Bool-cases (code == 1000)) [
    | inl same ↦ ((==_iff code 1000).0 same, cc (rw same at h))
    | inr other ↦ cc (rw other at h)
  ]

  -- Where `enable_recovery` returns words, the password scope was unlocked, a new recovery was made of
  -- which these are the words, the settings with its request were set, and then the
  -- sensitive settings were locked with the code 1000.
  pub enable_recovery-ok :
      (login_password twofa : Text) (words : List Text) (w : W)
      → (enable_recovery client srp settings scope user_keys_provider pgp base64 utf tools
          login_password twofa w).0
        ≡ ok words
      → (request : UpdateMnemonicSettings) × (code : ℕ) × ((scope.unlock login_password twofa w).0
          ≡ ok tt)
        × ((recovery_of (scope.unlock login_password twofa w).1).0 ≡ ok (words, request))
        × ((settings.set_mnemonic_settings request
              (recovery_of (scope.unlock login_password twofa w).1).1).0
            ≡ ok code)
        × ((client.lock_sensitive_settings
              (settings.set_mnemonic_settings request
                (recovery_of (scope.unlock login_password twofa w).1).1).1).0
            ≡ ok 1000)
  unfolding enable_recovery
  enable_recovery-ok login_password twofa words w h =
      let w1 = (scope.unlock login_password twofa w).1 in
      let (_, unlocked, h1) = continue-ok (scope.unlock login_password twofa w).0 _ w1 words h in
      let (recovery, made, h2) = continue-ok (recovery_of w1).0 _ (recovery_of w1).1 words h1 in
      let set = settings.set_mnemonic_settings recovery.1 (recovery_of w1).1 in
      let (code, done, h3) = continue-ok _ _ set.1 words h2 in
      let lock = client.lock_sensitive_settings set.1 in
      let (lock_code, locked, h4) = continue-ok _ _ lock.1 words h3 in
      let (same, found) = lock_checked lock_code recovery.0 words lock.1 h4 in
      (
        recovery.1,
        code,
        unlocked,
        made ∙ ap (λ x. ok (x, recovery.1)) found,
        map_err-ok FeaturesError.andromeda_api set.0 code done,
        map_err-ok FeaturesError.andromeda_api lock.0 lock_code locked ∙ ap ok same,
      )

  -- the world after the salt and the entropy were drawn, and the entropy
  abbrev pub drawn : W → W
  drawn w = (tools.generate_secure_random_bytes (tools.generate_secure_random_bytes w).1).1

  abbrev pub entropy_of : W → Bytes
  entropy_of w = (tools.generate_secure_random_bytes (tools.generate_secure_random_bytes w).1).0

  -- Where a new recovery is made, its words are those of the entropy that was drawn, and its request
  -- has one key for each of the user keys that the provider gave, relocked.
  pub new_recovery-ok :
      (words : List Text) (request : UpdateMnemonicSettings) (w : W)
      → (recovery_of w).0 ≡ ok (words, request)
      → (user_keys : List LockedKey) × (tools.words (entropy_of w) ≡ ok words)
        × ((user_keys_provider.get_user_keys (drawn w)).0 ≡ ok user_keys)
        × (length request.mnemonic_user_keys ≡ length user_keys)
  unfolding new_recovery
  new_recovery-ok words request w h =
      let w2 = drawn w in
      let modulus = generate_auth_module client srp (base64.encode (entropy_of w)) in
      let asked = user_keys_provider.get_user_keys w2 in
      let secret_asked = user_keys_provider.get_user_key_passphrase asked.1 in
      let (found, worded, h1) =
        continue-ok (map_err andromeda_bitcoin (tools.words (entropy_of w))) _ w2 (words, request)
          h in
      let (new_secret, hashed, h2) =
        continue-ok
          (map_err FeaturesError.wallet_crypto (
            compute_key_password utf tools.mailbox_password_hash (base64.encode (entropy_of w))
              (tools.generate_secure_random_bytes w).0))
          _ w2 (words, request) h1 in
      let (user_keys, given, h3) =
        continue-ok (map_err FeaturesError.provider asked.0) _ asked.1 (words, request) h2 in
      let (passphrase, secret, h4) =
        continue-ok (map_err FeaturesError.provider secret_asked.0) _ secret_asked.1
          (words, request) h3 in
      let (keys, relocked, h5) =
        continue-ok
          (map_err FeaturesError.wallet_crypto
            (relock_user_key_with pgp new_secret user_keys passphrase))
          _ secret_asked.1 (words, request) h4 in
      let (auth, made, h6) =
        continue-ok (map_err FeaturesError.provider (modulus secret_asked.1).0) _
          (modulus secret_asked.1).1 (words, request) h5 in
      let same_words : found ≡ words = ap (λ r. elim r [ ok p ↦ p.0 | err e ↦ found ]) h6 in
      let same_keys : keys ≡ request.mnemonic_user_keys =
        ap (λ r. elim r [ ok p ↦ p.1.mnemonic_user_keys | err e ↦ keys ]) h6 in
      let (_, counted, _) =
        relock_user_key_with-ok pgp new_secret user_keys passphrase keys
          (map_err-ok FeaturesError.wallet_crypto _ keys relocked) in
      (
        user_keys,
        map_err-ok andromeda_bitcoin _ words (worded ∙ ap ok same_words),
        map_err-ok FeaturesError.provider asked.0 user_keys given,
        ap length (sym same_keys) ∙ counted,
      )
