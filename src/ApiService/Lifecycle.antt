-- ===== src/ApiService/Lifecycle.antt =====
-- The life of the API service: its creation, the login and the logout.
use flutter_app.Common.{
  ◌≡◌, refl, ◌⊎◌, inl, inr, some, first, Result, Result-cases, Bool-cases, ok, err, Text, codes,
}
use flutter_app.Crypto.{Bytes, Base64, Utf8}
use flutter_app.Crypto.Password.{compute_key_password}
use flutter_app.AuthStore.{AuthType, WalletAuthStore}
use flutter_app.Bridge.{BridgeError, Debug, from_poison}
use flutter_app.ApiService.{
  LoginKey, UserData, AuthCredential, ServiceState, logout, write_auth, write_proton_api,
  then_clear, clear_proton_api, retrieve_proton_api, raw_salt,
}

abbrev pub not_set : BridgeError
not_set = BridgeError.api_lock (codes "PROTON_API api is not set")

module _ {Auth C S I : Type 0} (type : AuthType Auth) (store : WalletAuthStore Auth S) where
  -- A logout either returns, and then the session is written as none and no service can be retrieved
  -- until one is set; or it fails with the error of a poisoned lock, and then the global service is
  -- what it was.
  pub logout_lem :
      (s : ServiceState C S I)
      → (((logout type store s).0 ≡ ok tt)
          × ((logout type store s).1.auth.inner ≡ (store.write_auth type.none' s.auth.inner).1)
          × ((retrieve_proton_api (logout type store s).1).0 ≡ err not_set))
        ⊎ (((logout type store s).0 ≡ err from_poison)
            × ((logout type store s).1.proton_api ≡ s.proton_api))
  unfolding logout write_auth then_clear clear_proton_api write_proton_api retrieve_proton_api
  logout_lem s = elim (Result-cases (store.write_auth type.none' s.auth.inner).0) [
    | inl (e, failed) ↦ inr (rw failed refl, rw failed refl)
    | inr (done, written) ↦ elim (Bool-cases s.poisoned) [
      | inl poisoned ↦ inr (rw (written, poisoned) refl, rw (written, poisoned) refl)
      | inr fine ↦ inl (rw (written, fine) refl, rw (written, fine) refl, rw (written, fine) refl)
    ]
  ]

module _ {Auth : Type 0} (type : AuthType Auth) (utf : Utf8) (base64 : Base64) (debug : Debug)
    (mailbox_password_hash : Text → Bytes → Result Text Bytes) where
  -- The credential of a login is that of the user and of the session in the store.
  abbrev pub Granted : (password : Text) → UserData → Auth → AuthCredential → Type 0
  Granted password user auth c =
      (key : LoginKey) × (salt : Bytes) × (first user.keys ≡ some key)
      × (raw_salt base64 key.id user.key_salts ≡ some salt)
      × (compute_key_password utf mailbox_password_hash password salt ≡ ok c.user_passphrase)
      × (c.user_id ≡ user.id)
      × (c.user_key_id ≡ key.id)
      × (c.user_private_key ≡ key.private_key)
      × (type.uid auth ≡ some c.session_id)
      × (type.acc_tok auth ≡ some c.access_token)
      × (type.ref_tok auth ≡ some c.refresh_token)
