-- ===== src/Tests/Sessions.antt =====
-- Sessions at work: rust/src/api/api_service/wallet_auth_store.rs; and the default wallet.
use flutter_app.Common.{ℕ, refl, true, false, Option, none, some, [], ok, Text}
use flutter_app.AuthStore.{AuthType, WalletAuthStore, AuthState, set_auth}

-- A session is its access token, or none.
abbrev pub tokens : AuthType (Option Text)
tokens = record {
  none' = none;
  internal = λ user_id uid access refresh scopes. some access;
  is_none = λ auth. elim auth [ none ↦ true | some t ↦ false ];
  uid = λ auth. auth;
  acc_tok = λ auth. auth;
  ref_tok = λ auth. auth;
  scopes = λ auth. none;
  is_none-none' = refl;
}

abbrev pub one_session : WalletAuthStore (Option Text) (Option Text)
one_session = record {
  get_auth = λ s. ok s;
  set_auth = λ auth s. (ok tt, auth);
  remove_auth = λ s. (ok (some s), none);
  set_all_auth = λ auth s. (ok tt, s);
  remove_all_auth = λ s. (ok tt, none);
  write_auth = λ auth s. (ok tt, auth);
}

abbrev pub listening : AuthState ℕ (Option Text)
listening = record { inner = none; callback = some 1; initializing = false; spawned = [] }
