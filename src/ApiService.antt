-- ===== src/ApiService.antt =====
-- rust/src/api/api_service/proton_api_service.rs and the global service of rust/src/api/proton_api.rs:
-- the API client of the app, its session and the login. A panic is `none`. A lock that a panic
-- poisoned is an error of the parameter that takes it.
pub mod Lifecycle
use flutter_app.Common.{
  ◌≡◌, Bool, true, false, Option, none, some, List, [], ◌∷◌, find, first, ok_or, Result, ok, err,
  map_err, Exec, Text, codes, text_eq, if◌then◌else◌,
}
use flutter_app.Errors.{ApiError, WalletCryptoError}
use flutter_app.Crypto.{Bytes, Base64, Utf8}
use flutter_app.Crypto.Password.{compute_key_password}
use flutter_app.AuthStore.{
  AuthType, WalletAuthStore, AuthState, set_api_client_initializing, or_empty,
}
use flutter_app.Bridge.{BridgeError, Debug, from_api, from_poison, from_wallet_crypto}

-- What `login` reads of the answer of the server: the keys of the user and the salts.
pub record LoginKey : Type 0 where
  pub id : Text
  pub private_key : Text

pub record LoginSalt : Type 0 where
  pub id : Text
  pub key_salt : Option Text

pub record UserData : Type 0 where
  pub id : Text
  pub email : Text
  pub name : Text
  pub keys : List LoginKey
  pub key_salts : List LoginSalt

-- `AuthCredential`
pub record AuthCredential : Type 0 where
  pub session_id : Text
  pub user_id : Text
  pub access_token : Text
  pub refresh_token : Text
  pub event_id : Text
  pub user_mail : Text
  pub user_name : Text
  pub display_name : Text
  pub scops : List Text
  pub user_key_id : Text
  pub user_private_key : Text
  pub user_passphrase : Text

-- `ProtonAPIService`, whose store is in the state
pub record ProtonApiService (I : Type 0) : Type 0 where
  pub inner : I

-- The store of sessions with its globals, and the global `PROTON_API` with its lock.
pub record ServiceState (C S I : Type 0) : Type 0 where
  pub auth : AuthState C S
  pub proton_api : Option (ProtonApiService I)
  pub poisoned : Bool

abbrev pub bind : {A B : Type 0} → Option A → (A → Option B) → Option B
bind none f = none
bind (some a) f = f a

abbrev pub unwrap : {E A : Type 0} → Result E A → Option A
unwrap (ok a) = some a
unwrap (err e) = none

unfoldable pub service :
    {I : Type 0} → Debug → Result ApiError I → Result BridgeError (ProtonApiService I)
unfolding from_api
service debug (ok inner_api) = ok (record { inner = inner_api })
service debug (err e) = err (from_api debug e)

module _ {C S I : Type 0} where
  unfoldable pub retrieve_proton_api : Exec BridgeError (ServiceState C S I) (ProtonApiService I)
  unfolding from_poison
  retrieve_proton_api s = (
    if s.poisoned
        then err from_poison
        else ok_or s.proton_api (BridgeError.api_lock (codes "PROTON_API api is not set")),
    s,
  )

  unfoldable pub write_proton_api :
      Option (ProtonApiService I) → Exec BridgeError (ServiceState C S I) (Unit {0})
  unfolding from_poison
  write_proton_api service s =
      if s.poisoned then (err from_poison, s) else (ok tt, record s { proton_api = service })

  unfoldable pub set_proton_api :
      ProtonApiService I → Exec BridgeError (ServiceState C S I) (Unit {0})
  unfolding write_proton_api
  set_proton_api inner = write_proton_api (some inner)

  -- `logout` of proton_api.rs
  unfoldable pub clear_proton_api : Exec BridgeError (ServiceState C S I) (Unit {0})
  unfolding write_proton_api
  clear_proton_api = write_proton_api none

module _ {Auth C S I : Type 0} (type : AuthType Auth) (store : WalletAuthStore Auth S) where
  -- `ProtonWalletApiClient::from_config_async` may set sessions. The guard resets the flag on every
  -- way out.
  unfoldable pub new :
      Debug
      → (from_config_async : (env app_version user_agent : Text) → Exec ApiError (AuthState C S) I)
      → (env app_version user_agent : Text)
      → Exec BridgeError (ServiceState C S I) (ProtonApiService I)
  unfolding set_api_client_initializing service
  new debug from_config_async env app_version user_agent s =
      let (r, auth) =
        from_config_async env app_version user_agent
          (set_api_client_initializing type store true s.auth) in
      (service debug r, record s { auth = set_api_client_initializing type store false auth })

  unfoldable pub write_auth : Auth → Exec BridgeError (ServiceState C S I) (Unit {0})
  unfolding from_poison
  write_auth auth s =
      let (r, inner) = store.write_auth auth s.auth.inner in
      (map_err (λ _. from_poison) r, record s { auth = record s.auth { inner = inner } })

  unfoldable pub update_auth :
      (user_id uid access refresh : Text) (scopes : List Text)
      → Exec BridgeError (ServiceState C S I) (Unit {0})
  unfolding write_auth
  update_auth user_id uid access refresh scopes =
      write_auth (type.internal user_id uid access refresh scopes)

  unfoldable pub then_clear :
      Result BridgeError (Unit {0}) → Exec BridgeError (ServiceState C S I) (Unit {0})
  unfolding clear_proton_api
  then_clear (ok done) s = clear_proton_api s
  then_clear (err e) s = (err e, s)

  unfoldable pub logout : Exec BridgeError (ServiceState C S I) (Unit {0})
  unfolding write_auth then_clear
  logout s = let (r, s') = write_auth type.none' s in then_clear r s'

-- the salt of a key, decoded
unfoldable pub raw_salt : Base64 → (key_id : Text) → List LoginSalt → Option Bytes
raw_salt base64 key_id key_salts =
    bind (find (λ key_salt. text_eq key_salt.id key_id) key_salts)
      (λ key_salt. bind key_salt.key_salt (λ encoded_salt. unwrap (base64.decode encoded_salt)))

module _ {Auth : Type 0} (type : AuthType Auth) (utf : Utf8) (base64 : Base64) (debug : Debug)
    (mailbox_password_hash : Text → Bytes → Result Text Bytes) where
  abbrev pub tokens : UserData → LoginKey → (mailboxpwd : Text) → Auth → Option AuthCredential
  tokens user user_key mailboxpwd auth = bind (type.uid auth) (λ session_id.
      bind (type.acc_tok auth) (λ acc_token. bind (type.ref_tok auth) (λ ref_token. some (record {
        session_id = session_id;
        user_id = user.id;
        access_token = acc_token;
        refresh_token = ref_token;
        event_id = [];
        user_mail = user.email;
        user_name = user.name;
        display_name = user.name;
        scops = or_empty (type.scopes auth);
        user_key_id = user_key.id;
        user_private_key = user_key.private_key;
        user_passphrase = mailboxpwd;
      }))))

  unfoldable pub granted :
      Result Text Auth
      → UserData
      → LoginKey
      → Result WalletCryptoError Text
      → Option (Result BridgeError AuthCredential)
  unfolding from_wallet_crypto
  granted auth user user_key (err e) = some (err (from_wallet_crypto debug e))
  granted auth user user_key (ok mailboxpwd) =
      bind (unwrap auth) (λ auth. bind (tokens user user_key mailboxpwd auth) (λ c. some (ok c)))

  -- what follows the answer of the server, with the session in the store
  unfoldable pub credential :
      (password : Text) → UserData → Result Text Auth → Option (Result BridgeError AuthCredential)
  unfolding raw_salt compute_key_password granted
  credential password user auth = bind (first user.keys) (λ user_key.
      bind (raw_salt base64 user_key.id user.key_salts) (λ salt.
        granted auth user user_key (compute_key_password utf mailbox_password_hash password salt)))

  unfoldable pub logged_in :
      {S : Type 0}
      → (read_auth : S → Result Text Auth) (password : Text) → Result Text UserData
      → S
      → Option (Result BridgeError AuthCredential)
  unfolding credential
  logged_in read_auth password (err e) inner = some (err (BridgeError.login e))
  logged_in read_auth password (ok user) inner = credential password user (read_auth inner)

  -- The client sets the session. `read_auth` takes the lock of the store and reads the session.
  unfoldable pub login :
      {C S I : Type 0}
      → (login_client : (username password : Text) → Exec Text (AuthState C S) UserData)
      → (read_auth : S → Result Text Auth) → (username password : Text) → ServiceState C S I
      → Option (Result BridgeError AuthCredential) × ServiceState C S I
  unfolding logged_in
  login login_client read_auth username password s =
      let (r, auth) = login_client username password s.auth in
      (logged_in read_auth password r auth.inner, record s { auth = auth })
