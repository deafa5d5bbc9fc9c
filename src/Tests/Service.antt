-- ===== src/Tests/Service.antt =====
-- The API service at work: rust/src/api/api_service/proton_api_service.rs. The login sets a session
-- with the token "t".
use flutter_app.Common.{
  ℕ, ◌≡◌, ◌⊎◌, false, none, some, Option, [], ◌∷◌, ok, err, Exec, Result, Text, codes,
}
use flutter_app.Errors.{ApiError}
use flutter_app.Crypto.{Bytes}
use flutter_app.AuthStore.{AuthState, set_auth}
use flutter_app.Bridge.{from_poison}
use flutter_app.ApiService.{UserData, AuthCredential, ServiceState, logout, retrieve_proton_api}
use flutter_app.ApiService.Lifecycle.{not_set, logout_lem}
use flutter_app.Tests.Sessions.{tokens, one_session, listening}

abbrev ready : ServiceState ℕ (Option Text) ℕ
ready = record { auth = listening; proton_api = some (record { inner = 7 }); poisoned = false }

abbrev from_config :
    (env app_version user_agent : Text) → Exec ApiError (AuthState ℕ (Option Text)) ℕ
unfolding set_auth
from_config env app_version user_agent s =
    (ok 7, (set_auth tokens one_session (some (codes "t")) s).1)

logout_lem_example :
    (((logout tokens one_session ready).0 ≡ ok tt)
      × ((logout tokens one_session ready).1.auth.inner ≡ none)
      × ((retrieve_proton_api (logout tokens one_session ready).1).0 ≡ err not_set))
    ⊎ (((logout tokens one_session ready).0 ≡ err from_poison)
        × ((logout tokens one_session ready).1.proton_api ≡ ready.proton_api))
logout_lem_example = logout_lem tokens one_session ready

abbrev no_user : UserData
no_user = record {
  id = codes "u";
  email = codes "me";
  name = codes "Me";
  keys = [];
  key_salts = [];
}

abbrev user : UserData
user = record no_user {
  keys = record { id = codes "k"; private_key = codes "armored" } ∷ [];
  key_salts = record { id = codes "k"; key_salt = some (codes "salt") } ∷ [];
}

abbrev answer :
    UserData → (username password : Text) → Exec Text (AuthState ℕ (Option Text)) UserData
answer user username password s = (ok user, record s { inner = some (codes "t") })

abbrev read_session : Option Text → Result Text (Option Text)
read_session auth = ok auth

abbrev hash : Text → Bytes → Result Text Bytes
hash password salt = ok (codes "0123456789abcdef0123456789abcde")

abbrev granted : AuthCredential
granted = record {
  session_id = codes "t";
  user_id = codes "u";
  access_token = codes "t";
  refresh_token = codes "t";
  event_id = [];
  user_mail = codes "me";
  user_name = codes "Me";
  display_name = codes "Me";
  scops = [];
  user_key_id = codes "k";
  user_private_key = codes "armored";
  user_passphrase = codes "0123456789abcdef0123456789abcde";
}
