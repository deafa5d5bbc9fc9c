-- ===== src/AuthStore.antt =====
-- rust/src/api/api_service/wallet_auth_store.rs: the session of the user, and the call into the app
-- when its tokens change. The global callback and the flag are parts of the state.
pub mod Notified
use flutter_app.Common.{
  ◌≡◌, Bool, true, false, not, ◌&&◌, ◌||◌, Option, none, some, List, [], ◌∷◌, ◌++◌, Result, ok, err,
  unwrap_or, Exec, if◌then◌else◌, Text, text_eq,
}

-- What the store uses of `Auth`.
pub record AuthType (Auth : Type 0) : Type 0 where
  pub none' : Auth
  pub internal : (user_id uid access refresh : Text) (scopes : List Text) → Auth
  pub is_none : Auth → Bool
  pub uid : Auth → Option Text
  pub acc_tok : Auth → Option Text
  pub ref_tok : Auth → Option Text
  pub scopes : Auth → Option (List Text)
  pub is_none-none' : is_none none' ≡ true

-- `ChildSession`
pub record ChildSession : Type 0 where
  pub scopes : List Text
  pub session_id : Text
  pub access_token : Text
  pub refresh_token : Text

-- `WalletAuthStore`, whose state is `S`: the calls of `Store`, whose map
-- from `()` has one entry or none, and a write under the lock of `auth`.
pub record WalletAuthStore (Auth S : Type 0) : Type 0 where
  pub get_auth : S → Result Text Auth
  pub set_auth : Auth → Exec Text S (Unit {0})
  pub remove_auth : Exec Text S (Option Auth)
  pub set_all_auth : Option Auth → Exec Text S (Unit {0})
  pub remove_all_auth : Exec Text S (Unit {0})
  pub write_auth : Auth → Exec Text S (Unit {0})

-- The inner store, the callback, the flag, and the calls of the callback that were spawned.
pub record AuthState (C S : Type 0) : Type 0 where
  pub inner : S
  pub callback : Option C
  pub initializing : Bool
  pub spawned : List (C × ChildSession)

unfoldable pub list_eq : List Text → List Text → Bool
list_eq [] [] = true
list_eq [] (y ∷ ys) = false
list_eq (x ∷ xs) [] = false
list_eq (x ∷ xs) (y ∷ ys) = text_eq x y && list_eq xs ys

abbrev pub option_eq : {A : Type 0} → (A → A → Bool) → Option A → Option A → Bool
option_eq eq none none = true
option_eq eq none (some b) = false
option_eq eq (some a) none = false
option_eq eq (some a) (some b) = eq a b

abbrev pub or_empty : {A : Type 0} → Option (List A) → List A
or_empty none = []
or_empty (some xs) = xs

module _ {Auth : Type 0} (type : AuthType Auth) where
  unfoldable pub auth_session_changed : (previous updated : Auth) → Bool
  unfolding list_eq
  auth_session_changed previous updated =
      if type.is_none updated
      then false
      else (not (option_eq text_eq (type.uid previous) (type.uid updated))
          || (not (option_eq text_eq (type.acc_tok previous) (type.acc_tok updated))
              || (not (option_eq text_eq (type.ref_tok previous) (type.ref_tok updated))
                  || not (option_eq list_eq (type.scopes previous) (type.scopes updated)))))

  -- the session that the callback gets
  unfoldable pub child_session : Auth → ChildSession
  child_session auth = record {
    scopes = or_empty (type.scopes auth);
    session_id = or_empty (type.uid auth);
    access_token = or_empty (type.acc_tok auth);
    refresh_token = or_empty (type.ref_tok auth);
  }

module _ {Auth C S : Type 0} (type : AuthType Auth) (store : WalletAuthStore Auth S) where
  abbrev spawn : Option C → Auth → AuthState C S → AuthState C S
  spawn none auth s = s
  spawn (some callback) auth s = record s {
    spawned = s.spawned ++ (callback, child_session type auth) ∷ [];
  }

  -- It schedules the call and does not wait for it.
  unfoldable pub refresh_auth_credential : Auth → AuthState C S → AuthState C S
  unfolding child_session
  refresh_auth_credential auth s = spawn s.callback auth s

  unfoldable pub notify_auth_session_changed :
      (previous updated : Auth) → AuthState C S → AuthState C S
  unfolding auth_session_changed refresh_auth_credential
  notify_auth_session_changed previous updated s =
      if type.is_none updated
      then s
      else if not (auth_session_changed type previous updated)
      then s
      else if s.initializing
      then s
      else refresh_auth_credential updated s

  abbrev then_notify :
      Result Text (Unit {0})
      → (previous updated : Auth) → AuthState C S
      → Result Text (Unit {0}) × AuthState C S
  then_notify (ok done) previous updated s = (ok tt, notify_auth_session_changed previous updated s)
  then_notify (err e) previous updated s = (err e, s)

  -- `CallbackWalletAuthStore::set_auth`
  unfoldable pub set_auth : Auth → Exec Text (AuthState C S) (Unit {0})
  unfolding notify_auth_session_changed
  set_auth auth s =
      let previous = unwrap_or (store.get_auth s.inner) type.none' in
      let (r, inner') = store.set_auth auth s.inner in
      then_notify r previous auth (record s { inner = inner' })

  -- `CallbackWalletAuthStore::set_all_auth`
  unfoldable pub set_all_auth : Option Auth → Exec Text (AuthState C S) (Unit {0})
  unfolding notify_auth_session_changed
  set_all_auth auth s =
      let previous = unwrap_or (store.get_auth s.inner) type.none' in
      let (r, inner') = store.set_all_auth auth s.inner in
      elim auth [
        | none ↦ (r, record s { inner = inner' })
        | some updated ↦ then_notify r previous updated (record s { inner = inner' })
      ]

  unfoldable pub remove_all_auth : Exec Text (AuthState C S) (Unit {0})
  remove_all_auth s =
      let (r, inner') = store.remove_all_auth s.inner in (r, record s { inner = inner' })

  unfoldable pub remove_auth : Exec Text (AuthState C S) (Option Auth)
  remove_auth s = let (r, inner') = store.remove_auth s.inner in (r, record s { inner = inner' })

  -- `ProtonWalletAuthStore::set_auth_sync`
  unfoldable pub set_auth_sync :
      (user_id uid access refresh : Text) (scopes : List Text)
      → Exec Text (AuthState C S) (Unit {0})
  set_auth_sync user_id uid access refresh scopes s =
      let (r, inner') =
        store.write_auth (type.internal user_id uid access refresh scopes) s.inner in
      (r, record s { inner = inner' })

  unfoldable pub set_auth_dart_callback : C → AuthState C S → AuthState C S
  set_auth_dart_callback callback s = record s { callback = some callback }

  unfoldable pub clear_auth_dart_callback : AuthState C S → AuthState C S
  clear_auth_dart_callback s = record s { callback = none }

  unfoldable pub set_api_client_initializing : Bool → AuthState C S → AuthState C S
  set_api_client_initializing initializing s = record s { initializing = initializing }

  unfoldable pub logout : Exec Text (AuthState C S) (Unit {0})
  logout s =
      let (r, inner') = store.write_auth type.none' s.inner in
      (r, record s { inner = inner'; callback = none })
