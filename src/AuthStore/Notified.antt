-- ===== src/AuthStore/Notified.antt =====
-- When the app is called, and when not: rust/src/api/api_service/wallet_auth_store.rs.
use flutter_app.Common.{
  ◌≡◌, refl, sym, ap, ◌∙◌, ◌⊎◌, inl, inr, Bool, true, false, not, ◌&&◌, Option, none, some, List,
  [], ◌∷◌, ◌++◌, Result-cases, ok, err, unwrap_or, if◌then◌else◌, Text,
}
use flutter_app.AuthStore.{
  AuthType, WalletAuthStore, AuthState, ChildSession, auth_session_changed, child_session,
  notify_auth_session_changed, refresh_auth_credential, set_auth, logout, spawn,
}

append-nil : {A : Type 0} (xs : List A) → xs ≡ xs ++ []
append-nil [] = refl
append-nil (x ∷ xs) = ap (λ ys. x ∷ ys) (append-nil xs)

module _ {Auth C S : Type 0} (type : AuthType Auth) (store : WalletAuthStore Auth S) where
  -- the session before, as `set_auth` reads it
  abbrev pub previous : AuthState C S → Auth
  previous s = unwrap_or (store.get_auth s.inner) type.none'

  -- the calls that a change of the session to `auth` adds
  abbrev pub calls : Option C → Auth → List (C × ChildSession)
  calls none auth = []
  calls (some callback) auth = (callback, child_session type auth) ∷ []

  spawned-refresh :
      (auth : Auth) (s : AuthState C S)
      → (refresh_auth_credential type store auth s).spawned ≡ s.spawned ++ calls s.callback auth
  unfolding refresh_auth_credential
  spawned-refresh auth s = go s.callback
    where
      go : (o : Option C) → (spawn type store o auth s).spawned ≡ s.spawned ++ calls o auth
      go none = append-nil s.spawned
      go (some callback) = refl

  guards :
      (gone changed early : Bool) (x y : AuthState C S) (l : List (C × ChildSession))
      → y.spawned ≡ l
      → (if gone then x else if not changed then x else if early then x else y).spawned
        ≡ (if not gone && (changed && not early) then l else x.spawned)
  guards true changed early x y l h = refl
  guards false false early x y l h = refl
  guards false true true x y l h = refl
  guards false true false x y l h = h

  notified :
      (before auth : Auth) (s : AuthState C S)
      → (notify_auth_session_changed type store before auth s).spawned ≡ (
          if not (type.is_none auth)
            && (auth_session_changed type before auth && not s.initializing)
          then s.spawned ++ calls s.callback auth
          else s.spawned)
  unfolding notify_auth_session_changed
  notified before auth s =
      guards (type.is_none auth) (auth_session_changed type before auth) s.initializing s
        (refresh_auth_credential type store auth s) _ (spawned-refresh auth s)

  pub set_auth_lem :
      (auth : Auth) (s : AuthState C S)
      → ((e : Text) × ((store.set_auth auth s.inner).0 ≡ err e)
          × ((set_auth type store auth s).0 ≡ err e)
          × ((set_auth type store auth s).1.spawned ≡ s.spawned))
        ⊎ (((set_auth type store auth s).0 ≡ ok tt)
            × ((set_auth type store auth s).1.spawned ≡ (
                if not (type.is_none auth)
                  && (auth_session_changed type (previous s) auth && not s.initializing)
                then s.spawned ++ calls s.callback auth
                else s.spawned)))
  unfolding set_auth
  set_auth_lem auth s = elim (Result-cases (store.set_auth auth s.inner).0) [
    | inl (e, failed) ↦ inl (e, failed, (rw failed refl), (rw failed refl))
    | inr (done, stored) ↦ inr (
      (rw stored refl),
      (rw stored
          (notified (previous s) auth (record s { inner = (store.set_auth auth s.inner).1 }))),
    )
  ]

  -- Any number of sessions set one after the other, their errors dropped.
  abbrev pub set_auths : List Auth → AuthState C S → AuthState C S
  set_auths [] s = s
  set_auths (auth ∷ auths) s = set_auths auths (set_auth type store auth s).1

  callback-refresh :
      (auth : Auth) (s : AuthState C S)
      → (refresh_auth_credential type store auth s).callback ≡ s.callback
  unfolding refresh_auth_credential
  callback-refresh auth s = go s.callback
    where
      go : (o : Option C) → (spawn type store o auth s).callback ≡ s.callback
      go none = refl
      go (some callback) = refl

  guards-keep :
      (P : AuthState C S → Type 0) (gone changed early : Bool) (x y : AuthState C S)
      → P x
      → P y
      → P (if gone then x else if not changed then x else if early then x else y)
  guards-keep P true changed early x y h k = h
  guards-keep P false false early x y h k = h
  guards-keep P false true true x y h k = h
  guards-keep P false true false x y h k = k

  callback-notify :
      (before auth : Auth) (s : AuthState C S)
      → (notify_auth_session_changed type store before auth s).callback ≡ s.callback
  unfolding notify_auth_session_changed
  callback-notify before auth s =
      guards-keep (λ z. z.callback ≡ s.callback) (type.is_none auth)
        (auth_session_changed type before auth) s.initializing s
        (refresh_auth_credential type store auth s) refl (callback-refresh auth s)

  callback-set_auth :
      (auth : Auth) (s : AuthState C S) → (set_auth type store auth s).1.callback ≡ s.callback
  unfolding set_auth
  callback-set_auth auth s = elim (Result-cases (store.set_auth auth s.inner).0) [
    | inl (e, failed) ↦ rw failed refl
    | inr (done, stored) ↦
        rw stored
          (callback-notify (previous s) auth (record s { inner = (store.set_auth auth s.inner).1 }))
  ]

  initializing-refresh :
      (auth : Auth) (s : AuthState C S)
      → (refresh_auth_credential type store auth s).initializing ≡ s.initializing
  unfolding refresh_auth_credential
  initializing-refresh auth s = go s.callback
    where
      go : (o : Option C) → (spawn type store o auth s).initializing ≡ s.initializing
      go none = refl
      go (some callback) = refl

  initializing-set_auth :
      (auth : Auth) (s : AuthState C S)
      → (set_auth type store auth s).1.initializing ≡ s.initializing
  unfolding set_auth notify_auth_session_changed
  initializing-set_auth auth s =
      let s1 : AuthState C S = record s { inner = (store.set_auth auth s.inner).1 } in
      elim (Result-cases (store.set_auth auth s.inner).0) [
        | inl (e, failed) ↦ rw failed refl
        | inr (done, stored) ↦ rw stored (
            guards-keep (λ z. z.initializing ≡ s.initializing) (type.is_none auth)
              (auth_session_changed type (previous s) auth) s.initializing s1
              (refresh_auth_credential type store auth s1) refl (initializing-refresh auth s1))
      ]

  early-added :
      (gone changed early : Bool) (o : Option C) (auth : Auth) (l : List (C × ChildSession))
      → early ≡ true
      → (if not gone && (changed && not early) then l ++ calls o auth else l) ≡ l
  early-added gone changed false o auth l h = cc
  early-added true changed true o auth l h = refl
  early-added false true true o auth l h = refl
  early-added false false true o auth l h = refl

  -- While the API client is initializing, sessions that are set spawn no call and leave the flag.
  pub set_auths-initializing :
      (auths : List Auth) (s : AuthState C S)
      → s.initializing ≡ true
      → ((set_auths auths s).spawned ≡ s.spawned) × ((set_auths auths s).initializing ≡ true)
  set_auths-initializing [] s h = (refl, h)
  set_auths-initializing (auth ∷ auths) s h =
      let (quiet, flag) =
        set_auths-initializing auths (set_auth type store auth s).1
          (initializing-set_auth auth s ∙ h) in
      elim (set_auth_lem auth s) [
        | inl (e, _, _, same) ↦ (quiet ∙ same, flag)
        | inr (_, same) ↦ (
          quiet
              ∙ same
              ∙ early-added (type.is_none auth) (auth_session_changed type (previous s) auth)
                  s.initializing s.callback auth s.spawned h,
          flag,
        )
      ]

  none_added :
      (b : Bool) (o : Option C) (auth : Auth) (l : List (C × ChildSession))
      → o ≡ none
      → (if b then l ++ calls o auth else l) ≡ l
  none_added true none auth l h = sym (append-nil l)
  none_added true (some callback) auth l h = cc
  none_added false o auth l h = refl

  spawned-silent :
      (auth : Auth) (s : AuthState C S)
      → s.callback ≡ none
      → (set_auth type store auth s).1.spawned ≡ s.spawned
  spawned-silent auth s h = elim (set_auth_lem auth s) [
    | inl (e, _, _, same) ↦ same
    | inr (_, same) ↦
        same
        ∙ none_added
            (not (type.is_none auth)
              && (auth_session_changed type (previous s) auth && not s.initializing))
            s.callback auth s.spawned h
  ]

  silent :
      (auths : List Auth) (s : AuthState C S)
      → s.callback ≡ none
      → (set_auths auths s).spawned ≡ s.spawned
  silent [] s h = refl
  silent (auth ∷ auths) s h =
      silent auths (set_auth type store auth s).1 (callback-set_auth auth s ∙ h)
      ∙ spawned-silent auth s h

  -- After a logout, whether or not the session could be cleared, no call is spawned, whatever
  -- sessions are set, until a callback is set again.
  pub logout-silent :
      (auths : List Auth) (s : AuthState C S)
      → (set_auths auths (logout type store s).1).spawned ≡ s.spawned
  unfolding logout
  logout-silent auths s = silent auths (logout type store s).1 refl
