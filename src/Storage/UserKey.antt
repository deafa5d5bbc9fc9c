-- ===== src/Storage/UserKey.antt =====
-- rust/src/proton_wallet/storage/user_key.rs and user_key_ext.rs: the default user key and the
-- passphrase kept by the app; and the user keys of rust/src/proton_api/proton_users.rs.
use flutter_app.Common.{
  ℕ, Bool, not, Option, none, some, List, [], ◌∷◌, ok, err, Exec, codes, Text, ◌==◌,
}
use flutter_app.Errors.{WalletStorageError, callback_not_set, ApiError}

-- `ProtonUserKey`
pub record ProtonUserKey : Type 0 where
  pub id : Text
  pub version : ℕ
  pub private_key : Text
  pub recovery_secret : Option Text
  pub recovery_secret_signature : Option Text
  pub token : Option Text
  pub fingerprint : Text
  pub primary : ℕ
  pub active : ℕ

-- `ProtonUsersClientExt::get_user_info`, of which the provider reads `Keys`
pub record ProtonUsersClient (W : Type 0) : Type 0 where
  pub get_user_info_keys : Exec ApiError W (Option (List ProtonUserKey))

-- `LockedKey` of proton-crypto-account, less the fields that are `None` wherever this code makes one
pub record LockedKey : Type 0 where
  pub id : Text
  pub version : ℕ
  pub private_key : Text
  pub token : Option Text
  pub signature : Option Text
  pub flags : Option ℕ
  pub primary : Bool
  pub active : Bool
  pub recovery_secret : Option Text
  pub recovery_secret_signature : Option Text

-- `LockedKey::from` of a `UserKeyWrap`
unfoldable pub user_key_conversion_from_key : ProtonUserKey → LockedKey
user_key_conversion_from_key key = record {
  id = key.id;
  version = key.version;
  private_key = key.private_key;
  token = key.token;
  signature = none;
  flags = none;
  primary = not (key.primary == 0);
  active = not (key.active == 0);
  recovery_secret = key.recovery_secret;
  recovery_secret_signature = key.recovery_secret_signature;
}

-- `Vec::from` of a `UserKeysWrap`
unfoldable pub user_key_conversion_from_keys : List ProtonUserKey → List LockedKey
unfolding user_key_conversion_from_key
user_key_conversion_from_keys [] = []
user_key_conversion_from_keys (key ∷ keys) =
    user_key_conversion_from_key key ∷ user_key_conversion_from_keys keys

-- `UserKeyStore`
pub record UserKeyStore (W : Type 0) : Type 0 where
  pub get_default_user_key : Text → Exec WalletStorageError W LockedKey
  pub get_user_key_passphrase : Text → Exec WalletStorageError W Text

-- `UserKeySecureStore`
pub record UserKeySecureStore (W : Type 0) : Type 0 where
  pub get_default_user_key_callback : Option (Text → W → ProtonUserKey × W)
  pub get_user_key_passphrase_callback : Option (Text → W → Text × W)

module _ {W : Type 0} where
  unfoldable pub new : UserKeySecureStore W
  new = record { get_default_user_key_callback = none; get_user_key_passphrase_callback = none }

  unfoldable pub set_get_default_user_key_callback :
      UserKeySecureStore W → (Text → W → ProtonUserKey × W) → UserKeySecureStore W
  set_get_default_user_key_callback s callback = record s {
    get_default_user_key_callback = some callback;
  }

  unfoldable pub set_get_user_key_passphrase_callback :
      UserKeySecureStore W → (Text → W → Text × W) → UserKeySecureStore W
  set_get_user_key_passphrase_callback s callback = record s {
    get_user_key_passphrase_callback = some callback;
  }

  unfoldable pub clear : UserKeySecureStore W → UserKeySecureStore W
  clear s = record s {
    get_default_user_key_callback = none;
    get_user_key_passphrase_callback = none;
  }

  unfoldable pub get_default_user_key :
      UserKeySecureStore W → Text → Exec WalletStorageError W LockedKey
  unfolding user_key_conversion_from_key
  get_default_user_key s user_id w = elim s.get_default_user_key_callback [
    | some callback ↦
        let (key, w') = callback user_id w in (ok (user_key_conversion_from_key key), w')
    | none ↦ (err (callback_not_set (codes "Get default user")), w)
  ]

  unfoldable pub get_user_key_passphrase :
      UserKeySecureStore W → Text → Exec WalletStorageError W Text
  get_user_key_passphrase s user_id w = elim s.get_user_key_passphrase_callback [
    | some callback ↦ let (passphrase, w') = callback user_id w in (ok passphrase, w')
    | none ↦ (err (callback_not_set (codes "Get user key passphrase")), w)
  ]

  -- the store as the provider sees it
  abbrev pub store : UserKeySecureStore W → UserKeyStore W
  store s = record {
    get_default_user_key = get_default_user_key s;
    get_user_key_passphrase = get_user_key_passphrase s;
  }
