-- ===== src/Storage/AddressKey.antt =====
-- rust/src/proton_wallet/storage/address_key_ext.rs: the keys of an address as locked keys; and
-- `ProtonAddressKey` of rust/src/proton_api/proton_address.rs.
use flutter_app.Common.{ℕ, not, Option, none, some, List, [], ◌∷◌, Text, ◌==◌}
use flutter_app.Storage.UserKey.{LockedKey}

-- `ProtonAddressKey`
pub record ProtonAddressKey : Type 0 where
  pub id : Text
  pub version : ℕ
  pub public_key : Text
  pub private_key : Option Text
  pub token : Option Text
  pub signature : Option Text
  pub primary : ℕ
  pub active : ℕ
  pub flags : ℕ

-- `Option::unwrap_or_default` on a text
abbrev pub or_default : Option Text → Text
or_default none = []
or_default (some s) = s

-- `LockedKey::from` of an `AddressKeyWrap`
unfoldable pub address_key_conversion : ProtonAddressKey → LockedKey
address_key_conversion key = record {
  id = key.id;
  version = key.version;
  private_key = or_default key.private_key;
  token = key.token;
  signature = key.signature;
  flags = some key.flags;
  primary = not (key.primary == 0);
  active = not (key.active == 0);
  recovery_secret = none;
  recovery_secret_signature = none;
}

-- `Vec::from` of an `AddressKeysWrap`
unfoldable pub address_key_conversions : List ProtonAddressKey → List LockedKey
unfolding address_key_conversion
address_key_conversions [] = []
address_key_conversions (key ∷ keys) = address_key_conversion key ∷ address_key_conversions keys
