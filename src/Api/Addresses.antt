-- ===== src/Api/Addresses.antt =====
-- The mail addresses of the user and their keys: rust/src/proton_api/proton_address.rs.
use flutter_app.Common.{ℕ, Option, List, Text}
use flutter_app.Storage.AddressKey.{ProtonAddressKey}
use flutter_app.Api.Records.{map_some, collect}

pub record AllKeyAddressKey : Type 0 where
  pub flags : ℕ
  pub public_key : Text
  pub source : ℕ

pub record ApiAllKeyAddressKey : Type 0 where
  pub flags : ℕ
  pub public_key : Text
  pub source : ℕ

unfoldable pub all_key_address_key : ApiAllKeyAddressKey → AllKeyAddressKey
all_key_address_key v = record { flags = v.flags; public_key = v.public_key; source = v.source }

pub record ApiProtonAddressKey : Type 0 where
  pub id : Text
  pub version : ℕ
  pub public_key : Text
  pub private_key : Option Text
  pub token : Option Text
  pub signature : Option Text
  pub primary : ℕ
  pub active : ℕ
  pub flags : ℕ

unfoldable pub proton_address_key : ApiProtonAddressKey → ProtonAddressKey
proton_address_key v = record {
  id = v.id;
  version = v.version;
  public_key = v.public_key;
  private_key = v.private_key;
  token = v.token;
  signature = v.signature;
  primary = v.primary;
  active = v.active;
  flags = v.flags;
}

pub record ProtonAddress : Type 0 where
  pub id : Text
  pub domain_id : Option Text
  pub email : Text
  pub status : ℕ
  pub type_ : ℕ
  pub receive : ℕ
  pub send : ℕ
  pub display_name : Text
  pub keys : Option (List ProtonAddressKey)

pub record ApiProtonAddress : Type 0 where
  pub id : Text
  pub domain_id : Option Text
  pub email : Text
  pub status : ℕ
  pub type_ : ℕ
  pub receive : ℕ
  pub send : ℕ
  pub display_name : Text
  pub keys : Option (List ApiProtonAddressKey)

unfoldable pub proton_address : ApiProtonAddress → ProtonAddress
unfolding proton_address_key
proton_address v = record {
  id = v.id;
  domain_id = v.domain_id;
  email = v.email;
  status = v.status;
  type_ = v.type_;
  receive = v.receive;
  send = v.send;
  display_name = v.display_name;
  keys = map_some (collect proton_address_key) v.keys;
}
