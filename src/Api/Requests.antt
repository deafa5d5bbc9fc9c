-- ===== src/Api/Requests.antt =====
-- The requests for a new wallet and a new account, and their conversions from and to the structs of
-- `andromeda_api`: rust/src/proton_api/wallet.rs and wallet_account.rs.
use flutter_app.Common.{ℕ, ◌≡◌, refl, Option, Text}

pub record CreateWalletReq : Type 0 where
  pub name : Text
  pub is_imported : ℕ
  pub type_ : ℕ
  pub has_passphrase : ℕ
  pub user_key_id : Text
  pub wallet_key : Text
  pub mnemonic : Option Text
  pub public_key : Option Text
  pub fingerprint : Option Text
  pub wallet_key_signature : Text
  pub is_auto_created : ℕ

pub record CreateWalletRequestBody : Type 0 where
  pub name : Text
  pub is_imported : ℕ
  pub type_ : ℕ
  pub has_passphrase : ℕ
  pub user_key_id : Text
  pub wallet_key : Text
  pub mnemonic : Option Text
  pub public_key : Option Text
  pub fingerprint : Option Text
  pub wallet_key_signature : Text
  pub is_auto_created : ℕ

unfoldable pub create_wallet_req : CreateWalletRequestBody → CreateWalletReq
create_wallet_req v = record {
  name = v.name;
  is_imported = v.is_imported;
  type_ = v.type_;
  has_passphrase = v.has_passphrase;
  user_key_id = v.user_key_id;
  wallet_key = v.wallet_key;
  mnemonic = v.mnemonic;
  public_key = v.public_key;
  fingerprint = v.fingerprint;
  wallet_key_signature = v.wallet_key_signature;
  is_auto_created = v.is_auto_created;
}

unfoldable pub create_wallet_request_body : CreateWalletReq → CreateWalletRequestBody
create_wallet_request_body v = record {
  name = v.name;
  is_imported = v.is_imported;
  type_ = v.type_;
  has_passphrase = v.has_passphrase;
  user_key_id = v.user_key_id;
  wallet_key = v.wallet_key;
  mnemonic = v.mnemonic;
  public_key = v.public_key;
  fingerprint = v.fingerprint;
  wallet_key_signature = v.wallet_key_signature;
  is_auto_created = v.is_auto_created;
}

pub record CreateWalletAccountReq : Type 0 where
  pub label : Text
  pub derivation_path : Text
  pub script_type : ℕ

pub record CreateWalletAccountRequestBody : Type 0 where
  pub label : Text
  pub derivation_path : Text
  pub script_type : ℕ

unfoldable pub create_wallet_account_req : CreateWalletAccountRequestBody → CreateWalletAccountReq
create_wallet_account_req v = record {
  label = v.label;
  derivation_path = v.derivation_path;
  script_type = v.script_type;
}

unfoldable pub create_wallet_account_request_body :
    CreateWalletAccountReq → CreateWalletAccountRequestBody
create_wallet_account_request_body v = record {
  label = v.label;
  derivation_path = v.derivation_path;
  script_type = v.script_type;
}

pub create_wallet_req-create_wallet_request_body :
    (v : CreateWalletReq) → create_wallet_req (create_wallet_request_body v) ≡ v
unfolding create_wallet_req create_wallet_request_body
create_wallet_req-create_wallet_request_body v = refl
