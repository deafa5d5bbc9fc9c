-- ===== src/Api/Records.antt =====
-- The records that the app sees of the API, and the conversions from and to the structs of
-- `andromeda_api`: rust/src/proton_api/wallet.rs, exchange_rate.rs and wallet_account.rs. The enumerations of currencies and units are parameters.
use flutter_app.Common.{ℕ, ◌≡◌, refl, Option, none, some, List, [], ◌∷◌, Text}

-- `Option::map`, and `into_iter().map(..).collect()`
abbrev pub map_some : {A B : Type 0} → (A → B) → Option A → Option B
map_some f none = none
map_some f (some a) = some (f a)

abbrev pub collect : {A B : Type 0} → (A → B) → List A → List B
collect f [] = []
collect f (x ∷ xs) = f x ∷ collect f xs

-- `TransactionType`
pub data TransactionType : Type 0 where
  not_send proton_to_proton_send proton_to_proton_receive external_send external_receive
        unsupported :
      TransactionType

pub record ProtonExchangeRate (U C : Type 0) : Type 0 where
  pub id : Text
  pub bitcoin_unit : U
  pub fiat_currency : C
  pub exchange_rate_time : Text
  pub exchange_rate : ℕ
  pub cents : ℕ

-- `ApiExchangeRate`, `ApiWalletTransaction` and the others are the structs of `andromeda_api`.
pub record ApiExchangeRate (U C : Type 0) : Type 0 where
  pub id : Text
  pub bitcoin_unit : U
  pub fiat_currency : C
  pub exchange_rate_time : Text
  pub exchange_rate : ℕ
  pub cents : ℕ
  pub sign : Option Text

unfoldable pub proton_exchange_rate : {U C : Type 0} → ApiExchangeRate U C → ProtonExchangeRate U C
proton_exchange_rate v = record {
  id = v.id;
  bitcoin_unit = v.bitcoin_unit;
  fiat_currency = v.fiat_currency;
  exchange_rate_time = v.exchange_rate_time;
  exchange_rate = v.exchange_rate;
  cents = v.cents;
}

unfoldable pub api_exchange_rate : {U C : Type 0} → ProtonExchangeRate U C → ApiExchangeRate U C
api_exchange_rate v = record {
  id = v.id;
  bitcoin_unit = v.bitcoin_unit;
  fiat_currency = v.fiat_currency;
  exchange_rate_time = v.exchange_rate_time;
  exchange_rate = v.exchange_rate;
  cents = v.cents;
  sign = none;
}

pub record WalletTransaction (U C : Type 0) : Type 0 where
  pub id : Text
  pub type_ : Option TransactionType
  pub wallet_id : Text
  pub wallet_account_id : Option Text
  pub label : Option Text
  pub transaction_id : Text
  pub transaction_time : Text
  pub is_suspicious : ℕ
  pub is_private : ℕ
  pub is_anonymous : Option ℕ
  pub exchange_rate : Option (ProtonExchangeRate U C)
  pub hashed_transaction_id : Option Text
  pub subject : Option Text
  pub body : Option Text
  pub sender : Option Text
  pub tolist : Option Text

pub record ApiWalletTransaction (U C : Type 0) : Type 0 where
  pub id : Text
  pub type_ : Option TransactionType
  pub wallet_id : Text
  pub wallet_account_id : Option Text
  pub label : Option Text
  pub transaction_id : Text
  pub transaction_time : Text
  pub is_suspicious : ℕ
  pub is_private : ℕ
  pub is_anonymous : Option ℕ
  pub exchange_rate : Option (ApiExchangeRate U C)
  pub hashed_transaction_id : Option Text
  pub subject : Option Text
  pub body : Option Text
  pub sender : Option Text
  pub tolist : Option Text

unfoldable pub wallet_transaction :
    {U C : Type 0} → ApiWalletTransaction U C → WalletTransaction U C
unfolding proton_exchange_rate
wallet_transaction v = record {
  id = v.id;
  type_ = v.type_;
  wallet_id = v.wallet_id;
  wallet_account_id = v.wallet_account_id;
  label = v.label;
  transaction_id = v.transaction_id;
  transaction_time = v.transaction_time;
  is_suspicious = v.is_suspicious;
  is_private = v.is_private;
  is_anonymous = v.is_anonymous;
  exchange_rate = map_some proton_exchange_rate v.exchange_rate;
  hashed_transaction_id = v.hashed_transaction_id;
  subject = v.subject;
  body = v.body;
  sender = v.sender;
  tolist = v.tolist;
}

pub record EmailIntegrationBitcoinAddress : Type 0 where
  pub bitcoin_address : Option Text
  pub bitcoin_address_signature : Option Text

pub record ApiWalletBitcoinAddressLookup : Type 0 where
  pub bitcoin_address : Option Text
  pub bitcoin_address_signature : Option Text

unfoldable pub email_integration_bitcoin_address :
    ApiWalletBitcoinAddressLookup → EmailIntegrationBitcoinAddress
email_integration_bitcoin_address v = record {
  bitcoin_address = v.bitcoin_address;
  bitcoin_address_signature = v.bitcoin_address_signature;
}

pub record BitcoinAddress : Type 0 where
  pub bitcoin_address : Text
  pub bitcoin_address_signature : Text
  pub bitcoin_address_index : ℕ

pub record ApiBitcoinAddressCreationPayload : Type 0 where
  pub bitcoin_address : Text
  pub bitcoin_address_signature : Text
  pub bitcoin_address_index : ℕ

unfoldable pub bitcoin_address : ApiBitcoinAddressCreationPayload → BitcoinAddress
bitcoin_address v = record {
  bitcoin_address = v.bitcoin_address;
  bitcoin_address_signature = v.bitcoin_address_signature;
  bitcoin_address_index = v.bitcoin_address_index;
}

unfoldable pub api_bitcoin_address : BitcoinAddress → ApiBitcoinAddressCreationPayload
api_bitcoin_address v = record {
  bitcoin_address = v.bitcoin_address;
  bitcoin_address_signature = v.bitcoin_address_signature;
  bitcoin_address_index = v.bitcoin_address_index;
}

-- The rate that is sent back to the API has lost its sign.
pub api_exchange_rate-proton_exchange_rate :
    {U C : Type 0} (v : ApiExchangeRate U C)
    → api_exchange_rate (proton_exchange_rate v) ≡ record v { sign = none }
unfolding api_exchange_rate proton_exchange_rate
api_exchange_rate-proton_exchange_rate v = refl
