-- ===== src/Db/WalletUserSettings.antt =====
-- rust/src/proton_wallet/db/dao/wallet_user_settings_dao.rs and model/wallet_user_settings_model.rs.
use flutter_app.Common.{
  ℕ, Option, none, ok, err, Exec, fail, ◌>>=◌, ◌==◌, if◌then◌else◌, Text, codes, text_eq,
}
use flutter_app.Errors.{DatabaseError, no_changed_rows}
use flutter_app.Db.Table.{Table}
use flutter_app.Db.Base.{Column, get_by_column_id}
use flutter_app.Db.Dao.{insert_row, execute_update, upsert_by}

-- `WalletUserSettingsModel`; `F` stands for `f64`.
pub record WalletUserSettingsModel (F : Type 0) : Type 0 where
  pub user_id : Text
  pub bitcoin_unit : Text
  pub fiat_currency : Text
  pub hide_empty_used_addresses : ℕ
  pub show_wallet_recovery : ℕ
  pub two_factor_amount_threshold : F
  pub receive_inviter_notification : ℕ
  pub receive_email_integration_notification : ℕ
  pub wallet_created : ℕ
  pub accept_terms_and_conditions : ℕ

abbrev pub user_id_column : {F : Type 0} → Column (WalletUserSettingsModel F)
user_id_column = record { name = codes "user_id"; read = λ r. r.user_id }

module _ {F : Type 0} (table : Table (WalletUserSettingsModel F)) where
  open table use {Store}

  -- an error of the query is logged and counts as no row
  unfoldable pub get : Text → Exec DatabaseError Store (Option (WalletUserSettingsModel F))
  unfolding get_by_column_id
  get user_id s =
      let (r, s') = get_by_column_id table user_id_column user_id s in
      (elim r [ ok user_setting ↦ ok user_setting | err e ↦ ok none ], s')

  unfoldable pub get_by_user_id :
      Text → Exec DatabaseError Store (Option (WalletUserSettingsModel F))
  unfolding get_by_column_id
  get_by_user_id user_id = get_by_column_id table user_id_column user_id

  unfoldable pub insert : WalletUserSettingsModel F → Exec DatabaseError Store ℕ
  unfolding insert_row
  insert item = insert_row table (λ i. item)

  unfoldable pub update :
      WalletUserSettingsModel F → Exec DatabaseError Store (Option (WalletUserSettingsModel F))
  unfolding execute_update
  update item = do
    rows_affected ←
        execute_update table (λ r. text_eq r.user_id item.user_id)
          (λ r. record item { user_id = r.user_id })
    if rows_affected == 0 then fail no_changed_rows else get item.user_id

  unfoldable pub upsert :
      WalletUserSettingsModel F → Exec DatabaseError Store (Option (WalletUserSettingsModel F))
  unfolding upsert_by get_by_user_id update insert
  upsert item = upsert_by table user_id_column item.user_id (update item) (insert item)
