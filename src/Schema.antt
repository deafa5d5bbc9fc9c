-- ===== src/Schema.antt =====
-- rust/src/proton_wallet/db/database/database.rs (the statements that change the schema) and
-- table_names.rs. The connection runs a statement given as text and is a parameter.
pub mod Accounts
pub mod Tables
pub mod Users
use Prim.Native.String.{String}
use flutter_app.Common.{ℕ, List, [], ◌∷◌, ◌++◌, Result, Exec, map_err, Text, codes}
use flutter_app.Errors.{DatabaseError, database}

-- `TableName`
pub data TableName : Type 0 where
  accounts address bitcoin_address contacts exchange_rate proton_user_key proton_user transactions
        wallet_user_settings wallet :
      TableName

unfoldable pub as_str : TableName → Text
as_str accounts = codes "account_table"
as_str address = codes "address_table"
as_str bitcoin_address = codes "bitcoin_address_table"
as_str contacts = codes "contacts_table"
as_str exchange_rate = codes "exchange_rate_table"
as_str proton_user_key = codes "user_keys_table"
as_str proton_user = codes "users_table"
as_str transactions = codes "transaction_table"
as_str wallet_user_settings = codes "wallet_user_settings_table"
as_str wallet = codes "wallet_table"

-- `Connection::execute` of rusqlite on a statement without parameters: the rows changed, or what
-- the error says, and the database afterwards.
pub record Connection (W : Type 0) : Type 0 where
  pub execute : Text → W → Result Text ℕ × W

-- a raw string literal, line by line
abbrev pub lines : List String → Text
lines [] = []
lines (l ∷ ls) = codes l ++ lines ls

-- The statement of a `migration_0`: the name of the table between two literals.
unfoldable pub create_query : Text → TableName → Text
unfolding as_str
create_query columns t = codes "\n            CREATE TABLE IF NOT EXISTS `" ++ (as_str t ++ columns)

module _ {W : Type 0} (conn : Connection W) where
  -- `conn.execute(query, []).map_err(|e| e.into())`
  unfoldable pub run : Text → Exec DatabaseError W ℕ
  run query w = let (r, w') = conn.execute query w in (map_err database r, w')

  unfoldable pub create_table : Text → Exec DatabaseError W ℕ
  unfolding run
  create_table query = run query

  unfoldable pub drop_table : TableName → Exec DatabaseError W ℕ
  unfolding run
  drop_table t = run (codes "DROP TABLE IF EXISTS `" ++ (as_str t ++ codes "`"))

  unfoldable pub add_column : TableName → (column_name column_type : Text) → Exec DatabaseError W ℕ
  unfolding run
  add_column t column_name column_type = run (
      codes "ALTER TABLE "
      ++ (as_str t ++ (codes " ADD COLUMN " ++ (column_name ++ (codes " " ++ column_type)))))

  unfoldable pub add_index : TableName → Text → Exec DatabaseError W ℕ
  unfolding run
  add_index t column_name = run (
      codes "CREATE INDEX IF NOT EXISTS idx_"
      ++ (column_name ++ (codes " ON " ++ (as_str t ++ (codes "(" ++ (column_name ++ codes ")"))))))

  unfoldable pub drop_column : TableName → Text → Exec DatabaseError W ℕ
  unfolding run
  drop_column t column_name =
      run (codes "ALTER TABLE " ++ (as_str t ++ (codes " DROP COLUMN " ++ column_name)))
