-- ===== src/Silver/Transform.antt =====
-- transformations/silver/customers.py and sales.py, and `transform` and `transform_history` of
-- pipelines/build_silver.py.
use azure_lakehouse_pipeline.Upsert.Table.{insert_name}
use azure_lakehouse_pipeline.Silver.{
  SparkFunctions, sales_tables, customer_tables, text_columns, lower_columns, upper_columns,
}
use azure_lakehouse_pipeline.Prelude.{List, String, ◌∷◌, Bool, if◌then◌else◌, [], str_eq, not}
use azure_lakehouse_pipeline.Silver.Columns.{
  clean_text, normalize_lower, normalize_upper, normalize_phone,
}
use azure_lakehouse_pipeline.Silver.Common.{current_state, change_history}
use azure_lakehouse_pipeline.Contracts.Silver.{SilverTableContract}
use azure_lakehouse_pipeline.Upsert.{Frame}
use azure_lakehouse_pipeline.Dict.{member}
use azure_lakehouse_pipeline.Result.{Result, raise, ◌>>◌, value_error, raise_if, ◌>>=◌, ok}

-- `sorted(names & set(columns))`.
unfoldable pub sorted_common : List String → List String → List String
unfolding insert_name
sorted_common [] columns = []
sorted_common (name ∷ names) columns =
    let rest = sorted_common names columns in
    if member name columns then insert_name name rest else rest

abbrev pub supports_customer_table : String → Bool
supports_customer_table table_name = member table_name customer_tables

abbrev pub supports_sales_table : String → Bool
supports_sales_table table_name = member table_name sales_tables

abbrev pub user_text_columns : List String
user_text_columns = "username" ∷ "email" ∷ "first_name" ∷ "last_name" ∷ "phone_number" ∷ []

abbrev pub address_text_columns : List String
address_text_columns =
    "address_type" ∷ "recipient_name" ∷ "phone_number" ∷ "street" ∷ "ward" ∷ "district" ∷ "city"
    ∷ "state" ∷ "postal_code" ∷ "country" ∷ []

module _ (spark : SparkFunctions) where
  -- What both functions of customers.py do with the rows, and both of sales.py.
  unfoldable pub clean_customer : SilverTableContract → Frame → Frame
  unfolding clean_text normalize_lower normalize_phone
  clean_customer contract df =
      if str_eq contract.table_name "app_users"
      then normalize_phone (
          normalize_lower spark ("username" ∷ "email" ∷ "status" ∷ [])
            (clean_text spark user_text_columns df))
      else normalize_phone
          (normalize_lower spark ("address_type" ∷ []) (clean_text spark address_text_columns df))

  unfoldable pub clean_sales : Frame → Frame
  unfolding clean_text normalize_lower normalize_upper sorted_common
  clean_sales df =
      let texts = clean_text spark (sorted_common text_columns df.columns) df in
      let lowered = normalize_lower spark (sorted_common lower_columns texts.columns) texts in
      normalize_upper spark (sorted_common upper_columns lowered.columns) lowered

  unfoldable pub transform_customer_table : Frame → SilverTableContract → Result Frame
  unfolding clean_customer current_state
  transform_customer_table df contract = do
    raise_if (not (supports_customer_table contract.table_name))
        (value_error "Unsupported customer silver table")
    current ← current_state spark df contract
    ok (clean_customer contract current)

  unfoldable pub transform_customer_history : Frame → SilverTableContract → Result Frame
  unfolding clean_customer change_history
  transform_customer_history df contract = do
    raise_if (not (supports_customer_table contract.table_name))
        (value_error "Unsupported customer silver history table")
    history ← change_history spark df contract
    ok (clean_customer contract history)

  unfoldable pub transform_sales_table : Frame → SilverTableContract → Result Frame
  unfolding clean_sales current_state
  transform_sales_table df contract = do
    raise_if (not (supports_sales_table contract.table_name))
        (value_error "Unsupported sales silver table")
    current ← current_state spark df contract
    ok (clean_sales current)

  unfoldable pub transform_sales_history : Frame → SilverTableContract → Result Frame
  unfolding clean_sales change_history
  transform_sales_history df contract = do
    raise_if (not (supports_sales_table contract.table_name))
        (value_error "Unsupported sales silver history table")
    history ← change_history spark df contract
    ok (clean_sales history)

  unfoldable pub transform : SilverTableContract → Frame → Result Frame
  unfolding transform_customer_table transform_sales_table
  transform contract df =
      if supports_customer_table contract.table_name
      then transform_customer_table df contract
      else if supports_sales_table contract.table_name
      then transform_sales_table df contract
      else raise (value_error "Missing silver transformation")

  unfoldable pub transform_history : SilverTableContract → Frame → Result Frame
  unfolding transform_customer_history transform_sales_history
  transform_history contract df =
      if supports_customer_table contract.table_name
      then transform_customer_history df contract
      else if supports_sales_table contract.table_name
      then transform_sales_history df contract
      else raise (value_error "Missing silver history transformation")
