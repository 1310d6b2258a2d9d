-- ===== src/Silver.antt =====
-- transformations/silver/common.py, customers.py and sales.py, and pipelines/build_silver.py.
pub mod Columns
pub mod Common
pub mod Transform
pub mod Builder
pub mod Run
pub mod Outcomes
pub mod Progress
pub mod Consumed
pub mod Branches
pub mod Covers
pub mod Rerun
pub mod Retry
mod Tests
use Prim.Native.String.{◌++◌ as append_text}
use azure_lakehouse_pipeline.Prelude.{ℕ, String, List, ◌∷◌, ◌++◌, []}
use azure_lakehouse_pipeline.Upsert.{Cell}

-- The functions of Spark SQL that the transformations call on values and texts.
pub record SparkFunctions : Type 0 where
  pub cast : String → Cell → Cell
  pub trim : String → String
  pub lower : String → String
  pub upper : String → String
  pub sha2 : List Cell → Cell
  pub current_timestamp : Cell

abbrev pub silver_schema_version : ℕ
silver_schema_version = 2

-- `_change_history` after the name of a table.
abbrev pub silver_change_history_table_name : String → String
silver_change_history_table_name table_name = append_text table_name "_change_history"

abbrev pub silver_sequence_columns : List String
silver_sequence_columns =
    "_event_occurred_at" ∷ "_ingestion_priority" ∷ "_source_event_sequence"
    ∷ "_source_event_subsequence" ∷ []

abbrev pub decimal_columns : List String
decimal_columns =
    "unit_price" ∷ "compare_at_price" ∷ "discount_value" ∷ "max_discount_amount"
    ∷ "minimum_order_amount" ∷ "subtotal_amount" ∷ "shipping_amount" ∷ "tax_amount"
    ∷ "discount_amount" ∷ "total_amount" ∷ "item_subtotal" ∷ "item_total" ∷ "amount" ∷ []

abbrev pub integer_columns : List String
integer_columns = "quantity" ∷ "stock_quantity" ∷ "reserved_quantity" ∷ []

abbrev pub timestamp_columns : List String
timestamp_columns =
    "created_at" ∷ "updated_at" ∷ "last_login" ∷ "starts_at" ∷ "ends_at" ∷ "paid_at" ∷ "shipped_at"
    ∷ "delivered_at" ∷ []

abbrev pub customer_tables : List String
customer_tables = "app_users" ∷ "user_addresses" ∷ []

abbrev pub sales_tables : List String
sales_tables =
    "shops" ∷ "categories" ∷ "products" ∷ "product_variants" ∷ "vouchers" ∷ "orders" ∷ "order_items"
    ∷ "order_vouchers" ∷ "payments" ∷ "shipments" ∷ []

abbrev pub text_columns : List String
text_columns =
    "shop_name" ∷ "shop_slug" ∷ "category_name" ∷ "slug" ∷ "product_sku" ∷ "product_slug"
    ∷ "product_name" ∷ "brand" ∷ "variant_sku" ∷ "variant_name" ∷ "voucher_code" ∷ "voucher_name"
    ∷ "order_number" ∷ "product_name_snapshot" ∷ "product_sku_snapshot" ∷ "variant_name_snapshot"
    ∷ "variant_sku_snapshot" ∷ "payment_method" ∷ "carrier" ∷ "tracking_number" ∷ []

abbrev pub lower_columns : List String
lower_columns =
    "status" ∷ "order_status" ∷ "payment_status" ∷ "shipment_status" ∷ "discount_type"
    ∷ "payment_method" ∷ []

abbrev pub upper_columns : List String
upper_columns =
    "currency" ∷ "product_sku" ∷ "variant_sku" ∷ "voucher_code" ∷ "product_sku_snapshot"
    ∷ "variant_sku_snapshot" ∷ []
