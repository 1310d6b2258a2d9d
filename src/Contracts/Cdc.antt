-- ===== src/Contracts/Cdc.antt =====
-- contracts/cdc_tables.py and contracts/cdc_routing.py: the typed CDC contract of each source table,
-- and the topic that its events go to.
use azure_lakehouse_pipeline.Prelude.{
  String, List, [], ◌∷◌, ℕ, Bool, if◌then◌else◌, str_eq, true, false, ◌&&◌, ◌==◌, ◌||◌, not, none,
  some, ◌++◌,
}
use azure_lakehouse_pipeline.Dict.{Dict, get, member, keys, same_set}
use azure_lakehouse_pipeline.Result.{
  Result, raise, value_error, ok, ◌>>=◌, ◌>>◌, key_error, raise_if, runtime_error, traverse, index,
}
use azure_lakehouse_pipeline.Contracts.Bronze.{BronzeTableContract, bronze_tables}
use mathlib.Core.List.{reverse}
use azure_lakehouse_pipeline.Contracts.Silver.{silver_tables}
use Prim.Native.Char.{code}
use Prim.Native.String.{◌++◌ as ◌<>◌}

abbrev pub bronze_only_columns : Dict (List String)
bronze_only_columns =
    ("app_users", [])
    ∷ ("user_addresses", "is_default_shipping" ∷ "is_default_billing" ∷ [])
    ∷ ("shops", "description" ∷ "logo_url" ∷ [])
    ∷ ("categories", "description" ∷ [])
    ∷ ("products", "short_description" ∷ "description" ∷ [])
    ∷ ("product_variants", "dimensions_json" ∷ [])
    ∷ ("vouchers", "description" ∷ "usage_limit" ∷ "used_count" ∷ [])
    ∷ ("orders", "customer_note" ∷ [])
    ∷ ("order_items", [])
    ∷ ("order_vouchers", [])
    ∷ ("payments", "transaction_reference" ∷ [])
    ∷ ("shipments", "shipping_address_snapshot" ∷ [])
    ∷ []

abbrev decimal_columns : List String
decimal_columns =
    "unit_price" ∷ "compare_at_price" ∷ "discount_value" ∷ "max_discount_amount"
    ∷ "minimum_order_amount" ∷ "subtotal_amount" ∷ "shipping_amount" ∷ "tax_amount"
    ∷ "discount_amount" ∷ "total_amount" ∷ "item_subtotal" ∷ "item_total" ∷ "amount" ∷ []

abbrev integer_columns : List String
integer_columns =
    "quantity" ∷ "stock_quantity" ∷ "reserved_quantity" ∷ "usage_limit" ∷ "used_count" ∷ []

abbrev timestamp_columns : List String
timestamp_columns =
    "created_at" ∷ "updated_at" ∷ "last_login" ∷ "starts_at" ∷ "ends_at" ∷ "paid_at" ∷ "shipped_at"
    ∷ "delivered_at" ∷ []

-- The types of pyspark.sql.types that the source uses.
pub data DataType : Type 0 where
  decimal : ℕ → ℕ → DataType
  integer timestamp boolean string : DataType

-- The code points of a text.
abbrev codes : String → List ℕ
codes String.[] = []
codes (String.◌∷◌ c s) = code c ∷ codes s

abbrev is_prefix : List ℕ → List ℕ → Bool
is_prefix [] t = true
is_prefix (c ∷ s) [] = false
is_prefix (c ∷ s) (d ∷ t) = c == d && is_prefix s t

abbrev pub starts_with : String → String → Bool
starts_with s prefix = is_prefix (codes prefix) (codes s)

abbrev pub ends_with : String → String → Bool
ends_with s suffix = is_prefix (reverse (codes suffix)) (reverse (codes s))

unfoldable pub source_data_type : String → DataType
source_data_type column =
    if str_eq column "weight_kg"
    then decimal 8 3
    else if member column decimal_columns
    then decimal 12 2
    else if member column integer_columns
        || (ends_with column "_id" && not (starts_with column "public_"))
    then integer
    else if member column timestamp_columns
    then timestamp
    else if starts_with column "is_"
    then boolean
    else string

pub record TypedCdcTableContract : Type 0 where
  pub table_name : String
  pub primary_keys : List String
  pub payload_schema : Dict DataType

abbrev typed_fields : List String → Dict DataType
unfolding source_data_type
typed_fields [] = []
typed_fields (c ∷ columns) = (c, source_data_type c) ∷ typed_fields columns

-- `len(columns) != len(set(columns))`.
abbrev pub has_duplicate : List String → Bool
has_duplicate [] = false
has_duplicate (x ∷ xs) = member x xs || has_duplicate xs

payload_schema : String → Result (Dict DataType)
unfolding get typed_fields
payload_schema name = do
  c ← index (get name silver_tables) (key_error "SILVER_TABLES")
  extra ← index (get name bronze_only_columns) (key_error "_BRONZE_ONLY_COLUMNS")
  let columns = c.columns ++ extra
  raise_if (has_duplicate columns) (runtime_error "Duplicate typed CDC columns")
  ok (typed_fields columns)

typed_contract : String × BronzeTableContract → Result (String × TypedCdcTableContract)
unfolding payload_schema
typed_contract (name, c) = do
  schema ← payload_schema name
  ok (name, record { table_name = name; primary_keys = c.primary_keys; payload_schema = schema })

-- What importing the module computes: the check of the three contracts, then `TYPED_CDC_TABLES`.
unfoldable pub typed_cdc_tables : Result (Dict TypedCdcTableContract)
unfolding typed_contract
typed_cdc_tables = do
  raise_if
      (not (same_set (keys bronze_tables) (keys silver_tables))
        || not (same_set (keys bronze_tables) (keys bronze_only_columns)))
      (runtime_error "CDC, Bronze and Silver table contracts must describe the same source tables")
  traverse typed_contract bronze_tables

unfoldable pub get_typed_cdc_contract : String → Result TypedCdcTableContract
unfolding typed_cdc_tables get
get_typed_cdc_contract name = do
  tables ← typed_cdc_tables
  elim (get name tables) [ some c ↦ ok c | none ↦ raise (value_error "Unknown typed CDC table") ]

abbrev pub cdc_domain_tables : Dict (List String)
cdc_domain_tables =
    ("customer", "app_users" ∷ "user_addresses" ∷ [])
    ∷ ("catalog", "shops" ∷ "categories" ∷ "products" ∷ "product_variants" ∷ [])
    ∷ ("promotion", "vouchers" ∷ [])
    ∷ ("sales", "orders" ∷ "order_items" ∷ "order_vouchers" ∷ [])
    ∷ ("payment", "payments" ∷ [])
    ∷ ("shipping", "shipments" ∷ [])
    ∷ []

-- The topic of a domain, and of the first domain that lists the table.
unfoldable pub topic : String → String
topic domain = "ecommerce.domain." <> domain

domain_in : String → Dict (List String) → Result String
domain_in name [] = raise (value_error "Table is not mapped to a CDC domain")
domain_in name ((domain, tables) ∷ rest) =
    if member name tables then ok (topic domain) else domain_in name rest

unfoldable pub cdc_topic_for_table : String → Result String
unfolding domain_in
cdc_topic_for_table name = domain_in name cdc_domain_tables
