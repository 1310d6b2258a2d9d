-- ===== src/Contracts/Bronze.antt =====
-- contracts/bronze_tables.py and contracts/change_events.py.
use azure_lakehouse_pipeline.Prelude.{String, List, [], ◌∷◌, ℕ}
use azure_lakehouse_pipeline.Dict.{Dict, get}
use azure_lakehouse_pipeline.Prelude.Int.{ℤ, pos, negsuc}
use azure_lakehouse_pipeline.Result.{Result, raise, ok, value_error, index}

pub record BronzeTableContract : Type 0 where
  pub table_name : String
  pub primary_keys : List String
  pub excluded_columns : List String

abbrev pub bronze_schema_version : ℤ
bronze_schema_version = pos 1

abbrev contract : String → List String → List String → String × BronzeTableContract
contract name keys excluded =
    (name, record { table_name = name; primary_keys = keys; excluded_columns = excluded })

abbrev pub bronze_tables : Dict BronzeTableContract
bronze_tables =
    contract "app_users" ("user_id" ∷ []) ("password_hash" ∷ [])
    ∷ contract "user_addresses" ("address_id" ∷ []) []
    ∷ contract "shops" ("shop_id" ∷ []) []
    ∷ contract "categories" ("category_id" ∷ []) []
    ∷ contract "products" ("product_id" ∷ []) []
    ∷ contract "product_variants" ("product_variant_id" ∷ []) []
    ∷ contract "vouchers" ("voucher_id" ∷ []) []
    ∷ contract "orders" ("order_id" ∷ []) []
    ∷ contract "order_items" ("order_item_id" ∷ []) []
    ∷ contract "order_vouchers" ("order_voucher_id" ∷ []) []
    ∷ contract "payments" ("payment_id" ∷ []) []
    ∷ contract "shipments" ("shipment_id" ∷ []) []
    ∷ []

unfoldable pub get_bronze_contract : String → Result BronzeTableContract
unfolding get
get_bronze_contract name = index (get name bronze_tables) (value_error "Unknown Bronze table")

pub data ChangeOperation : Type 0 where
  insert update delete : ChangeOperation

abbrev pub operation_value : ChangeOperation → String
operation_value insert = "INSERT"
operation_value update = "UPDATE"
operation_value delete = "DELETE"

-- `__post_init__` rejects a negative id, so the field is a natural number.
pub record EventCursor : Type 0 where
  pub last_event_id : ℕ

unfoldable pub event_cursor : ℤ → Result EventCursor
event_cursor (pos n) = ok (record { last_event_id = n })
event_cursor (negsuc n) = raise (value_error "last_event_id must be non-negative")
