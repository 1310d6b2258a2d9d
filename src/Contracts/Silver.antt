-- ===== src/Contracts/Silver.antt =====
-- contracts/silver_tables.py.
use azure_lakehouse_pipeline.Prelude.{String, List, [], ◌∷◌, Bool, true, false}
use azure_lakehouse_pipeline.Dict.{Dict, get}
use azure_lakehouse_pipeline.Result.{Result, value_error, index}

pub record SilverTableContract : Type 0 where
  pub table_name : String
  pub primary_keys : List String
  pub columns : List String
  pub materialize_change_history : Bool

abbrev contract : String → List String → List String → Bool → String × SilverTableContract
contract name keys columns history = (
  name,
  record {
    table_name = name;
    primary_keys = keys;
    columns = columns;
    materialize_change_history = history;
  },
)

abbrev pub silver_tables : Dict SilverTableContract
silver_tables =
    contract "app_users" ("user_id" ∷ [])
      ("user_id" ∷ "public_user_id" ∷ "username" ∷ "email" ∷ "first_name" ∷ "last_name"
        ∷ "phone_number" ∷ "status" ∷ "created_at" ∷ "updated_at" ∷ "last_login" ∷ [])
      true
    ∷ contract "user_addresses" ("address_id" ∷ [])
        ("address_id" ∷ "user_id" ∷ "address_type" ∷ "recipient_name" ∷ "phone_number" ∷ "street"
          ∷ "ward" ∷ "district" ∷ "city" ∷ "state" ∷ "postal_code" ∷ "country" ∷ "created_at"
          ∷ "updated_at" ∷ [])
        false
    ∷ contract "shops" ("shop_id" ∷ [])
        ("shop_id" ∷ "public_shop_id" ∷ "shop_name" ∷ "shop_slug" ∷ "status" ∷ "created_at"
          ∷ "updated_at" ∷ [])
        true
    ∷ contract "categories" ("category_id" ∷ [])
        ("category_id" ∷ "parent_category_id" ∷ "category_name" ∷ "slug" ∷ "is_active"
          ∷ "created_at" ∷ "updated_at" ∷ [])
        true
    ∷ contract "products" ("product_id" ∷ [])
        ("product_id" ∷ "public_product_id" ∷ "shop_id" ∷ "category_id" ∷ "product_sku"
          ∷ "product_slug" ∷ "product_name" ∷ "brand" ∷ "attributes_json" ∷ "images_json" ∷ "status"
          ∷ "is_featured" ∷ "created_at" ∷ "updated_at" ∷ [])
        true
    ∷ contract "product_variants" ("product_variant_id" ∷ [])
        ("product_variant_id" ∷ "public_variant_id" ∷ "product_id" ∷ "variant_sku" ∷ "variant_name"
          ∷ "options_json" ∷ "unit_price" ∷ "compare_at_price" ∷ "currency" ∷ "stock_quantity"
          ∷ "reserved_quantity" ∷ "weight_kg" ∷ "images_json" ∷ "status" ∷ "is_default"
          ∷ "created_at" ∷ "updated_at" ∷ [])
        true
    ∷ contract "vouchers" ("voucher_id" ∷ [])
        ("voucher_id" ∷ "voucher_code" ∷ "voucher_name" ∷ "shop_id" ∷ "discount_type"
          ∷ "discount_value" ∷ "max_discount_amount" ∷ "minimum_order_amount" ∷ "scope_json"
          ∷ "starts_at" ∷ "ends_at" ∷ "is_active" ∷ "created_at" ∷ "updated_at" ∷ [])
        false
    ∷ contract "orders" ("order_id" ∷ [])
        ("order_id" ∷ "public_order_id" ∷ "customer_id" ∷ "order_number" ∷ "order_status"
          ∷ "payment_status" ∷ "shipping_address_id" ∷ "billing_address_id"
          ∷ "shipping_address_snapshot" ∷ "billing_address_snapshot" ∷ "subtotal_amount"
          ∷ "shipping_amount" ∷ "tax_amount" ∷ "discount_amount" ∷ "total_amount" ∷ "currency"
          ∷ "created_at" ∷ "updated_at" ∷ [])
        false
    ∷ contract "order_items" ("order_item_id" ∷ [])
        ("order_item_id" ∷ "order_id" ∷ "shop_id" ∷ "product_id" ∷ "product_variant_id"
          ∷ "product_name_snapshot" ∷ "product_sku_snapshot" ∷ "variant_name_snapshot"
          ∷ "variant_sku_snapshot" ∷ "variant_options_snapshot" ∷ "quantity" ∷ "unit_price"
          ∷ "currency" ∷ "tax_amount" ∷ "discount_amount" ∷ "item_subtotal" ∷ "item_total"
          ∷ "created_at" ∷ "updated_at" ∷ [])
        false
    ∷ contract "order_vouchers" ("order_voucher_id" ∷ [])
        ("order_voucher_id" ∷ "order_id" ∷ "voucher_id" ∷ "discount_amount" ∷ "created_at"
          ∷ "updated_at" ∷ [])
        false
    ∷ contract "payments" ("payment_id" ∷ [])
        ("payment_id" ∷ "public_payment_id" ∷ "order_id" ∷ "payment_method" ∷ "payment_status"
          ∷ "amount" ∷ "currency" ∷ "paid_at" ∷ "created_at" ∷ "updated_at" ∷ [])
        false
    ∷ contract "shipments" ("shipment_id" ∷ [])
        ("shipment_id" ∷ "public_shipment_id" ∷ "order_id" ∷ "shipment_status" ∷ "carrier"
          ∷ "tracking_number" ∷ "shipped_at" ∷ "delivered_at" ∷ "created_at" ∷ "updated_at" ∷ [])
        false
    ∷ []

unfoldable pub get_silver_contract : String → Result SilverTableContract
unfolding get
get_silver_contract name = index (get name silver_tables) (value_error "Unknown Silver table")
