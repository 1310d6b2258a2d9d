-- ===== src/Contracts/Gold.antt =====
-- contracts/gold_tables.py.
use azure_lakehouse_pipeline.Prelude.{String, List, [], ◌∷◌}
use azure_lakehouse_pipeline.Dict.{Dict}

abbrev pub gold_tables : List String
gold_tables =
    "dim_customer" ∷ "dim_date" ∷ "dim_time" ∷ "dim_location" ∷ "dim_shop" ∷ "dim_category"
    ∷ "dim_product" ∷ "dim_promotion" ∷ "dim_payment" ∷ "dim_shipping" ∷ "fact_sales" ∷ []

pub record Scd2DimensionContract : Type 0 where
  pub source_key : String
  pub surrogate_key : String
  pub initial_effective_from : String
  pub type1_columns : List String
  pub attribute_hash : String

unfoldable pub required_columns : Scd2DimensionContract → List String
required_columns c =
    c.source_key ∷ c.surrogate_key ∷ c.attribute_hash ∷ c.initial_effective_from ∷ "effective_from"
    ∷ "effective_to" ∷ "is_current" ∷ "is_deleted" ∷ []

abbrev pub scd2_dimensions : Dict Scd2DimensionContract
scd2_dimensions =
    (
      "dim_customer",
      record {
        source_key = "source_customer_id";
        surrogate_key = "customer_key";
        initial_effective_from = "registered_at";
        type1_columns = "last_login_at" ∷ [];
        attribute_hash = "attribute_hash";
      },
    )
    ∷ (
      "dim_product",
      record {
        source_key = "source_product_variant_id";
        surrogate_key = "product_key";
        initial_effective_from = "variant_created_at";
        type1_columns =
            "current_unit_price" ∷ "compare_at_price" ∷ "stock_quantity" ∷ "reserved_quantity" ∷ [];
        attribute_hash = "attribute_hash";
      },
    )
    ∷ (
      "dim_shop",
      record {
        source_key = "source_shop_id";
        surrogate_key = "shop_key";
        initial_effective_from = "shop_created_at";
        type1_columns = [];
        attribute_hash = "attribute_hash";
      },
    )
    ∷ (
      "dim_category",
      record {
        source_key = "source_category_id";
        surrogate_key = "category_key";
        initial_effective_from = "category_created_at";
        type1_columns = [];
        attribute_hash = "attribute_hash";
      },
    )
    ∷ []
