-- ===== src/Silver/Tests.antt =====
-- The first run of the shops table from a Bronze table at version 4, and the same version again.
use azure_lakehouse_pipeline.Prelude.{
  refl, List, ◌≡◌, some, String, if◌then◌else◌, ◌∷◌, none, [], str_eq, false, true,
}
use azure_lakehouse_pipeline.Upsert.{number_value, text_value, Row, Frame}
use azure_lakehouse_pipeline.Silver.Builder.{
  result, BronzeReader, bronze_version, SilverState, append_change_history,
}
use azure_lakehouse_pipeline.Silver.Run.{Ran}
use azure_lakehouse_pipeline.Silver.Run.{run_table}
use azure_lakehouse_pipeline.Contracts.Silver.{SilverTableContract, get_silver_contract}
use azure_lakehouse_pipeline.Silver.Consumed.{IsProgressed}
use azure_lakehouse_pipeline.Manifest.{BronzeBatchManifest}
use azure_lakehouse_pipeline.Silver.{SparkFunctions}
use azure_lakehouse_pipeline.Prelude.Int.{pos}
use azure_lakehouse_pipeline.Json.{Json}
use azure_lakehouse_pipeline.Json.Values.{value_codec}
use azure_lakehouse_pipeline.Result.{ok}
use azure_lakehouse_pipeline.Upsert.Values.{value_tables}
use azure_lakehouse_pipeline.Contracts.Bronze.{bronze_schema_version}
use azure_lakehouse_pipeline.Silver.Covers.{run_table-IsProgressed}
use azure_lakehouse_pipeline.Silver.Rerun.{run_table-unchanged}
use azure_lakehouse_pipeline.Silver.Retry.{append_change_history_again}

abbrev spark : SparkFunctions
spark = record {
  cast = λ type c. c;
  trim = λ s. s;
  lower = λ s. s;
  upper = λ s. s;
  sha2 = λ cells. some (text_value "hash");
  current_timestamp = some (number_value (pos 900));
}

abbrev shop_event : Row
shop_event = λ name.
    if str_eq name "shop_id"
    then some (number_value (pos 7))
    else if str_eq name "shop_name"
    then some (text_value "corner")
    else if str_eq name "_operation"
    then some (text_value "INSERT")
    else none

abbrev bronze_columns : List String
bronze_columns =
    "shop_id" ∷ "public_shop_id" ∷ "shop_name" ∷ "shop_slug" ∷ "status" ∷ "created_at"
    ∷ "updated_at" ∷ "_event_id" ∷ "_event_occurred_at" ∷ "_operation" ∷ "_batch_id"
    ∷ "_record_hash" ∷ []

abbrev bronze_frame : Frame
bronze_frame = record { columns = bronze_columns; rows = shop_event ∷ [] }

abbrev bronze_shops : BronzeReader Json
bronze_shops = record {
  read_snapshot = bronze_frame;
  read_changes = λ start end. bronze_frame;
  bronze_history = none;
}

abbrev shops_at_4 : BronzeBatchManifest
shops_at_4 = record {
  batch_id = "b1";
  tables =
      (
        "shops",
        record {
          batch_id = "b1";
          table_name = "shops";
          record_count = pos 1;
          ingestion_type = "batch_change_event";
          delta_version = pos 4;
          operation_counts = [];
          schema_version = bronze_schema_version;
        },
      )
      ∷ [];
}

abbrev no_tables : SilverState value_codec (value_tables Json) spark bronze_shops
no_tables = record { current = none; change_history = none }

abbrev first_run : Ran value_codec (value_tables Json) spark bronze_shops
first_run =
    run_table value_codec (value_tables Json) spark bronze_shops (some shops_at_4) "shops" "b1"
      false no_tables

shops_at_4_version : bronze_version value_codec "shops" (some shops_at_4) none ≡ ok (pos 4)
unfolding bronze_version
shops_at_4_version = refl

abbrev shops_contract : SilverTableContract
shops_contract = record {
  table_name = "shops";
  primary_keys = "shop_id" ∷ [];
  columns =
      "shop_id" ∷ "public_shop_id" ∷ "shop_name" ∷ "shop_slug" ∷ "status" ∷ "created_at"
      ∷ "updated_at" ∷ [];
  materialize_change_history = true;
}

first_run-ok : first_run ≡ (first_run.0, ok (result shops_contract (pos 0)))
unfolding run_table
first_run-ok = refl

run_table-IsProgressed_example :
    IsProgressed value_codec (value_tables Json) (pos 4) (pos 0) first_run.0.current
run_table-IsProgressed_example =
    run_table-IsProgressed value_codec (value_tables Json) spark bronze_shops (some shops_at_4)
      "shops" "b1" false 4 no_tables shops_at_4_version first_run-ok

first_progress : IsProgressed value_codec (value_tables Json) (pos 4) (pos 0) first_run.0.current
first_progress =
    run_table-IsProgressed value_codec (value_tables Json) spark bronze_shops (some shops_at_4)
      "shops" "b1" false 4 no_tables shops_at_4_version first_run-ok

shops_known : get_silver_contract "shops" ≡ ok shops_contract
unfolding get_silver_contract
shops_known = refl

run_table-unchanged_example :
    run_table value_codec
      (value_tables Json)
      spark
      bronze_shops
      (some shops_at_4)
      "shops"
      "b2"
      false
      first_run.0
    ≡ (first_run.0, ok (result shops_contract (pos 0)))
run_table-unchanged_example =
    run_table-unchanged value_codec (value_tables Json) spark bronze_shops (some shops_at_4) "shops"
      "b2" 4 (pos 0) first_run.0 shops_contract shops_known shops_at_4_version first_progress

append_change_history_again_example :
    append_change_history value_codec
      (value_tables Json)
      spark
      bronze_shops
      shops_contract
      bronze_frame
      "b2"
      (pos 4)
      (some (pos 3))
      (append_change_history value_codec
        (value_tables Json)
        spark
        bronze_shops
        shops_contract
        bronze_frame
        "b1"
        (pos 4)
        none
        no_tables)
    ≡ append_change_history value_codec
        (value_tables Json)
        spark
        bronze_shops
        shops_contract
        bronze_frame
        "b1"
        (pos 4)
        none
        no_tables
append_change_history_again_example =
    append_change_history_again value_codec (value_tables Json) spark bronze_shops shops_contract
      bronze_frame bronze_frame "b1" "b2" (pos 4) none (some (pos 3)) no_tables
