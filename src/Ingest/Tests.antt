-- ===== src/Ingest/Tests.antt =====
-- The batch ingestion at a small outbox of three orders, read two events at a time.
use azure_lakehouse_pipeline.Result.{ok}
use azure_lakehouse_pipeline.Ingest.Table.{
  BronzeState, hide, table_state, BronzeRow, read_cursor, run_table, write_append_only, is_some,
  ChangeEventStats, progress_metadata, checked_event_id, store_events,
}
use azure_lakehouse_pipeline.Prelude.{
  ℕ, String, length, List, ◌∷◌, Option, none, arith, some, if◌then◌else◌, ◌≡◌, [], ◌++◌, str_eq,
  ◌≤◌, refl, true, ◌<◌,
}
use azure_lakehouse_pipeline.Ingest.Query.{
  read_partitioned_guard, BatchConfig, batch_upper_bound, up_to, ChangeEvent, jdbc_partition_count,
  events_after, ids, order_ids, insert_id, maximum, larger,
}
use azure_lakehouse_pipeline.Delta.Log.{DeltaLog}
use azure_lakehouse_pipeline.Contracts.Bronze.{BronzeTableContract, get_bronze_contract}
use azure_lakehouse_pipeline.Ingest.Order.{IsUnique, IsAscending}
use azure_lakehouse_pipeline.Ingest.Batch.{
  IsValidConfig, partitioned_read, IsBatch, batch_upper_bound-none, batch_upper_bound-some,
  events_after-batch_upper_bound,
}
use azure_lakehouse_pipeline.Manifest.{BronzeTableResult}
use azure_lakehouse_pipeline.Json.{Json, sorted, str, int}
use azure_lakehouse_pipeline.Delta.Values.{TableValue, value_log}
use azure_lakehouse_pipeline.Ingest.Prefix.{IsAscendingLog-IsUnique, up_to-split}
use azure_lakehouse_pipeline.Delta.{
  try_delta_table_state, delta_table_state, metadata_for_pipelines, payload_for, state_of,
}
use azure_lakehouse_pipeline.Prelude.Int.{negsuc, pos}
use azure_lakehouse_pipeline.Json.Values.{value_codec, is_well_formed}
use azure_lakehouse_pipeline.Ingest.Cursor.{progress_text, table_state-write}
use azure_lakehouse_pipeline.Ingest.Total.{run_table-ok}
use azure_lakehouse_pipeline.Ingest.Run.{IsCurrent, run_table-IsCurrent}
use azure_lakehouse_pipeline.Ingest.Lake.{IsLake}
use azure_lakehouse_pipeline.Ingest.Invariant.{extract_all_to_bronze-IsLake, empty-IsLake}
use azure_lakehouse_pipeline.Ingest.Extract.{extract_all_to_bronze}
use azure_lakehouse_pipeline.Dict.{Dict, get, contains}
use azure_lakehouse_pipeline.Dict.Sort.{insert_key}
use azure_lakehouse_pipeline.Ingest.Version.{store_events-version}

abbrev columns : String → Option String
columns name = if str_eq name "order_id" then some "7" else none

abbrev order_event : ℕ → String → ChangeEvent
order_event id operation = record {
  event_id = id;
  source_table = "orders";
  operation = some operation;
  occurred_at = some 100;
  row = columns;
}

abbrev outbox : List ChangeEvent
outbox = order_event 3 "INSERT" ∷ order_event 5 "UPDATE" ∷ order_event 9 "DELETE" ∷ []

abbrev config : BatchConfig
config = record {
  max_events_per_batch = 2;
  target_events_per_partition = 10;
  max_jdbc_partitions = 4;
}

valid_config : IsValidConfig config
valid_config = record {
  some_events = omega arith;
  some_target = omega arith;
  some_partitions = omega arith;
}

abbrev orders_contract : BronzeTableContract
orders_contract = record {
  table_name = "orders";
  primary_keys = "order_id" ∷ [];
  excluded_columns = [];
}

abbrev delta : DeltaLog Json BronzeRow
delta = value_log Json BronzeRow

abbrev fresh : BronzeState
fresh = record {
  table_name = "orders";
  delta_state = none;
  cursor = none;
  processed_version = negsuc 0;
}

outbox-IsAscending : IsAscending (ids outbox)
outbox-IsAscending = ((omega arith, (omega arith, tt)), ((omega arith, tt), (tt, tt)))

outbox-IsUnique : IsUnique (ids outbox)
outbox-IsUnique = IsAscendingLog-IsUnique (ids outbox) outbox-IsAscending

batch_upper_bound-some_example : IsBatch config none "orders" outbox 5
unfolding batch_upper_bound events_after order_ids insert_id maximum larger
batch_upper_bound-some_example =
    batch_upper_bound-some config none "orders" outbox {upper = 5} outbox-IsUnique refl

batch_upper_bound-none_example : events_after 9 "orders" outbox ≡ []
unfolding batch_upper_bound events_after order_ids insert_id maximum larger
batch_upper_bound-none_example =
    batch_upper_bound-none config (some (record { last_event_id = 9 })) "orders" outbox valid_config
      refl

partitioned_read_example :
    read_partitioned_guard config 4 10
      (jdbc_partition_count config (some (record { last_event_id = 3 })) 9)
    ≡ ok tt
partitioned_read_example =
    partitioned_read config (some (record { last_event_id = 3 })) 9 valid_config (omega arith)

events_after-batch_upper_bound_example :
    length (events_after 5 "orders" outbox) < length (events_after 0 "orders" outbox)
unfolding batch_upper_bound events_after order_ids insert_id maximum larger
events_after-batch_upper_bound_example =
    events_after-batch_upper_bound config none "orders" outbox {upper = 5} outbox-IsUnique refl

up_to-split_example :
    up_to 9 (events_after 0 "orders" outbox)
    ≡ up_to 5 (events_after 0 "orders" outbox) ++ up_to 9 (events_after 5 "orders" outbox)
up_to-split_example = up_to-split 5 9 "orders" outbox outbox-IsAscending (omega arith)

table_state-write_example :
    (s : BronzeState) × (table_state value_codec delta "orders" (
        some (
          write_append_only value_codec delta
            (progress_text value_codec delta "orders" "b1" 5)
            []
            none))
      ≡ ok s)
    × (s.cursor ≡ some (record { last_event_id = 5 }))
    × (s.processed_version ≡ pos 0)
    × (is_some s.delta_state ≡ true)
table_state-write_example = table_state-write value_codec delta "orders" "b1" 5 [] none

first_run_lem :
    (r : BronzeTableResult) × (t : Option (TableValue Json BronzeRow)) × (run_table value_codec
        delta config "b1" outbox fresh
        (batch_upper_bound config none "orders" outbox)
        none
      ≡ ok (r, t))
unfolding hide get_bronze_contract
first_run_lem =
    run_table-ok value_codec delta config "b1" outbox fresh orders_contract none valid_config
      outbox-IsAscending refl ((λ own. refl), ((λ own. refl), ((λ own. refl), tt)))

-- An event of another table, without the key of "orders".
abbrev shop_event : ChangeEvent
shop_event = record {
  event_id = 4;
  source_table = "shops";
  operation = some "INSERT";
  occurred_at = some 100;
  row = λ name. if str_eq name "shop_id" then some "2" else none;
}

abbrev shared_outbox : List ChangeEvent
shared_outbox = order_event 3 "INSERT" ∷ shop_event ∷ order_event 9 "DELETE" ∷ []

shared_outbox-IsAscending : IsAscending (ids shared_outbox)
shared_outbox-IsAscending = ((omega arith, (omega arith, tt)), ((omega arith, tt), (tt, tt)))

run_table-ok_example :
    (r : BronzeTableResult) × (t : Option (TableValue Json BronzeRow)) × (run_table value_codec
        delta config "b1" shared_outbox fresh
        (batch_upper_bound config none "orders" shared_outbox)
        none
      ≡ ok (r, t))
unfolding hide get_bronze_contract
run_table-ok_example =
    run_table-ok value_codec delta config "b1" shared_outbox fresh orders_contract none valid_config
      shared_outbox-IsAscending refl
      ((λ own. refl), ((λ own. absurd (ground arith)), ((λ own. refl), tt)))

run_table-IsCurrent_example :
    (c : ℕ) × (0 ≤ c) × IsCurrent value_codec delta config "b1" outbox [] "orders" first_run_lem.1 c
unfolding get_bronze_contract table_state try_delta_table_state read_cursor events_after up_to
run_table-IsCurrent_example =
    run_table-IsCurrent value_codec delta config "b1" outbox fresh orders_contract none
      outbox-IsAscending refl refl refl first_run_lem.2

extract_all_to_bronze-IsLake_example :
    IsLake value_codec delta config "b1" outbox
      (extract_all_to_bronze value_codec delta config "b1" outbox
        (λ name. str_eq name "shops")
        (some ("orders" ∷ "shops" ∷ []))
        (λ name. none)).1
extract_all_to_bronze-IsLake_example =
    extract_all_to_bronze-IsLake value_codec delta config "b1" outbox (λ name. str_eq name "shops")
      (some ("orders" ∷ "shops" ∷ [])) (λ name. none) outbox-IsAscending (refl, (refl, tt))
      (empty-IsLake value_codec delta config "b1" outbox)

-- The table after a first run that read up to event 5, and the state that is read from it.
abbrev stored : TableValue Json BronzeRow
unfolding progress_metadata sorted
stored = (value_log Json BronzeRow).create (progress_text value_codec delta "orders" "b1" 5) []

abbrev progress : Dict Json
progress =
    ("batch_id", str "b1")
    ∷ ("bronze_schema_version", int (pos 1))
    ∷ ("last_event_id", int (pos 5))
    ∷ ("pipeline", str "postgres_to_bronze")
    ∷ ("source_table", str "orders")
    ∷ []

abbrev stored_state : BronzeState
stored_state = record {
  table_name = "orders";
  delta_state = some (record { version = 0; progress_version = some 0; progress = some progress });
  cursor = some (record { last_event_id = 5 });
  processed_version = pos 0;
}

abbrev one_event : ChangeEventStats
one_event = record {
  record_count = 1;
  last_event_id = some 9;
  operation_counts = ("INSERT", pos 0) ∷ ("UPDATE", pos 0) ∷ ("DELETE", pos 1) ∷ [];
}

store_events-version_example :
    (store_events value_codec delta "b2" stored_state
      (order_event 9 "DELETE" ∷ [])
      one_event
      (some stored)).0.delta_version
    ≡ pos 1
unfolding table_state try_delta_table_state delta_table_state read_cursor metadata_for_pipelines
    progress_metadata sorted insert_key payload_for get checked_event_id state_of is_well_formed
    contains stored
store_events-version_example =
    store_events-version value_codec delta "b2" "orders" (some stored) stored_state
      (order_event 9 "DELETE" ∷ []) one_event tt refl refl
