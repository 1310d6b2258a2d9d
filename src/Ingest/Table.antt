-- ===== src/Ingest/Table.antt =====
-- ingestion/batch/extract_to_bronze.py for one table: its state, its batch and the commit that stores the
-- batch with the cursor.
use azure_lakehouse_pipeline.Ingest.Query.{
  ChangeEvent, change_events, maximum, BatchConfig, lower_bound, read_partitioned_guard,
  jdbc_partition_count, ids,
}
use azure_lakehouse_pipeline.Contracts.Bronze.{
  BronzeTableContract, ChangeOperation, insert, EventCursor, update, operation_value,
  bronze_schema_version, get_bronze_contract, delete,
}
use azure_lakehouse_pipeline.Prelude.{
  ℕ, String, Option, List, if◌then◌else◌, none, Bool, ◌∷◌, some, true, false, ◌||◌, [], map, ◌+◌,
  str_eq, any, not, ltb, ◌&&◌, length,
}
use azure_lakehouse_pipeline.Dict.{get, Dict, member}
use azure_lakehouse_pipeline.Prelude.Int.{◌+ℤ◌, ℤ, negsuc, ltb_ℤ, pos}
use azure_lakehouse_pipeline.Json.{JsonCodec, Json, sorted, dict, str, int}
use azure_lakehouse_pipeline.Delta.{DeltaTableState, try_delta_table_state}
use azure_lakehouse_pipeline.Result.{
  Result, ◌>>◌, ok, ◌>>=◌, raise_if, raise, index, runtime_error, value_error,
}
use azure_lakehouse_pipeline.Delta.Log.{DeltaLog}
use azure_lakehouse_pipeline.Manifest.{BronzeTableResult}

-- A Bronze row, with the metadata columns that the pipeline reads later.
pub record BronzeRow : Type 0 where
  pub batch_id : String
  pub event : ChangeEvent

pub record ChangeEventStats : Type 0 where
  pub record_count : ℕ
  pub last_event_id : Option ℕ
  pub operation_counts : Dict ℤ

-- `_BronzeState`; the version is -1 where there is no table.
pub record BronzeState : Type 0 where
  pub table_name : String
  pub delta_state : Option DeltaTableState
  pub cursor : Option EventCursor
  pub processed_version : ℤ

abbrev pub operations : List ChangeOperation
operations = insert ∷ update ∷ delete ∷ []

abbrev has_operation : ChangeOperation → ChangeEvent → Bool
has_operation op e = elim e.operation [ none ↦ false | some s ↦ str_eq s (operation_value op) ]

abbrev is_null : Option String → Bool
is_null none = true
is_null (some s) = false

-- `event_id` is the primary key of the log, and is never NULL.
abbrev pub is_invalid : BronzeTableContract → ChangeEvent → Bool
is_invalid contract e =
    elim e.occurred_at [ none ↦ true | some t ↦ false ]
    || not (any (λ op. has_operation op e) operations)
    || any (λ key. is_null (e.row key)) contract.primary_keys

count_if : (ChangeEvent → Bool) → List ChangeEvent → ℕ
count_if p [] = 0
count_if p (e ∷ es) = (if p e then 1 else 0) + count_if p es

abbrev pub count_operations : List ChangeEvent → List ChangeOperation → Dict ℤ
unfolding count_if
count_operations es [] = []
count_operations es (op ∷ ops) =
    (operation_value op, pos (count_if (has_operation op) es)) ∷ count_operations es ops

unfoldable pub collect_change_event_stats :
    BronzeTableContract → List ChangeEvent → Result ChangeEventStats
unfolding count_operations maximum
collect_change_event_stats contract es = do
  raise_if (any (is_invalid contract) es) (value_error "Invalid change event for source table")
  ok (record {
    record_count = length es;
    last_event_id = maximum (ids es);
    operation_counts = count_operations es operations;
  })

abbrev pub max_ℤ : ℤ → ℤ → ℤ
max_ℤ a b = if ltb_ℤ a b then b else a

abbrev pub is_some {ℓ} : {A : Type ℓ} → Option A → Bool
is_some none = false
is_some (some a) = true

unfoldable pub physical_version : BronzeState → ℤ
physical_version state = elim state.delta_state [
  | none ↦ negsuc 0
  | some s ↦ max_ℤ (pos s.version) state.processed_version
]

-- `_result`.
unfoldable pub result : String → BronzeState → ℕ → Dict ℤ → BronzeTableResult
unfolding physical_version ◌+ℤ◌
result batch_id state record_count operation_counts =
    let table_exists = is_some state.delta_state in
    record {
      batch_id = batch_id;
      table_name = state.table_name;
      record_count = pos record_count;
      ingestion_type = if table_exists then "incremental" else "initial";
      delta_version =
          if ltb 0 record_count || not table_exists
          then physical_version state +ℤ pos 1
          else state.processed_version;
      operation_counts = operation_counts;
      schema_version = bronze_schema_version;
    }

-- `raw_df.drop(*contract.excluded_columns)`.
unfoldable pub hide : List String → ChangeEvent → ChangeEvent
hide columns e = record e { row = λ c. if member c columns then none else e.row c }

-- `_read_events`: the partitioned reader is used where there is an upper bound.
unfoldable pub read_events :
    BatchConfig
    → BronzeTableContract
    → Option EventCursor
    → Option ℕ
    → List ChangeEvent
    → Result (List ChangeEvent)
unfolding change_events hide
read_events cfg contract cursor none log = ok []
read_events cfg contract cursor (some upper) log = do
  read_partitioned_guard cfg (lower_bound cursor + 1) (upper + 1)
      (jdbc_partition_count cfg cursor upper)
  ok (
      map (hide contract.excluded_columns)
        (change_events cursor (some upper) contract.table_name log))

unfoldable pub checked_event_id : Option Json → Result ℕ
checked_event_id (some (int (pos n))) = ok n
checked_event_id _ = raise (value_error "Invalid Bronze Delta progress metadata for table")

-- `_read_cursor`.
unfoldable pub read_cursor : Option DeltaTableState → Result (Option EventCursor × ℤ)
unfolding get checked_event_id
read_cursor none = ok (none, negsuc 0)
read_cursor (some state) = do
  metadata ← index state.progress (runtime_error "Bronze progress metadata is missing")
  n ← checked_event_id (get "last_event_id" metadata)
  version ← index state.progress_version (runtime_error "Bronze progress version is missing")
  ok (some (record { last_event_id = n }), pos version)

unfoldable pub progress_metadata : String → String → ℕ → Json
progress_metadata table batch_id last = dict (
    ("pipeline", str "postgres_to_bronze")
    ∷ ("source_table", str table)
    ∷ ("batch_id", str batch_id)
    ∷ ("last_event_id", int (pos last))
    ∷ ("bronze_schema_version", int bronze_schema_version)
    ∷ [])

-- `EventCursor(stats.last_event_id)`, else the previous cursor, else the start.
unfoldable pub current_cursor : Option ℕ → Option EventCursor → ℕ
current_cursor (some n) previous = n
current_cursor none previous = lower_bound previous

module _ (json : JsonCodec) (delta : DeltaLog json.Text BronzeRow) where
  open json use {Text, dumps}
  open delta use {Table, create, append, history}

  -- `_table_state`, from a table that may be missing.
  unfoldable pub table_state : String → Option Table → Result BronzeState
  unfolding try_delta_table_state read_cursor
  table_state name t = do
    state ←
        try_delta_table_state json "postgres_to_bronze"
          (elim t [ none ↦ none | some t ↦ some (history t) ])
    (cursor, version) ← read_cursor state
    ok (record {
      table_name = name;
      delta_state = state;
      cursor = cursor;
      processed_version = version;
    })

  -- `write_append_only`: the mode is "append" where the table exists, and "overwrite" where not.
  unfoldable pub write_append_only : Text → List BronzeRow → Option Table → Table
  write_append_only meta rows none = create meta rows
  write_append_only meta rows (some t) = append meta rows t

  -- `_run_table` from the events read: the commit, if there is one to make, and the result.
  unfoldable pub store_events :
      String
      → BronzeState
      → List ChangeEvent
      → ChangeEventStats
      → Option Table
      → BronzeTableResult × Option Table
  unfolding write_append_only current_cursor progress_metadata sorted
  store_events batch_id state events stats t =
      let current = current_cursor stats.last_event_id state.cursor in
      let meta = dumps (sorted (progress_metadata state.table_name batch_id current)) in
      let rows =
        map
          (λ (e : ChangeEvent). let r : BronzeRow = record { batch_id = batch_id; event = e } in r)
          events in
      let written = some (write_append_only meta rows t) in
      (
        result batch_id state stats.record_count stats.operation_counts,
        (if ltb 0 stats.record_count || not (is_some state.delta_state) then written else t),
      )

  -- `_materialize_events`, and what `_run_table` does with what it returns.
  unfoldable pub ingest_events :
      BatchConfig
      → String
      → List ChangeEvent
      → BronzeState
      → BronzeTableContract
      → Option ℕ
      → Option Table
      → Result (BronzeTableResult × Option Table)
  unfolding read_events collect_change_event_stats store_events
  ingest_events cfg batch_id log state contract upper t = do
    events ← read_events cfg contract state.cursor upper log
    stats ← collect_change_event_stats contract events
    ok (store_events batch_id state events stats t)

  unfoldable pub run_table :
      BatchConfig
      → String
      → List ChangeEvent
      → BronzeState
      → Option ℕ
      → Option Table
      → Result (BronzeTableResult × Option Table)
  unfolding ingest_events result
  run_table cfg batch_id log state upper t = do
    contract ← get_bronze_contract state.table_name
    (if is_some state.delta_state && not (is_some upper)
        then ok (result batch_id state 0 (count_operations [] operations), t)
        else ingest_events cfg batch_id log state contract upper t)
