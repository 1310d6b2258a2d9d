-- ===== src/Silver/Common.antt =====
-- transformations/silver/common.py: the current and the historical rows of a Bronze frame.
use azure_lakehouse_pipeline.Upsert.{
  eq_scalar, gt_scalar, Cell, null_safe_eq, Row, Frame, compared, text_value, number_value,
  flag_value,
}
use azure_lakehouse_pipeline.Silver.{SparkFunctions, silver_sequence_columns, silver_schema_version}
use azure_lakehouse_pipeline.Prelude.{
  List, Bool, String, none, ◌∷◌, false, not, some, ◌++◌, if◌then◌else◌, [], ◌||◌, true, map, str_eq,
  ◌&&◌,
}
use azure_lakehouse_pipeline.Silver.Columns.{enforce_types, with_column}
use azure_lakehouse_pipeline.Contracts.Silver.{SilverTableContract}
use azure_lakehouse_pipeline.Upsert.Table.{difference, same_cells, is_nil}
use azure_lakehouse_pipeline.Upsert.Keys.{same_cell}
use azure_lakehouse_pipeline.Scd2.{coalesce}
use azure_lakehouse_pipeline.Dict.{member}
use azure_lakehouse_pipeline.Result.{Result, ◌>>◌, raise_if, value_error, ok}
use azure_lakehouse_pipeline.Prelude.Int.{pos, negsuc}

-- `row_number() = 1` in the window of each key: a row stays unless another of its key comes before
-- it, of rows that the order does not tell apart the first.
abbrev pub after_cell : Cell → Cell → Bool
after_cell none b = false
after_cell (some a) none = true
after_cell (some a) (some b) = gt_scalar a b

unfoldable pub comes_first : List String → Row → Row → Bool
unfolding gt_scalar null_safe_eq
comes_first [] a b = false
comes_first (name ∷ names) a b =
    after_cell (a name) (b name) || (null_safe_eq (a name) (b name) && comes_first names a b)

unfoldable pub keep_newest : List String → List String → Row → List Row → List Row
unfolding comes_first null_safe_eq
keep_newest keys order r [] = r ∷ []
keep_newest keys order r (s ∷ rows) =
    let rest = keep_newest keys order r rows in
    if same_cells keys r s then (if comes_first order s r then s ∷ rows else r ∷ rows) else s ∷ rest

unfoldable pub newest_rows : List String → List String → List Row → List Row
unfolding keep_newest
newest_rows keys order [] = []
newest_rows keys order (r ∷ rows) = keep_newest keys order r (newest_rows keys order rows)

-- `_operation = 'DELETE'` as a column.
unfoldable pub is_deleted : Row → Cell
unfolding eq_scalar
is_deleted r = elim (compared eq_scalar (r "_operation") (some (text_value "DELETE"))) [
  | none ↦ none
  | some b ↦ some (flag_value b)
]

abbrev pub names_of : List (String × (Row → Cell)) → List String
names_of [] = []
names_of ((name, value) ∷ columns) = name ∷ names_of columns

unfoldable pub cell_of : List (String × (Row → Cell)) → Row → String → Cell
cell_of [] r column = none
cell_of ((name, value) ∷ columns) r column =
    if str_eq column name then value r else cell_of columns r column

-- `df.select` of the columns of a contract and of others by their expressions.
unfoldable pub select : List String → List (String × (Row → Cell)) → Frame → Frame
unfolding cell_of
select columns others df = record {
  columns = columns ++ names_of others;
  rows =
      map (λ r column. if member column columns then r column else cell_of others r column) df.rows;
}

module _ (spark : SparkFunctions) where
  open spark use {cast, sha2, current_timestamp}

  abbrev pub required : SilverTableContract → List String
  required contract =
      contract.columns
      ++ "_event_id" ∷ "_event_occurred_at" ∷ "_operation" ∷ "_batch_id" ∷ "_record_hash" ∷ []

  -- The ingestion metadata of an event, from columns that the frame may not have.
  module _ (columns : List String) where
    abbrev pub optional_column : String → String → Row → Cell
    optional_column name type r = if member name columns then cast type (r name) else cast type none

    abbrev pub ingestion_type : Row → Cell
    ingestion_type r =
        if member "_ingestion_type" columns
        then r "_ingestion_type"
        else some (text_value "batch_change_event")

    unfoldable pub is_cdc : Row → Bool
    unfolding eq_scalar
    is_cdc r = same_cell (ingestion_type r) (some (text_value "streaming_cdc"))

    abbrev pub ingestion_mode : Row → Cell
    ingestion_mode r = some (text_value (if is_cdc r then "cdc" else "batch"))

    abbrev pub ingestion_priority : Row → Cell
    ingestion_priority r = some (number_value (if is_cdc r then pos 2 else pos 1))

    abbrev pub source_event_sequence : Row → Cell
    source_event_sequence r =
        if is_cdc r
        then coalesce (optional_column "_source_lsn" "long" r)
            (optional_column "_kafka_offset" "long" r)
        else cast "long" (r "_event_id")

    abbrev pub source_event_subsequence : Row → Cell
    source_event_subsequence r =
        if is_cdc r
        then coalesce (optional_column "_kafka_offset" "long" r)
            (cast "long" (some (number_value (negsuc 0))))
        else cast "long" (some (number_value (pos 0)))

  abbrev pub with_ingestion : Frame → Frame
  with_ingestion df =
      with_column "_source_event_subsequence" (source_event_subsequence df.columns) (
        with_column "_source_event_sequence" (source_event_sequence df.columns) (
          with_column "_ingestion_priority" (ingestion_priority df.columns)
            (with_column "_ingestion_mode" (ingestion_mode df.columns) df)))

  -- The columns after those of the contract, in `current_state` and in `change_history`.
  abbrev pub current_columns : SilverTableContract → List String → List (String × (Row → Cell))
  current_columns contract columns =
      ("_operation", λ r. r "_operation")
      ∷ ("_is_deleted", is_deleted)
      ∷ ("_event_occurred_at", λ r. r "_event_occurred_at")
      ∷ ("_bronze_event_id", λ r. cast "string" (r "_event_id"))
      ∷ ("_bronze_batch_id", λ r. r "_batch_id")
      ∷ ("_ingestion_mode", λ r. r "_ingestion_mode")
      ∷ ("_ingestion_priority", λ r. r "_ingestion_priority")
      ∷ ("_source_event_sequence", λ r. r "_source_event_sequence")
      ∷ ("_source_event_subsequence", λ r. r "_source_event_subsequence")
      ∷ ("_source_lsn", optional_column columns "_source_lsn" "long")
      ∷ ("_kafka_partition", optional_column columns "_kafka_partition" "int")
      ∷ ("_kafka_offset", optional_column columns "_kafka_offset" "long")
      ∷ ("_silver_updated_at", λ r. current_timestamp)
      ∷ ("_source_table", λ r. some (text_value contract.table_name))
      ∷ ("_silver_schema_version", λ r. some (number_value (pos silver_schema_version)))
      ∷ []

  -- The expressions of `change_history`; its event id is a hash of the others.
  abbrev pub history_event_id : SilverTableContract → List String → Row → Cell
  history_event_id contract columns r = sha2 (
      some (text_value contract.table_name)
      ∷ cast "string" (r "_event_id")
      ∷ cast "string" (r "_batch_id")
      ∷ cast "string" (optional_column columns "_source_lsn" "long" r)
      ∷ cast "string" (optional_column columns "_kafka_partition" "int" r)
      ∷ cast "string" (optional_column columns "_kafka_offset" "long" r)
      ∷ cast "string" (r "_operation")
      ∷ [])

  abbrev pub history_columns : SilverTableContract → List String → List (String × (Row → Cell))
  history_columns contract columns =
      ("_operation", λ r. r "_operation")
      ∷ ("_event_occurred_at", λ r. r "_event_occurred_at")
      ∷ ("_bronze_event_id", λ r. cast "string" (r "_event_id"))
      ∷ ("_history_event_id", history_event_id contract columns)
      ∷ ("_bronze_batch_id", λ r. r "_batch_id")
      ∷ ("_bronze_record_hash", λ r. cast "string" (r "_record_hash"))
      ∷ ("_ingestion_mode", λ r. r "_ingestion_mode")
      ∷ ("_ingestion_priority", λ r. r "_ingestion_priority")
      ∷ ("_source_event_sequence", λ r. r "_source_event_sequence")
      ∷ ("_source_event_subsequence", λ r. r "_source_event_subsequence")
      ∷ ("_source_lsn", optional_column columns "_source_lsn" "long")
      ∷ ("_kafka_partition", optional_column columns "_kafka_partition" "int")
      ∷ ("_kafka_offset", optional_column columns "_kafka_offset" "long")
      ∷ ("_silver_history_ingested_at", λ r. current_timestamp)
      ∷ ("_source_table", λ r. some (text_value contract.table_name))
      ∷ ("_silver_schema_version", λ r. some (number_value (pos silver_schema_version)))
      ∷ []

  abbrev pub missing_columns : SilverTableContract → Frame → Bool
  missing_columns contract df = not (is_nil (difference (required contract) df.columns))

  -- The order of the window casts the event id.
  abbrev pub window_order : List String
  window_order = silver_sequence_columns ++ "_event_id_text" ∷ []

  abbrev pub with_order : Frame → Frame
  with_order df = with_column "_event_id_text" (λ r. cast "string" (r "_event_id")) df

  abbrev pub newest_frame : List String → Frame → Frame
  newest_frame keys df = record {
    columns = df.columns;
    rows = newest_rows keys window_order (with_order df).rows;
  }

  unfoldable pub current_state : Frame → SilverTableContract → Result Frame
  unfolding enforce_types newest_rows select difference is_cdc is_deleted
  current_state df contract = do
    raise_if (missing_columns contract df) (value_error "Missing Bronze columns")
    let typed = enforce_types spark df
    let newest = newest_frame contract.primary_keys (with_ingestion typed)
    ok (select contract.columns (current_columns contract typed.columns) newest)

  unfoldable pub change_history : Frame → SilverTableContract → Result Frame
  unfolding enforce_types select difference is_cdc
  change_history df contract = do
    raise_if (missing_columns contract df) (value_error "Missing Bronze columns")
    let typed = enforce_types spark df
    ok (select contract.columns (history_columns contract typed.columns) (with_ingestion typed))
