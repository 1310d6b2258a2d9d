-- ===== src/Ingest/Query.antt =====
-- What the SQL of ingestion/batch/bronze_operations.py selects from the table `change_events`.
use azure_lakehouse_pipeline.Prelude.{
  List, ℕ, String, Option, ◌∷◌, none, map, some, max, [], if◌then◌else◌, ◌-◌, leb, str_eq, ◌&&◌,
  min, ◌+◌, ltb, not, ◌/◌,
}
use azure_lakehouse_pipeline.Dict.{Dict}
use azure_lakehouse_pipeline.Contracts.Bronze.{EventCursor}
use azure_lakehouse_pipeline.Result.{
  Result, ◌>>◌, ok, ◌>>=◌, raise_if, raise, runtime_error, value_error,
}
use azure_lakehouse_pipeline.Delta.{take}

pub record ChangeEvent : Type 0 where
  pub event_id : ℕ
  pub source_table : String
  pub operation : Option String
  pub occurred_at : Option ℕ
  -- The columns of `row_data` as the source table's row type reads them.
  pub row : String → Option String

-- The settings of `config.postgres` and `config.spark` that the batch uses.
pub record BatchConfig : Type 0 where
  pub max_events_per_batch : ℕ
  pub target_events_per_partition : ℕ
  pub max_jdbc_partitions : ℕ

-- `cursor.last_event_id if cursor else 0`.
abbrev pub lower_bound : Option EventCursor → ℕ
lower_bound none = 0
lower_bound (some c) = c.last_event_id

-- `WHERE source_table = table AND event_id > lower`.
unfoldable pub events_after : ℕ → String → List ChangeEvent → List ChangeEvent
events_after lower table [] = []
events_after lower table (e ∷ log) =
    if str_eq e.source_table table && ltb lower e.event_id
    then e ∷ events_after lower table log
    else events_after lower table log

abbrev pub ids : List ChangeEvent → List ℕ
ids log = map (λ e. e.event_id) log

unfoldable pub insert_id : ℕ → List ℕ → List ℕ
insert_id n [] = n ∷ []
insert_id n (m ∷ ns) = if leb n m then n ∷ m ∷ ns else m ∷ insert_id n ns

-- `ORDER BY event_id`.
unfoldable pub order_ids : List ℕ → List ℕ
unfolding insert_id
order_ids [] = []
order_ids (n ∷ ns) = insert_id n (order_ids ns)

unfoldable pub larger : ℕ → Option ℕ → ℕ
larger n none = n
larger n (some m) = max n m

-- `MAX(event_id)`, which is NULL over no rows.
unfoldable pub maximum : List ℕ → Option ℕ
unfolding larger
maximum [] = none
maximum (n ∷ ns) = some (larger n (maximum ns))

-- One row of `batch_upper_bounds_query`: the bounded maximum above the cursor.
unfoldable pub batch_upper_bound :
    BatchConfig → Option EventCursor → String → List ChangeEvent → Option ℕ
unfolding events_after order_ids maximum
batch_upper_bound cfg cursor table log =
    maximum (
      take cfg.max_events_per_batch (order_ids (ids (events_after (lower_bound cursor) table log))))

events_of : String → List ChangeEvent → List ChangeEvent
events_of table [] = []
events_of table (e ∷ log) =
    if str_eq e.source_table table then e ∷ events_of table log else events_of table log

-- Its second column, over every event of the table.
unfoldable pub source_max : String → List ChangeEvent → Option ℕ
unfolding events_of maximum
source_max table log = maximum (ids (events_of table log))

unfoldable pub up_to : ℕ → List ChangeEvent → List ChangeEvent
up_to upper [] = []
up_to upper (e ∷ log) = if leb e.event_id upper then e ∷ up_to upper log else up_to upper log

-- `change_event_query`: the events in the half-open range, or none without an upper bound.
unfoldable pub change_events :
    Option EventCursor → Option ℕ → String → List ChangeEvent → List ChangeEvent
unfolding events_after up_to
change_events cursor none table log = []
change_events cursor (some upper) table log =
    up_to upper (events_after (lower_bound cursor) table log)

-- `math.ceil(span / target)`: exact for the spans below 2 ^ 53, which a float quotient represents.
unfoldable pub jdbc_partition_count : BatchConfig → Option EventCursor → ℕ → ℕ
jdbc_partition_count cfg cursor upper =
    let span = max (upper - lower_bound cursor) 1 in
    min ((span + cfg.target_events_per_partition - 1) / cfg.target_events_per_partition)
      cfg.max_jdbc_partitions

-- The guards of `PostgresReader.read_partitioned_query`.
unfoldable pub read_partitioned_guard : BatchConfig → ℕ → ℕ → ℕ → Result (Unit {0})
read_partitioned_guard cfg lower upper partitions = do
  raise_if (leb upper lower) (value_error "JDBC lower_bound must be smaller than upper_bound")
  raise_if (not (leb 1 partitions && leb partitions cfg.max_jdbc_partitions))
      (value_error "JDBC num_partitions is outside the configured source throttle")

-- The check of one row of `read_batch_upper_bounds`.
unfoldable pub check_regression : Option EventCursor → Option ℕ → Result (Unit {0})
check_regression none source = ok tt
check_regression (some c) none = raise (runtime_error "PostgreSQL change-event sequence regressed")
check_regression (some c) (some m) =
    raise_if (ltb m c.last_event_id) (runtime_error "PostgreSQL change-event sequence regressed")

unfoldable pub bounds_of :
    BatchConfig → List ChangeEvent → Dict (Option EventCursor) → Result (Dict (Option ℕ))
unfolding batch_upper_bound check_regression source_max
bounds_of cfg log [] = ok []
bounds_of cfg log ((table, cursor) ∷ cursors) = do
  check_regression cursor (source_max table log)
  bounds ← bounds_of cfg log cursors
  ok ((table, batch_upper_bound cfg cursor table log) ∷ bounds)

-- The query has one row for each cursor, so no table's bound is missing.
unfoldable pub read_batch_upper_bounds :
    BatchConfig → List ChangeEvent → Dict (Option EventCursor) → Result (Dict (Option ℕ))
unfolding bounds_of
read_batch_upper_bounds cfg log cursors = bounds_of cfg log cursors
