-- ===== src/Ingest/Extract.antt =====
-- `BronzeExtractor.run` and `extract_all_to_bronze`: the tables of one batch, in a pool of
-- threads.
use azure_lakehouse_pipeline.Prelude.{
  List, String, Option, some, none, ◌∷◌, [], ℕ, if◌then◌else◌, str_eq, Bool,
}
use azure_lakehouse_pipeline.Dict.{Dict, get, keys, of_entries, subset}
use azure_lakehouse_pipeline.Json.{JsonCodec}
use azure_lakehouse_pipeline.Ingest.Table.{BronzeState, BronzeRow, table_state, run_table}
use azure_lakehouse_pipeline.Delta.Log.{DeltaLog}
use azure_lakehouse_pipeline.Contracts.Bronze.{EventCursor, bronze_tables}
use azure_lakehouse_pipeline.Ingest.Query.{BatchConfig, ChangeEvent, read_batch_upper_bounds}
use azure_lakehouse_pipeline.Result.{
  Result, traverse, ◌>>=◌, ok, raise, index, value_error, key_error,
}
use azure_lakehouse_pipeline.Manifest.{BronzeBatchManifest, from_results, BronzeTableResult}

-- The Bronze tables by name, where `none` is a missing table.
abbrev pub set_table {ℓ} :
    {T : Type ℓ} → String → Option T → (String → Option T) → String → Option T
set_table name t lake = λ n. if str_eq name n then t else lake n

abbrev pub cursors : List BronzeState → Dict (Option EventCursor)
cursors [] = []
cursors (s ∷ states) = (s.table_name, s.cursor) ∷ cursors states

module _ (json : JsonCodec) (delta : DeltaLog json.Text BronzeRow) (cfg : BatchConfig)
    (batch_id : String) (log : List ChangeEvent) where
  open delta use {Table}

  unfoldable pub table_states : List String → (String → Option Table) → Result (List BronzeState)
  unfolding table_state
  table_states names lake = traverse (λ name. table_state json delta name (lake name)) names

  -- `process`.
  unfoldable pub process :
      Dict (Option ℕ)
      → BronzeState
      → (String → Option Table)
      → Result (BronzeTableResult × Option Table)
  unfolding run_table get
  process bounds s lake = do
    bound ← index (get s.table_name bounds) (key_error "upper_bounds")
    run_table json delta cfg batch_id log s bound (lake s.table_name)

  -- A table of the pool whose result is not read: its commit stays, its error is lost.
  unfoldable pub run_unread :
      Dict (Option ℕ) → BronzeState → (String → Option Table) → (String → Option Table)
  unfolding process
  run_unread bounds s lake = elim (process bounds s lake) [
    | raise e ↦ lake
    | ok (r, t) ↦ set_table s.table_name t lake
  ]

  -- The tables after the first one that raises: those that the pool has not started are cancelled, and
  -- the others run to their end. `is_cancelled` says which, and depends on the timing of the threads.
  unfoldable pub run_started :
      (String → Bool)
      → List BronzeState
      → Dict (Option ℕ)
      → (String → Option Table)
      → (String → Option Table)
  unfolding run_unread
  run_started is_cancelled [] bounds lake = lake
  run_started is_cancelled (s ∷ states) bounds lake =
      run_started is_cancelled states bounds
        (if is_cancelled s.table_name then lake else run_unread bounds s lake)

  -- `list(executor.map(process, states))`. The tables of one batch are different ones, so that the order
  -- in which the threads commit does not show; the results are read in the order of the states.
  unfoldable pub run_tables :
      (String → Bool)
      → List BronzeState
      → Dict (Option ℕ)
      → (String → Option Table)
      → Result (List BronzeTableResult) × (String → Option Table)
  unfolding process run_started
  run_tables is_cancelled [] bounds lake = (ok [], lake)
  run_tables is_cancelled (s ∷ states) bounds lake = elim (process bounds s lake) [
    | raise e ↦ (raise e, run_started is_cancelled states bounds lake)
    | ok (r, t) ↦
        let rest = run_tables is_cancelled states bounds (set_table s.table_name t lake) in
        (rest.0 >>= λ rs. ok (r ∷ rs), rest.1)
  ]

  unfoldable pub prepare :
      List String → (String → Option Table) → Result (List BronzeState × Dict (Option ℕ))
  unfolding table_states read_batch_upper_bounds
  prepare names lake = do
    states ← table_states names lake
    bounds ← read_batch_upper_bounds cfg log (of_entries (cursors states))
    ok (states, bounds)

  unfoldable pub run :
      (String → Bool)
      → List String
      → (String → Option Table)
      → Result BronzeBatchManifest × (String → Option Table)
  unfolding prepare run_tables from_results
  run is_cancelled names lake = elim (prepare names lake) [
    | raise e ↦ (raise e, lake)
    | ok (states, bounds) ↦
        let done = run_tables is_cancelled states bounds lake in
        (done.0 >>= λ rs. from_results batch_id rs, done.1)
  ]

  abbrev pub tables_or_all : Option (List String) → List String
  tables_or_all none = keys bronze_tables
  tables_or_all (some names) = names

  unfoldable pub extract_all_to_bronze :
      (String → Bool)
      → Option (List String)
      → (String → Option Table)
      → Result BronzeBatchManifest × (String → Option Table)
  unfolding run
  extract_all_to_bronze is_cancelled table_names lake =
      if subset (tables_or_all table_names) (keys bronze_tables)
      then run is_cancelled (tables_or_all table_names) lake
      else (raise (value_error "Unknown source tables"), lake)
