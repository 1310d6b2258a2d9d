-- ===== src/Silver/Run.antt =====
-- pipelines/build_silver.py: `run_table`, which replaces, merges or extends a Silver table, and `run`.
use azure_lakehouse_pipeline.Json.{JsonCodec, Json}
use azure_lakehouse_pipeline.Upsert.Plan.{DeltaTables, past}
use azure_lakehouse_pipeline.Silver.{SparkFunctions}
use azure_lakehouse_pipeline.Silver.Builder.{
  BronzeReader, replace_from_snapshot, SilverState, processed_version, merge_into_silver,
  bronze_version, validate_schema_version, then_do, attempt, result, silver_pipeline_name,
}
use azure_lakehouse_pipeline.Prelude.{
  Option, String, List, none, some, Bool, ◌+◌, ◌∷◌, [], not, ℕ, true, false,
}
use azure_lakehouse_pipeline.Contracts.Silver.{
  SilverTableContract, get_silver_contract, silver_tables,
}
use azure_lakehouse_pipeline.Result.{
  Result, raise, ok, runtime_error, ◌>>◌, raise_if, value_error, ◌>>=◌, traverse,
}
use azure_lakehouse_pipeline.Delta.{
  DeltaTableState, latest_delta_pipeline_commit, Commit, try_delta_table_state,
}
use azure_lakehouse_pipeline.Manifest.{SilverTableResult, BronzeBatchManifest, SilverBatchManifest}
use azure_lakehouse_pipeline.Prelude.Int.{ℤ, ◌+ℤ◌, pos, ltb_ℤ, eq_ℤ}
use azure_lakehouse_pipeline.Upsert.Table.{difference, is_nil}
use azure_lakehouse_pipeline.Dict.{keys, Dict, of_entries}
use azure_lakehouse_pipeline.Jobs.Current.{silver_pipelines}

module _ (json : JsonCodec) (tables : DeltaTables json.Text) (spark : SparkFunctions) where
  open json use {Text}
  open tables use {Table}

  abbrev pub history_of : Option Table → Option (List (Commit Text))
  history_of none = none
  history_of (some t) = some (tables.history t)

  module _ (bronze : BronzeReader Text) where
    abbrev pub State : Type 0
    State = SilverState json tables spark bronze

    abbrev pub Ran : Type 0
    Ran = State × Result SilverTableResult

    -- The version that the commit of a whole table gets.
    abbrev pub replaced_version : Option DeltaTableState → ℤ
    replaced_version none = pos 0
    replaced_version (some s) = pos (s.version + 1)

    unfoldable pub replace : SilverTableContract → ℤ → String → Option DeltaTableState → State → Ran
    unfolding replace_from_snapshot
    replace contract version batch_id silver_state state =
        then_do json tables spark bronze
          (replace_from_snapshot json tables spark bronze contract version batch_id state)
          (λ after. (after, ok (result contract (replaced_version silver_state))))

    -- No progress of this pipeline: the snapshot is merged into what another pipeline has written.
    unfoldable pub initialize : SilverTableContract → ℤ → String → State → Ran
    unfolding merge_into_silver latest_delta_pipeline_commit
    initialize contract version batch_id state =
        then_do json tables spark bronze
          (merge_into_silver json tables spark bronze contract bronze.read_snapshot version batch_id
            none state)
          (λ after.
            attempt
              (latest_delta_pipeline_commit json silver_pipelines
                (past tables.history after.current))
              after (λ committed. (after, ok (result contract (pos committed.version)))))

    -- The same Bronze version again.
    unfoldable pub unchanged : SilverTableContract → Option ℕ → State → Ran
    unchanged contract none state =
        (state, raise (runtime_error "Silver progress version is missing"))
    unchanged contract (some v) state = (state, ok (result contract (pos v)))

    -- The changes after the previous Bronze version.
    unfoldable pub extend : SilverTableContract → ℤ → ℤ → String → DeltaTableState → State → Ran
    unfolding merge_into_silver validate_schema_version
    extend contract previous version batch_id silver_state state =
        let start = previous +ℤ pos 1 in
        attempt (validate_schema_version silver_state.progress) state (λ valid.
          then_do json tables spark bronze
            (merge_into_silver json tables spark bronze contract (bronze.read_changes start version)
              version batch_id (some start) state)
            (λ after. (after, ok (result contract (pos (silver_state.version + 1))))))

    -- Whether the Silver table is ahead of Bronze, and whether it is at its version.
    unfoldable pub by_order :
        SilverTableContract → Bool → Bool → ℤ → ℤ → String → DeltaTableState → State → Ran
    unfolding extend unchanged
    by_order contract true at_version previous version batch_id silver_state state =
        (state, raise (runtime_error "Silver progress is ahead of Bronze"))
    by_order contract false true previous version batch_id silver_state state =
        unchanged contract silver_state.progress_version state
    by_order contract false false previous version batch_id silver_state state =
        extend contract previous version batch_id silver_state state

    unfoldable pub after_version :
        SilverTableContract → Option ℤ → ℤ → String → DeltaTableState → State → Ran
    unfolding by_order
    after_version contract none version batch_id silver_state state =
        (state, raise (runtime_error "Silver progress metadata is missing"))
    after_version contract (some previous) version batch_id silver_state state =
        by_order contract (ltb_ℤ version previous) (eq_ℤ previous version) previous version batch_id
          silver_state state

    unfoldable pub from_progress :
        SilverTableContract → ℤ → String → DeltaTableState → Option (Dict Json) → State → Ran
    unfolding initialize after_version processed_version
    from_progress contract version batch_id silver_state none state =
        initialize contract version batch_id state
    from_progress contract version batch_id silver_state (some progress) state =
        attempt (processed_version (some progress)) state
          (λ previous. after_version contract previous version batch_id silver_state state)

    unfoldable pub with_state :
        SilverTableContract → ℤ → String → Bool → Option DeltaTableState → State → Ran
    unfolding replace from_progress
    with_state contract version batch_id full_rebuild none state =
        replace contract version batch_id none state
    with_state contract version batch_id true (some s) state =
        replace contract version batch_id (some s) state
    with_state contract version batch_id false (some s) state =
        from_progress contract version batch_id s s.progress state

    unfoldable pub run_table : Option BronzeBatchManifest → String → String → Bool → State → Ran
    unfolding get_silver_contract bronze_version try_delta_table_state with_state
    run_table manifest table_name batch_id full_rebuild state =
        attempt (get_silver_contract table_name) state (λ contract.
          attempt (bronze_version json table_name manifest bronze.bronze_history) state (λ version.
            attempt (try_delta_table_state json silver_pipeline_name (history_of state.current))
              state
              (λ silver_state.
                with_state contract version batch_id full_rebuild silver_state state)))

  -- The tables of a run; each has a Bronze table, a state of its own and a worker of its own.
  abbrev pub table_names_or_all : Option (List String) → List String
  table_names_or_all none = keys silver_tables
  table_names_or_all (some names) = names

  module _ (bronze : String → BronzeReader Text)
      (states : (name : String) → SilverState json tables spark (bronze name)) where
    abbrev pub named_results : List String → List SilverTableResult → Dict SilverTableResult
    named_results [] results = []
    named_results (name ∷ names) [] = []
    named_results (name ∷ names) (r ∷ results) = (name, r) ∷ named_results names results

    abbrev pub process :
        Option BronzeBatchManifest → String → Bool → String → Result SilverTableResult
    process manifest batch_id full_rebuild name =
        (run_table (bronze name) manifest name batch_id full_rebuild (states name)).1

    -- The results in the order of the names, or the first error in this order.
    unfoldable pub build_silver :
        Option BronzeBatchManifest
        → Option (List String)
        → String
        → Bool
        → Result SilverBatchManifest
    unfolding run_table difference
    build_silver manifest table_names batch_id full_rebuild = do
      let names = table_names_or_all table_names
      raise_if (not (is_nil (difference names (keys silver_tables))))
          (value_error "Unknown silver source tables")
      results ← traverse (process manifest batch_id full_rebuild) names
      ok (record { tables = of_entries (named_results names results) })
