-- ===== src/Silver/Builder.antt =====
-- pipelines/build_silver.py: `SilverBuilder` for one table, from its Bronze version to the commits of
-- its Silver table and of its change history.
use azure_lakehouse_pipeline.Prelude.{
  String, Option, some, List, none, if◌then◌else◌, not, ◌∷◌, [], true, Bool,
}
use azure_lakehouse_pipeline.Result.{
  Result, raise, ◌>>=◌, ok, runtime_error, index, raise_if, value_error, ◌>>◌,
}
use azure_lakehouse_pipeline.Dict.{get, Dict}
use azure_lakehouse_pipeline.Json.{JsonCodec, Json, dict, null, str, sorted, int, bool}
use azure_lakehouse_pipeline.Upsert.{Frame}
use azure_lakehouse_pipeline.Contracts.Silver.{SilverTableContract}
use azure_lakehouse_pipeline.Manifest.{BronzeBatchManifest, SilverTableResult}
use azure_lakehouse_pipeline.Delta.{DeltaTableState, try_delta_table_state, Commit}
use azure_lakehouse_pipeline.Prelude.Int.{ℤ, pos_part, pos, eq_ℤ}
use azure_lakehouse_pipeline.Jobs.Current.{is_silver_schema}
use azure_lakehouse_pipeline.Upsert.Plan.{DeltaTables}
use azure_lakehouse_pipeline.Silver.{
  SparkFunctions, append_text, silver_schema_version, silver_change_history_table_name,
  silver_sequence_columns,
}
use azure_lakehouse_pipeline.Silver.Transform.{transform, transform_history}
use azure_lakehouse_pipeline.Upsert.Table.{upsert_table}
use azure_lakehouse_pipeline.Upsert.Soft.{soft_options}
use azure_lakehouse_pipeline.Contracts.Bronze.{bronze_schema_version}

abbrev pub silver_pipeline_name : String
silver_pipeline_name = "bronze_to_silver"

abbrev pub silver_change_history_pipeline_name : String
silver_change_history_pipeline_name = "bronze_to_silver_change_history"

-- What the Bronze table of a source table gives: all its rows, the inserts of a range of its versions,
-- and its history, where there is a table.
pub record BronzeReader (Text : Type 0) : Type 0 where
  pub read_snapshot : Frame
  pub read_changes : ℤ → ℤ → Frame
  pub bronze_history : Option (List (Commit Text))

abbrev optional_int : Option ℤ → Json
optional_int none = null
optional_int (some n) = int n

unfoldable pub progress_metadata : String → ℤ → String → Option ℤ → Json
progress_metadata table_name bronze_version batch_id starting_version = dict (
    ("pipeline", str silver_pipeline_name)
    ∷ ("source_table", str table_name)
    ∷ ("batch_id", str batch_id)
    ∷ ("last_processed_bronze_version", int bronze_version)
    ∷ ("bronze_starting_version", optional_int starting_version)
    ∷ ("silver_schema_version", int (pos silver_schema_version))
    ∷ [])

unfoldable pub history_progress_metadata : String → ℤ → String → Option ℤ → String → Json
history_progress_metadata table_name bronze_version batch_id starting_version pipeline_name = dict (
    ("pipeline", str pipeline_name)
    ∷ ("source_table", str table_name)
    ∷ ("history_table", str (silver_change_history_table_name table_name))
    ∷ ("batch_id", str batch_id)
    ∷ ("last_processed_bronze_version", int bronze_version)
    ∷ ("bronze_starting_version", optional_int starting_version)
    ∷ ("silver_schema_version", int (pos silver_schema_version))
    ∷ ("append_only", bool true)
    ∷ [])

abbrev checked_version : Option Json → Result (Option ℤ)
checked_version (some (int (pos n))) = ok (some (pos n))
checked_version _ = raise (value_error "Invalid Silver Delta progress")

unfoldable pub processed_version : Option (Dict Json) → Result (Option ℤ)
unfolding get
processed_version none = ok none
processed_version (some metadata) = checked_version (get "last_processed_bronze_version" metadata)

unfoldable pub validate_schema_version : Option (Dict Json) → Result (Unit {0})
unfolding get is_silver_schema
validate_schema_version none = raise (runtime_error "Silver schema version is outdated")
validate_schema_version (some metadata) =
    raise_if (not (is_silver_schema (get "silver_schema_version" metadata)))
      (runtime_error "Silver schema version is outdated")

abbrev pub result : SilverTableContract → ℤ → SilverTableResult
result contract committed_version = record {
  table_name = contract.table_name;
  committed_version = committed_version;
  schema_version = pos silver_schema_version;
}

-- What a raise leaves behind is a part of an outcome.
abbrev pub attempt {ℓ} :
    {S : Type 0} {A : Type 0} {B : Type ℓ} → Result A → S → (A → S × Result B) → S × Result B
attempt (raise error) state next = (state, raise error)
attempt (ok a) state next = next a

module _ (json : JsonCodec) where
  open json use {Text, dumps}

  -- `_bronze_version`: from the manifest of the run, or from the state of the table.
  abbrev version_of_manifest : String → BronzeBatchManifest → Result ℤ
  version_of_manifest table_name manifest = do
    result ← index (get table_name manifest.tables) (value_error "Bronze version was not provided")
    raise_if (not (eq_ℤ result.schema_version bronze_schema_version))
        (runtime_error "Bronze schema version is outdated")
    ok result.delta_version

  abbrev version_of_state : Option DeltaTableState → Result ℤ
  version_of_state none = raise (runtime_error "Bronze table is missing")
  version_of_state (some state) = elim state.progress_version [
    | none ↦ raise (runtime_error "Bronze progress metadata is missing")
    | some version ↦ ok (pos version)
  ]

  unfoldable pub bronze_version :
      String → Option BronzeBatchManifest → Option (List (Commit Text)) → Result ℤ
  unfolding get try_delta_table_state
  bronze_version table_name (some manifest) history = version_of_manifest table_name manifest
  bronze_version table_name none history = do
    state ← try_delta_table_state json "postgres_to_bronze" history
    version_of_state state

  module _ (tables : DeltaTables Text) (spark : SparkFunctions) (bronze : BronzeReader Text) where
    open tables use {Table, overwrite, append, history}
    open bronze use {read_snapshot, read_changes}

    -- The Silver table and its change history.
    pub record SilverState : Type 0 where
      pub current : Option Table
      pub change_history : Option Table

    abbrev pub Outcome : Type 0 → Type 0
    Outcome A = SilverState × Result A

    abbrev pub metadata_text : Json → Text
    metadata_text metadata = dumps (sorted metadata)

    abbrev pub application_id : String → String → String
    application_id pipeline_name table_name =
        append_text pipeline_name (append_text ":" (append_text table_name ":v2"))

    -- The transaction is the Bronze version, which is no negative number.
    unfoldable pub append_change_history :
        SilverTableContract → Frame → String → ℤ → Option ℤ → SilverState → SilverState
    append_change_history contract rows batch_id bronze_version starting_version state = record {
      current = state.current;
      change_history = some (
          append (application_id silver_change_history_pipeline_name contract.table_name)
            (pos_part bronze_version)
            (metadata_text (
              history_progress_metadata contract.table_name bronze_version batch_id starting_version
                silver_change_history_pipeline_name))
            rows state.change_history);
    }

    abbrev pub written : Text → Frame → SilverState → SilverState
    written meta rows state = record {
      current = some (overwrite meta rows state.current);
      change_history = state.change_history;
    }

    abbrev pub with_history : Text → Frame → SilverState → SilverState
    with_history meta rows state = record {
      current = state.current;
      change_history = some (overwrite meta rows state.change_history);
    }

    abbrev history_meta : SilverTableContract → ℤ → String → Text
    history_meta contract bronze_version batch_id = metadata_text (
        history_progress_metadata contract.table_name bronze_version batch_id none
          silver_change_history_pipeline_name)

    abbrev pub progress_meta : SilverTableContract → ℤ → String → Option ℤ → Text
    progress_meta contract bronze_version batch_id starting_version =
        metadata_text
          (progress_metadata contract.table_name bronze_version batch_id starting_version)

    abbrev pub history_written :
        SilverTableContract → ℤ → String → SilverState → Frame → Outcome (Unit {0})
    history_written contract bronze_version batch_id after rows =
        (with_history (history_meta contract bronze_version batch_id) rows after, ok tt)

    abbrev pub replace_history : SilverTableContract → ℤ → String → SilverState → Outcome (Unit {0})
    replace_history contract bronze_version batch_id after =
        if not contract.materialize_change_history
        then (after, ok tt)
        else attempt (transform_history spark contract read_snapshot) after
            (history_written contract bronze_version batch_id after)

    abbrev pub write_snapshot :
        SilverTableContract → ℤ → String → SilverState → Frame → Outcome (Unit {0})
    write_snapshot contract bronze_version batch_id state snapshot =
        replace_history contract bronze_version batch_id
          (written (progress_meta contract bronze_version batch_id none) snapshot state)

    unfoldable pub replace_from_snapshot :
        SilverTableContract → ℤ → String → SilverState → Outcome (Unit {0})
    unfolding transform transform_history progress_metadata sorted
    replace_from_snapshot contract bronze_version batch_id state =
        attempt (transform spark contract read_snapshot) state
          (write_snapshot contract bronze_version batch_id state)

    abbrev pub history_appended :
        SilverTableContract → ℤ → String → Option ℤ → SilverState → Frame → Outcome (Unit {0})
    history_appended contract bronze_version batch_id starting_version state rows =
        (append_change_history contract rows batch_id bronze_version starting_version state, ok tt)

    -- The change history first, where the table has one.
    unfoldable pub append_history_of :
        SilverTableContract → Frame → ℤ → String → Option ℤ → SilverState → Outcome (Unit {0})
    unfolding transform_history append_change_history
    append_history_of contract source bronze_version batch_id starting_version state =
        if not contract.materialize_change_history
        then (state, ok tt)
        else attempt (transform_history spark contract source) state (λ rows. (
          append_change_history contract rows batch_id bronze_version starting_version state,
          ok tt,
        ))

    -- `upsert_table` of the transformed rows, with the progress of the Bronze version.
    abbrev pub with_current : SilverState → Bool × Option Table → Outcome (Unit {0})
    with_current state upserted =
        (record { current = upserted.1; change_history = state.change_history }, ok tt)

    abbrev pub upsert_current :
        SilverTableContract → ℤ → String → Option ℤ → SilverState → Frame → Outcome (Unit {0})
    upsert_current contract bronze_version batch_id starting_version state rows =
        attempt
          (upsert_table (soft_options contract.primary_keys silver_sequence_columns) rows tables
            (progress_meta contract bronze_version batch_id starting_version) state.current)
          state (with_current state)

    unfoldable pub merge_current :
        SilverTableContract → Frame → ℤ → String → Option ℤ → SilverState → Outcome (Unit {0})
    unfolding transform upsert_table progress_metadata sorted
    merge_current contract source bronze_version batch_id starting_version state =
        attempt (transform spark contract source) state
          (upsert_current contract bronze_version batch_id starting_version state)

    abbrev pub then_do {ℓ} :
        {A : Type ℓ}
        → Outcome (Unit {0})
        → (SilverState → SilverState × Result A)
        → SilverState × Result A
    then_do (state, raise error) next = (state, raise error)
    then_do (state, ok done) next = next state

    -- `_merge_snapshot_into_unified`, and the same steps on a range of changes.
    unfoldable pub merge_into_silver :
        SilverTableContract → Frame → ℤ → String → Option ℤ → SilverState → Outcome (Unit {0})
    unfolding append_history_of merge_current
    merge_into_silver contract source bronze_version batch_id starting_version state =
        then_do (append_history_of contract source bronze_version batch_id starting_version state)
          (merge_current contract source bronze_version batch_id starting_version)
