-- ===== src/Delta.antt =====
-- adapters/lakehouse.py: the progress of a pipeline, read from the history of a Delta table.
pub mod Log
pub mod Progress
pub mod Values
mod Tests
use azure_lakehouse_pipeline.Prelude.{
  ℕ, Option, List, String, none, Bool, some, [], suc, ◌∷◌, zero, if◌then◌else◌, false,
}
use azure_lakehouse_pipeline.Json.{JsonCodec, Json, str, object, entries}
use azure_lakehouse_pipeline.Dict.{get, Dict, member}
use azure_lakehouse_pipeline.Result.{Result, ok, raise, runtime_error, value_error, ◌>>=◌}

-- One entry of a table's history, newest first, with the `userMetadata` of its commit.
pub record Commit (Text : Type 0) : Type 0 where
  pub version : ℕ
  pub user_metadata : Option Text

pub record DeltaTableState : Type 0 where
  pub version : ℕ
  pub progress_version : Option ℕ
  pub progress : Option (Dict Json)

pub record DeltaPipelineCommit : Type 0 where
  pub version : ℕ
  pub metadata : Dict Json

abbrev pub progress_history_fallback_limit : ℕ
progress_history_fallback_limit = 100

abbrev pub take {ℓ} : {A : Type ℓ} → ℕ → List A → List A
take zero xs = []
take (suc n) [] = []
take (suc n) (x ∷ xs) = x ∷ take n xs

-- `payload.get("pipeline") in pipelines`.
names_pipeline : Option Json → List String → Bool
names_pipeline (some (str s)) pipelines = member s pipelines
names_pipeline _ pipelines = false

unfoldable pub payload_for : Option Json → List String → Option (Dict Json)
unfolding get names_pipeline
payload_for (some (object fs)) pipelines =
    if names_pipeline (get "pipeline" (entries fs)) pipelines then some (entries fs) else none
payload_for _ pipelines = none

module _ (json : JsonCodec) where
  open json use {Text, loads}

  unfoldable pub metadata_for_pipelines : Option Text → List String → Option (Dict Json)
  unfolding payload_for
  metadata_for_pipelines none pipelines = none
  metadata_for_pipelines (some raw) pipelines = payload_for (loads raw) pipelines

  -- The first commit, newest first, whose metadata is of one of the pipelines.
  unfoldable pub first_commit : List String → List (Commit Text) → Option (ℕ × Dict Json)
  unfolding metadata_for_pipelines
  first_commit pipelines [] = none
  first_commit pipelines (c ∷ history) = elim (metadata_for_pipelines c.user_metadata pipelines) [
    | some p ↦ some (c.version, p)
    | none ↦ first_commit pipelines history
  ]

  unfoldable pub state_of : ℕ → Option (ℕ × Dict Json) → DeltaTableState
  state_of version none = record { version = version; progress_version = none; progress = none }
  state_of version (some (v, p)) = record {
    version = version;
    progress_version = some v;
    progress = some p;
  }

  -- `delta_table_state`: one commit is read first, and a bounded history only if that is not the
  -- pipeline's.
  unfoldable pub delta_table_state : String → List (Commit Text) → Result DeltaTableState
  unfolding metadata_for_pipelines first_commit state_of
  delta_table_state pipeline [] = raise (runtime_error "Delta history is empty")
  delta_table_state pipeline (latest ∷ history) =
      elim (metadata_for_pipelines latest.user_metadata (pipeline ∷ [])) [
        | some p ↦ ok (state_of latest.version (some (latest.version, p)))
        | none ↦ ok (
            state_of latest.version (
              first_commit (pipeline ∷ [])
                (take progress_history_fallback_limit (latest ∷ history))))
      ]

  -- `None` stands for a missing table.
  unfoldable pub try_delta_table_state :
      String → Option (List (Commit Text)) → Result (Option DeltaTableState)
  unfolding delta_table_state
  try_delta_table_state pipeline none = ok none
  try_delta_table_state pipeline (some history) = do
    state ← delta_table_state pipeline history
    ok (some state)

  pub found_commit : Option (ℕ × Dict Json) → Result DeltaPipelineCommit
  found_commit none = raise (runtime_error "Delta data progress metadata is missing")
  found_commit (some (v, p)) = ok (record { version = v; metadata = p })

  unfoldable pub latest_delta_pipeline_commit :
      List String → List (Commit Text) → Result DeltaPipelineCommit
  unfolding metadata_for_pipelines first_commit found_commit
  latest_delta_pipeline_commit [] history = raise (value_error "pipelines must not be empty")
  latest_delta_pipeline_commit (p ∷ pipelines) [] = raise (runtime_error "Delta history is empty")
  latest_delta_pipeline_commit (p ∷ pipelines) (latest ∷ history) =
      elim (metadata_for_pipelines latest.user_metadata (p ∷ pipelines)) [
        | some m ↦ ok (record { version = latest.version; metadata = m })
        | none ↦
            found_commit (
              first_commit (p ∷ pipelines)
                (take progress_history_fallback_limit (latest ∷ history)))
      ]

  unfoldable pub try_latest_delta_pipeline_commit :
      List String → Option (List (Commit Text)) → Result (Option DeltaPipelineCommit)
  unfolding latest_delta_pipeline_commit
  try_latest_delta_pipeline_commit pipelines none = ok none
  try_latest_delta_pipeline_commit pipelines (some history) = do
    c ← latest_delta_pipeline_commit pipelines history
    ok (some c)
