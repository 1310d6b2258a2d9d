-- ===== src/Delta/Tests.antt =====
-- A history whose newest commit is not the pipeline's.
use azure_lakehouse_pipeline.Delta.{
  delta_table_state, Commit, latest_delta_pipeline_commit, found_commit, state_of, first_commit,
  take, progress_history_fallback_limit,
}
use azure_lakehouse_pipeline.Json.Values.{value_codec}
use azure_lakehouse_pipeline.Json.{Json, dict, str}
use azure_lakehouse_pipeline.Prelude.{◌∷◌, some, none, [], ◌≡◌}
use azure_lakehouse_pipeline.Result.{ok}
use azure_lakehouse_pipeline.Delta.Progress.{
  delta_table_state_lem, latest_delta_pipeline_commit_lem,
}

abbrev maintenance : Commit Json
maintenance = record { version = 2; user_metadata = none }

abbrev progress : Commit Json
progress = record {
  version = 1;
  user_metadata = some (dict (("pipeline", str "postgres_to_bronze") ∷ []));
}

delta_table_state_lem_example :
    delta_table_state value_codec "postgres_to_bronze" (maintenance ∷ progress ∷ [])
    ≡ ok (
        state_of value_codec 2 (
          first_commit value_codec
            ("postgres_to_bronze" ∷ [])
            (take progress_history_fallback_limit (maintenance ∷ progress ∷ []))))
delta_table_state_lem_example =
    delta_table_state_lem value_codec "postgres_to_bronze" maintenance (progress ∷ [])

latest_delta_pipeline_commit_lem_example :
    latest_delta_pipeline_commit value_codec
      ("postgres_to_bronze" ∷ [])
      (maintenance ∷ progress ∷ [])
    ≡ found_commit value_codec (
        first_commit value_codec
          ("postgres_to_bronze" ∷ [])
          (take progress_history_fallback_limit (maintenance ∷ progress ∷ [])))
latest_delta_pipeline_commit_lem_example =
    latest_delta_pipeline_commit_lem value_codec "postgres_to_bronze" [] maintenance (progress ∷ [])
