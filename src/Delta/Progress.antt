-- ===== src/Delta/Progress.antt =====
-- The one-commit fast path of `delta_table_state` and `latest_delta_pipeline_commit`.
use azure_lakehouse_pipeline.Json.{JsonCodec, Json}
use azure_lakehouse_pipeline.Delta.{
  delta_table_state, first_commit, Commit, metadata_for_pipelines, state_of, take,
  progress_history_fallback_limit, latest_delta_pipeline_commit, found_commit,
}
use azure_lakehouse_pipeline.Prelude.{
  String, List, ◌∷◌, ◌≡◌, some, [], Option-cases, inl, inr, ap, sym,
}
use azure_lakehouse_pipeline.Dict.{Dict}
use azure_lakehouse_pipeline.Result.{ok}

module _ (json : JsonCodec) where
  open json use {Text}

  first_commit-head :
      (pipelines : List String) (c : Commit Text) (history : List (Commit Text)) {p : Dict Json}
      → metadata_for_pipelines json c.user_metadata pipelines ≡ some p
      → first_commit json pipelines (c ∷ history) ≡ some (c.version, p)
  unfolding first_commit
  first_commit-head pipelines c history h = rw (h, first_commit)

  -- The state of a table with commits is its newest version, with the newest of its last hundred
  -- commits that is the pipeline's, if there is one.
  pub delta_table_state_lem :
      (pipeline : String) (latest : Commit Text) (history : List (Commit Text))
      → delta_table_state json pipeline (latest ∷ history)
        ≡ ok (
            state_of json latest.version (
              first_commit json
                (pipeline ∷ [])
                (take progress_history_fallback_limit (latest ∷ history))))
  unfolding delta_table_state
  delta_table_state_lem pipeline latest history =
      elim (Option-cases (metadata_for_pipelines json latest.user_metadata (pipeline ∷ []))) [
        | inl other ↦ rw (other, delta_table_state)
        | inr (p, own) ↦
            rw (own, delta_table_state)
              (ap (λ x. ok (state_of json latest.version x))
                (sym (first_commit-head (pipeline ∷ []) latest (take 99 history) own)))
      ]

  -- For a list of pipelines and a history that are not empty, the commit that is returned is the newest
  -- of the last hundred that is of one of the pipelines, and without one the error is raised.
  pub latest_delta_pipeline_commit_lem :
      (pipeline : String) (pipelines : List String) (latest : Commit Text)
      (history : List (Commit Text))
      → latest_delta_pipeline_commit json (pipeline ∷ pipelines) (latest ∷ history)
        ≡ found_commit json (
            first_commit json
              (pipeline ∷ pipelines)
              (take progress_history_fallback_limit (latest ∷ history)))
  unfolding latest_delta_pipeline_commit found_commit
  latest_delta_pipeline_commit_lem pipeline pipelines latest history =
      elim (Option-cases
        (metadata_for_pipelines json latest.user_metadata (pipeline ∷ pipelines))) [
          | inl other ↦ rw (other, latest_delta_pipeline_commit)
          | inr (p, own) ↦
              rw (own, latest_delta_pipeline_commit)
                (ap (found_commit json)
                  (sym (first_commit-head (pipeline ∷ pipelines) latest (take 99 history) own)))
        ]

  pub delta_table_state-own :
      (pipeline : String) (latest : Commit Text) (history : List (Commit Text)) {p : Dict Json}
      → metadata_for_pipelines json latest.user_metadata (pipeline ∷ []) ≡ some p
      → delta_table_state json pipeline (latest ∷ history)
        ≡ ok (state_of json latest.version (some (latest.version, p)))
  unfolding delta_table_state
  delta_table_state-own pipeline latest history own = rw (own, delta_table_state)
