-- ===== src/Silver/Progress.antt =====
-- pipelines/build_silver.py: the progress that a commit carries, as the next run reads it.
use azure_lakehouse_pipeline.Json.{JsonCodec, sorted, Json, IsWellFormed, str, int, null}
use azure_lakehouse_pipeline.Prelude.Int.{ℤ, pos}
use azure_lakehouse_pipeline.Silver.Builder.{progress_metadata}
use azure_lakehouse_pipeline.Delta.{metadata_for_pipelines, payload_for}
use azure_lakehouse_pipeline.Prelude.{String, Option, ◌≡◌, ◌∷◌, some, List, [], none, refl}
use azure_lakehouse_pipeline.Dict.{Dict, get, contains}
use azure_lakehouse_pipeline.Dict.Sort.{insert_key}
use azure_lakehouse_pipeline.Json.Sorted.{sorted-IsWellFormed}
use azure_lakehouse_pipeline.Silver.Builder.{silver_pipeline_name}

module _ (json : JsonCodec) where
  open json use {Text, dumps, loads}

  progress-IsWellFormed :
      (name : String) (v : ℤ) (batch_id : String) (start : Option ℤ)
      → IsWellFormed (progress_metadata name v batch_id start)
  unfolding progress_metadata IsWellFormed contains
  progress-IsWellFormed name v batch_id none =
      (refl, tt, (refl, tt, (refl, tt, (refl, tt, (refl, tt, (refl, tt, tt))))))
  progress-IsWellFormed name v batch_id (some n) =
      (refl, tt, (refl, tt, (refl, tt, (refl, tt, (refl, tt, (refl, tt, tt))))))

  abbrev pub progress_text : String → ℤ → String → Option ℤ → Text
  progress_text name v batch_id start = dumps (sorted (progress_metadata name v batch_id start))

  -- What a later run finds in this metadata.
  pub record IsProgress (v : ℤ) (p : Dict Json) : Type 0 where
    pub version : get "last_processed_bronze_version" p ≡ some (int v)
    pub schema : get "silver_schema_version" p ≡ some (int (pos 2))

  abbrev sorted_progress : String → ℤ → String → Json → Dict Json
  sorted_progress name v batch_id start =
      ("batch_id", str batch_id)
      ∷ ("bronze_starting_version", start)
      ∷ ("last_processed_bronze_version", int v)
      ∷ ("pipeline", str silver_pipeline_name)
      ∷ ("silver_schema_version", int (pos 2))
      ∷ ("source_table", str name)
      ∷ []

  loads-progress_text :
      (name : String) (v : ℤ) (batch_id : String) (start : Option ℤ)
      → loads (progress_text name v batch_id start)
        ≡ some (sorted (progress_metadata name v batch_id start))
  loads-progress_text name v batch_id start =
      let wf =
        sorted-IsWellFormed (progress_metadata name v batch_id start)
          (progress-IsWellFormed name v batch_id start) in
      json.loads-dumps (sorted (progress_metadata name v batch_id start)) wf

  -- Either list of pipelines that a Silver reader asks for names this one.
  pub read_back :
      (name : String) (v : ℤ) (batch_id : String) (start : Option ℤ) (others : List String)
      → (p : Dict Json) × (metadata_for_pipelines json
            (some (progress_text name v batch_id start))
            (silver_pipeline_name ∷ others)
          ≡ some p)
        × IsProgress v p
  unfolding metadata_for_pipelines progress_metadata sorted insert_key get payload_for
  read_back name v batch_id none others = (
    sorted_progress name v batch_id null,
    rw (loads-progress_text name v batch_id none) refl,
    record { version = refl; schema = refl },
  )
  read_back name v batch_id (some n) others = (
    sorted_progress name v batch_id (int n),
    rw (loads-progress_text name v batch_id (some n)) refl,
    record { version = refl; schema = refl },
  )
