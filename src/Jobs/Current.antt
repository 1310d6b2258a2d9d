-- ===== src/Jobs/Current.antt =====
-- `_is_no_change_batch` and `_downstream_is_current`: when a batch may skip Silver and Gold.
use azure_lakehouse_pipeline.Prelude.Int.{◌+ℤ◌, ℤ, pos, eq_ℤ}
use azure_lakehouse_pipeline.Dict.{get, same_set, keys}
use azure_lakehouse_pipeline.Prelude.{
  Option, List, String, ◌∷◌, none, Bool, some, [], false, if◌then◌else◌, ◌==◌, all, str_eq, not,
  ◌&&◌, ◌*◌, ◌^◌,
}
use azure_lakehouse_pipeline.Json.{JsonCodec, Json, int, float}
use azure_lakehouse_pipeline.Delta.{DeltaPipelineCommit, try_latest_delta_pipeline_commit, Commit}
use azure_lakehouse_pipeline.Manifest.{BronzeTableResult}
use azure_lakehouse_pipeline.Release.{GoldRelease}
use azure_lakehouse_pipeline.Result.{Result, ok, ◌>>=◌, traverse}
use azure_lakehouse_pipeline.Contracts.Silver.{silver_tables}

-- `bool(results) and all(...)`.
unfoldable pub is_no_change_batch : List BronzeTableResult → Bool
is_no_change_batch [] = false
is_no_change_batch (r ∷ rs) =
    all
      (λ (r : BronzeTableResult).
        str_eq r.ingestion_type "incremental" && eq_ℤ r.record_count (pos 0))
      (r ∷ rs)

unfoldable pub sum : List BronzeTableResult → ℤ
unfolding ◌+ℤ◌
sum [] = pos 0
sum (r ∷ rs) = r.record_count +ℤ sum rs

-- `_record_count`.
unfoldable pub total_record_count : List BronzeTableResult → Option ℤ
unfolding sum
total_record_count [] = none
total_record_count (r ∷ rs) = some (sum (r ∷ rs))

abbrev pub silver_pipelines : List String
silver_pipelines = "bronze_to_silver" ∷ "cdc_to_silver" ∷ []

-- `commit.metadata.get("silver_schema_version") != 2`, negated, under Python's equality of numbers.
unfoldable pub is_silver_schema : Option Json → Bool
is_silver_schema (some (int (pos n))) = n == 2
is_silver_schema (some (float (pos m) k)) = m == 2 * 2 ^ k
is_silver_schema _ = false

unfoldable pub committed_version : Option DeltaPipelineCommit → Option ℤ
unfolding get is_silver_schema
committed_version none = none
committed_version (some commit) =
    if is_silver_schema (get "silver_schema_version" commit.metadata)
    then some (pos commit.version)
    else none

unfoldable pub is_at_version : Option ℤ → Option ℤ → Bool
is_at_version (some v) (some w) = eq_ℤ v w
is_at_version _ _ = false

module _ (json : JsonCodec) where
  open json use {Text}

  -- `inspect_table`, on the history of a Silver table that may be missing.
  unfoldable pub inspect_table : Option (List (Commit Text)) → Result (Option ℤ)
  unfolding try_latest_delta_pipeline_commit committed_version
  inspect_table history = do
    commit ← try_latest_delta_pipeline_commit json silver_pipelines history
    ok (committed_version commit)

  -- The comparison of the release's versions with what the tables say. The keys of both dicts are
  -- the Silver tables, so that they are equal where each table has the same version in both.
  unfoldable pub downstream_is_current :
      Option GoldRelease → (String → Option (List (Commit Text))) → Result Bool
  unfolding get inspect_table is_at_version
  downstream_is_current none history = ok false
  downstream_is_current (some release) history =
      if not (same_set (keys release.silver_versions) (keys silver_tables)) then ok false else do
        inspected ←
            traverse
              (λ name. inspect_table (history name) >>= λ v.
                (let p : String × Option ℤ = (name, v) in ok p))
              (keys silver_tables)
        ok (all (λ entry. is_at_version (get entry.0 release.silver_versions) entry.1) inspected)
