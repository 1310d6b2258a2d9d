-- ===== src/Manifest/Valid.antt =====
-- What a manifest that crosses a task boundary promises.
use azure_lakehouse_pipeline.Prelude.{String, true, ◌≡◌}
use azure_lakehouse_pipeline.Prelude.Int.{ℤ, pos, negsuc}
use azure_lakehouse_pipeline.Dict.{Dict, IsDistinct, AllEntries}
use azure_lakehouse_pipeline.Manifest.{
  BronzeTableResult, SilverTableResult, PipelineManifest, bronze, silver, non_empty,
}

abbrev pub IsCount : ℤ → Type 0
IsCount (pos n) = Unit
IsCount (negsuc n) = ⊥

abbrev pub IsName : String → Type 0
unfolding non_empty
IsName s = non_empty s ≡ true

abbrev pub AllCounts : Dict ℤ → Type 0
AllCounts = AllEntries (λ _ n. IsCount n)

pub record IsValidBronze (batch_id name : String) (r : BronzeTableResult) : Type 0 where
  pub own_batch : r.batch_id ≡ batch_id
  pub own_name : r.table_name ≡ name
  pub named : IsName name
  pub records : IsCount r.record_count
  pub typed : IsName r.ingestion_type
  pub version : IsCount r.delta_version
  pub operations : AllCounts r.operation_counts
  pub operations_distinct : IsDistinct r.operation_counts
  pub schema : IsCount r.schema_version

abbrev pub AllBronze : String → Dict BronzeTableResult → Type 0
AllBronze batch_id = AllEntries (IsValidBronze batch_id)

pub record IsValidSilver (name : String) (r : SilverTableResult) : Type 0 where
  pub own_name : r.table_name ≡ name
  pub named : IsName name
  pub version : IsCount r.committed_version
  pub schema : IsCount r.schema_version

abbrev pub AllSilver : Dict SilverTableResult → Type 0
AllSilver = AllEntries IsValidSilver

-- The batch id is a name, no table occurs twice, and each result is valid under its own name.
abbrev pub IsValidManifest : PipelineManifest → Type 0
IsValidManifest (bronze m) = IsName m.batch_id × IsDistinct m.tables × AllBronze m.batch_id m.tables
IsValidManifest (silver m) = IsDistinct m.tables × AllSilver m.tables
