-- ===== src/Release/Store.antt =====
-- `GoldReleaseStore`: the active release, its publication and the snapshot that readers pin.
use azure_lakehouse_pipeline.Dict.{get, Dict}
use azure_lakehouse_pipeline.Json.{JsonCodec, sorted}
use azure_lakehouse_pipeline.Release.Delta.{DeltaProperties, set_delta_table_property}
use azure_lakehouse_pipeline.Prelude.{Option, String, none, some, if◌then◌else◌, str_eq}
use azure_lakehouse_pipeline.Release.{
  GoldCandidateManifest, GoldRelease, candidate_release, gold_release_property, release_from_loaded,
  metadata,
}
use azure_lakehouse_pipeline.Result.{Result, ok, ◌>>=◌, raise, runtime_error, index, value_error}
use azure_lakehouse_pipeline.Prelude.Int.{ℤ}

module _ (json : JsonCodec) (delta : DeltaProperties json) where
  open json use {Text, dumps, loads}
  open delta use {Table, properties}

  parse_marker : Option Text → Result (Option GoldRelease)
  parse_marker none = ok none
  parse_marker (some raw) = do release ← release_from_loaded (loads raw); ok (some release)

  -- `None` stands for a missing table or a missing property.
  unfoldable pub latest : Option Table → Result (Option GoldRelease)
  unfolding get parse_marker
  latest none = ok none
  latest (some t) = parse_marker (get gold_release_property (properties t))

  unfoldable pub publish : GoldCandidateManifest → Table → Result (GoldRelease × Table)
  unfolding set_delta_table_property
  publish candidate t = do
    release ← candidate_release candidate
    let text = dumps (sorted (metadata candidate release))
    published ← set_delta_table_property json delta text gold_release_property text t
    ok (release, published)

  -- The versions that `snapshot` pins a reader to.
  unfoldable pub snapshot : Option Table → Result (Dict ℤ)
  unfolding latest
  snapshot t = do
    active ← latest t
    release ← index active (runtime_error "Gold has no published release")
    ok release.gold_versions

-- The `versionAsOf` option of `LakehouseAdapter.read_table` under pinned versions.
unfoldable pub version_as_of : Option (Dict ℤ) → String → String → Result (Option ℤ)
unfolding get
version_as_of none layer table = ok none
version_as_of (some versions) layer table =
    if str_eq layer "gold"
    then elim (get table versions) [
      | none ↦ raise (value_error "Gold table is not part of the published snapshot")
      | some v ↦ ok (some v)
    ]
    else ok none
