-- ===== src/Release/Tests.antt =====
-- The publication of one release over a fact table at version 4.
use azure_lakehouse_pipeline.Dict.Sort.{insert_key}
use azure_lakehouse_pipeline.Dict.{get, put, Dict, contains, IsDistinct}
use azure_lakehouse_pipeline.Release.Parse.{IsValidRelease, sorted_release}
use azure_lakehouse_pipeline.Release.{
  GoldCandidateManifest, candidate_release, metadata, validate_versions, gold_release_property,
  GoldRelease, check_names, invalid_entry,
}
use azure_lakehouse_pipeline.Release.Values.{PropertyTable, value_properties}
use azure_lakehouse_pipeline.Prelude.Int.{ℤ, ◌+ℤ◌, pos}
use azure_lakehouse_pipeline.Release.Store.{latest, publish, snapshot, version_as_of}
use azure_lakehouse_pipeline.Release.Delta.{DeltaProperties, set_delta_table_property, sql_literal}
use azure_lakehouse_pipeline.Json.{sorted, Json}
use azure_lakehouse_pipeline.Prelude.{◌∷◌, ◌≡◌, List, [], String, some, str_eq, false, refl, true}
use azure_lakehouse_pipeline.Json.Values.{value_codec}
use azure_lakehouse_pipeline.Release.Snapshot.{latest_sound, snapshot-publish}
use azure_lakehouse_pipeline.Result.{ok}
use azure_lakehouse_pipeline.Contracts.Gold.{gold_tables}
use azure_lakehouse_pipeline.Release.Publish.{latest-publish, publish-versions}
use azure_lakehouse_pipeline.Json.Plain.{is_plain, is_plain_text}

abbrev at_version : ℤ → List String → Dict ℤ
at_version v [] = []
at_version v (name ∷ names) = (name, v) ∷ at_version v names

abbrev candidate : GoldCandidateManifest
candidate = record {
  batch_id = "b1";
  changed_tables = "fact_sales" ∷ [];
  committed_versions = at_version (pos 4) gold_tables;
  silver_versions = ("orders", pos 2) ∷ [];
  quality_status = "passed";
}

abbrev fact_table : PropertyTable Json
fact_table = record { table_version = pos 4; table_properties = [] }

abbrev delta : DeltaProperties value_codec
delta = value_properties

abbrev release : GoldRelease
unfolding put ◌+ℤ◌
release = record {
  batch_id = "b1";
  silver_versions = ("orders", pos 2) ∷ [];
  gold_versions = put "fact_sales" (pos 5) (at_version (pos 4) gold_tables);
}

candidate_lem : candidate_release candidate ≡ ok release
unfolding candidate_release get put ◌+ℤ◌ validate_versions check_names invalid_entry
candidate_lem = refl

abbrev marker : Json
unfolding metadata sorted
marker = sorted (metadata candidate release)

abbrev published : PropertyTable Json
unfolding marker ◌+ℤ◌
published = record {
  table_version = pos 5;
  table_properties = (gold_release_property, marker) ∷ [];
}

-- The marker has plain strings only.
plain_lem : is_plain (sorted (metadata candidate release)) ≡ true
unfolding is_plain is_plain_text metadata sorted release put ◌+ℤ◌ insert_key
plain_lem = refl

publish_lem : publish value_codec delta candidate fact_table ≡ ok (release, published)
unfolding publish release ◌+ℤ◌ sorted marker set_delta_table_property sql_literal published
publish_lem = rw candidate_lem

silver-IsDistinct : IsDistinct candidate.silver_versions
unfolding contains
silver-IsDistinct = (refl, tt)

gold-IsDistinct : IsDistinct candidate.committed_versions
unfolding contains
gold-IsDistinct =
    (refl, (refl, (refl, (refl, (refl, (refl, (refl, (refl, (refl, (refl, (refl, tt)))))))))))

published-release : latest value_codec delta (some published) ≡ ok (some (sorted_release release))
published-release =
    latest-publish value_codec delta candidate fact_table refl silver-IsDistinct gold-IsDistinct
      publish_lem plain_lem

latest-publish_example :
    latest value_codec delta (some published) ≡ ok (some (sorted_release release))
latest-publish_example =
    latest-publish value_codec delta candidate fact_table refl silver-IsDistinct gold-IsDistinct
      publish_lem plain_lem

latest_sound_example : IsValidRelease (sorted_release release)
latest_sound_example =
    latest_sound value_codec delta published {r = sorted_release release} published-release

publish-versions_example :
    (get "fact_sales" release.gold_versions ≡ some (delta.version published))
    × ((name : String)
        → str_eq "fact_sales" name ≡ false
        → get name release.gold_versions ≡ get name candidate.committed_versions)
unfolding get
publish-versions_example = publish-versions value_codec delta candidate fact_table publish_lem refl

snapshot-publish_example :
    (versions : Dict ℤ) × (v : ℤ) × (snapshot value_codec delta (some published) ≡ ok versions)
    × (version_as_of (some versions) "gold" "dim_shop" ≡ ok (some v))
    × (get "dim_shop" release.gold_versions ≡ some v)
snapshot-publish_example =
    snapshot-publish value_codec delta candidate fact_table "dim_shop" refl silver-IsDistinct
      gold-IsDistinct publish_lem plain_lem refl
