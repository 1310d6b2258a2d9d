-- ===== src/Release.antt =====
-- control/gold_releases.py: the release of Gold that readers see is a property of the fact table.
-- It pins one version of each Gold table.
pub mod Delta
pub mod Parse
pub mod Store
pub mod Publish
pub mod Snapshot
pub mod Values
mod Tests
use azure_lakehouse_pipeline.Prelude.{
  String, List, Option, ◌∷◌, Bool, [], some, if◌then◌else◌, str_eq, ◌==◌, true, none, any, not, ◌^◌,
  false,
}
use azure_lakehouse_pipeline.Prelude.Int.{ℤ, pos, ◌+ℤ◌}
use azure_lakehouse_pipeline.Json.{
  Json, dict, int, Items, str, nil, cons, array, object, entries, bool, float,
}
use azure_lakehouse_pipeline.Dict.{get, Dict, put, map_values, same_set, keys, subset}
use azure_lakehouse_pipeline.Result.{
  Result, raise, ◌>>◌, raise_if, value_error, ok, ◌>>=◌, key_error, index,
}
use text.Mathlib.Text.{is_le}
use Prim.Native.String.{compare}
use azure_lakehouse_pipeline.Contracts.Gold.{gold_tables}

pub record GoldRelease : Type 0 where
  pub batch_id : String
  pub silver_versions : Dict ℤ
  pub gold_versions : Dict ℤ

-- `GoldCandidateManifest` of control/manifests.py.
pub record GoldCandidateManifest : Type 0 where
  pub batch_id : String
  pub changed_tables : List String
  pub committed_versions : Dict ℤ
  pub silver_versions : Dict ℤ
  pub quality_status : String

abbrev gold_pipeline_name : String
gold_pipeline_name = "silver_to_gold"

abbrev pub gold_release_property : String
gold_release_property = "pipeline.goldActiveRelease"

abbrev release_schema_version : ℤ
release_schema_version = pos 1

invalid_entry : String × Json → Bool
invalid_entry (name, int (pos n)) = str_eq name ""
invalid_entry (name, v) = true

check_names : Option (List String) → List String → Result (Unit {0})
check_names none names = ok tt
check_names (some expected) names =
    raise_if (not (same_set names expected)) (value_error "Gold release table set mismatch")

validate_versions : Dict Json → Option (List String) → Result (Unit {0})
unfolding invalid_entry check_names
validate_versions versions expected = do
  raise_if (any invalid_entry versions) (value_error "Invalid Gold release versions")
  check_names expected (keys versions)

-- Only read of a validated dict, whose values are all integers.
version_of : Json → ℤ
version_of (int n) = n
version_of _ = pos 0

versions_from_value : Option Json → Option (List String) → Result (Dict ℤ)
unfolding validate_versions version_of
versions_from_value (some (object fs)) expected = do
  validate_versions (entries fs) expected
  ok (map_values version_of (entries fs))
versions_from_value _ expected = raise (value_error "Invalid Gold release field")

-- `schema_version == RELEASE_SCHEMA_VERSION` of Python, where `True` and `1.0` equal 1 too.
is_current_schema : Option Json → Bool
is_current_schema (some (int (pos n))) = n == 1
is_current_schema (some (bool b)) = b
is_current_schema (some (float (pos m) k)) = m == 2 ^ k
is_current_schema _ = false

batch_id_of : Option Json → Result String
batch_id_of (some (str s)) =
    if str_eq s "" then raise (value_error "Invalid Gold release batch_id") else ok s
batch_id_of _ = raise (value_error "Invalid Gold release batch_id")

release_from_metadata : Dict Json → Result GoldRelease
unfolding get is_current_schema batch_id_of versions_from_value
release_from_metadata metadata = do
  raise_if (not (is_current_schema (get "schema_version" metadata)))
      (value_error "Unsupported Gold release schema")
  batch_id ← batch_id_of (get "batch_id" metadata)
  silver_versions ← versions_from_value (get "silver_versions" metadata) none
  gold_versions ← versions_from_value (get "gold_versions" metadata) (some gold_tables)
  ok (record {
    batch_id = batch_id;
    silver_versions = silver_versions;
    gold_versions = gold_versions;
  })

pub release_from_loaded : Option Json → Result GoldRelease
unfolding release_from_metadata
release_from_loaded none = raise (value_error "Invalid Gold release marker JSON")
release_from_loaded (some (object fs)) = release_from_metadata (entries fs)
release_from_loaded (some _) = raise (value_error "Invalid Gold release marker")

insert_name : String → List String → List String
insert_name k [] = k ∷ []
insert_name k (j ∷ names) = if is_le (compare k j) then k ∷ j ∷ names else j ∷ insert_name k names

-- `sorted(names)`.
sort_names : List String → List String
unfolding insert_name
sort_names [] = []
sort_names (k ∷ names) = insert_name k (sort_names names)

texts : List String → Items
texts [] = nil
texts (s ∷ names) = cons (str s) (texts names)

pub metadata : GoldCandidateManifest → GoldRelease → Json
unfolding sort_names texts
metadata candidate release = dict (
    ("schema_version", int release_schema_version)
    ∷ ("pipeline", str gold_pipeline_name)
    ∷ ("batch_id", str release.batch_id)
    ∷ ("changed_gold_tables", array (texts (sort_names candidate.changed_tables)))
    ∷ ("quality_status", str candidate.quality_status)
    ∷ ("silver_versions", dict (map_values int release.silver_versions))
    ∷ ("gold_versions", dict (map_values int release.gold_versions))
    ∷ [])

-- The checks of `publish`, and the release that it is about to write.
pub candidate_release : GoldCandidateManifest → Result GoldRelease
unfolding validate_versions get put
candidate_release candidate = do
  validate_versions (map_values int candidate.silver_versions) none
  validate_versions (map_values int candidate.committed_versions) (some gold_tables)
  raise_if (not (subset candidate.changed_tables gold_tables))
      (value_error "Unknown changed Gold tables")
  fact_version ← index (get "fact_sales" candidate.committed_versions) (key_error "fact_sales")
  ok (record {
    batch_id = candidate.batch_id;
    silver_versions = candidate.silver_versions;
    gold_versions = put "fact_sales" (fact_version +ℤ pos 1) candidate.committed_versions;
  })
