-- ===== src/Manifest/Tests.antt =====
-- The manifests of a batch with one changed table.
use azure_lakehouse_pipeline.Manifest.Valid.{IsValidManifest, IsValidBronze}
use azure_lakehouse_pipeline.Manifest.{
  non_empty, deserialize_manifest, BronzeBatchManifest, BronzeTableResult, from_results, bronze,
  by_table_name, serialize_manifest,
}
use azure_lakehouse_pipeline.Dict.{contains, IsDistinct}
use azure_lakehouse_pipeline.Prelude.{◌≡◌, ◌∷◌, [], refl}
use azure_lakehouse_pipeline.Json.Values.{value_codec}
use azure_lakehouse_pipeline.Manifest.Decode.{sorted_manifest}
use azure_lakehouse_pipeline.Prelude.Int.{pos}
use azure_lakehouse_pipeline.Manifest.Sound.{deserialize_sound}
use azure_lakehouse_pipeline.Result.{ok}
use azure_lakehouse_pipeline.Manifest.Build.{IsOfBatch, from_results_complete, from_results_sound}
use azure_lakehouse_pipeline.Manifest.RoundTrip.{deserialize-serialize}

abbrev orders_result : BronzeTableResult
orders_result = record {
  batch_id = "b1";
  table_name = "orders";
  record_count = pos 2;
  ingestion_type = "incremental";
  delta_version = pos 4;
  operation_counts = ("INSERT", pos 1) ∷ ("UPDATE", pos 1) ∷ ("DELETE", pos 0) ∷ [];
  schema_version = pos 1;
}

abbrev orders_manifest : BronzeBatchManifest
orders_manifest = record { batch_id = "b1"; tables = ("orders", orders_result) ∷ [] }

valid_result : IsValidBronze "b1" "orders" orders_result
unfolding non_empty contains
valid_result = record {
  own_batch = refl;
  own_name = refl;
  named = refl;
  records = tt;
  typed = refl;
  version = tt;
  operations = (tt, (tt, (tt, tt)));
  operations_distinct = (refl, (refl, (refl, tt)));
  schema = tt;
}

valid_manifest : IsValidManifest (bronze orders_manifest)
unfolding non_empty contains
valid_manifest = (refl, (refl, tt), (valid_result, tt))

read_back :
    deserialize_manifest value_codec (serialize_manifest value_codec (bronze orders_manifest))
    ≡ ok (sorted_manifest (bronze orders_manifest))
read_back = deserialize-serialize value_codec (bronze orders_manifest) valid_manifest

deserialize-serialize_example :
    deserialize_manifest value_codec (serialize_manifest value_codec (bronze orders_manifest))
    ≡ ok (sorted_manifest (bronze orders_manifest))
deserialize-serialize_example =
    deserialize-serialize value_codec (bronze orders_manifest) valid_manifest

deserialize_sound_example : IsValidManifest (sorted_manifest (bronze orders_manifest))
deserialize_sound_example =
    deserialize_sound value_codec (serialize_manifest value_codec (bronze orders_manifest))
      {m = sorted_manifest (bronze orders_manifest)} read_back

accepted : from_results "b1" (orders_result ∷ []) ≡ ok orders_manifest
unfolding contains
accepted = from_results_complete "b1" (orders_result ∷ []) (refl, tt) (refl, tt)

from_results_complete_example : from_results "b1" (orders_result ∷ []) ≡ ok orders_manifest
unfolding contains
from_results_complete_example =
    from_results_complete "b1" (orders_result ∷ []) (refl, tt) (refl, tt)

from_results_sound_example :
    (orders_manifest ≡ record { batch_id = "b1"; tables = by_table_name (orders_result ∷ []) })
    × IsDistinct (by_table_name (orders_result ∷ []))
    × IsOfBatch "b1" (orders_result ∷ [])
from_results_sound_example =
    from_results_sound "b1" (orders_result ∷ []) {m = orders_manifest} accepted
