-- ===== src/Manifest/RoundTrip.antt =====
-- `serialize_manifest`, then `deserialize_manifest`.
use azure_lakehouse_pipeline.Prelude.{◌≡◌, ap, ◌∙◌, [], ◌∷◌, some, String, refl, map}
use azure_lakehouse_pipeline.Dict.{Dict, get, map_values, contains, AllEntries, values}
use azure_lakehouse_pipeline.Dict.Sort.{
  sort_keys, insert_key, sort_keys-map_values, map_values-map_values, AllEntries-sort_keys,
  IsDistinct-map_values, IsDistinct-sort_keys,
}
use azure_lakehouse_pipeline.Json.{
  str, object, of_dict, entries-of_dict, sorted, sorted_fields, Json, IsWellFormed, int, JsonCodec,
}
use azure_lakehouse_pipeline.Json.Sorted.{
  sorted_fields-of_dict, of_dict-IsWellFormed, map_values-IsWellFormed, sorted-IsWellFormed,
  ints-IsWellFormed,
}
use azure_lakehouse_pipeline.Manifest.{
  BronzeTableResult, bronze, silver, encode_bronze, SilverTableResult, encode_silver,
  payload_tables, payload, BronzeBatchManifest, SilverBatchManifest, decode_payload,
  decode_bronze_payload, decode_silver_payload, PipelineManifest, serialize_manifest,
  deserialize_manifest,
}
use azure_lakehouse_pipeline.Manifest.Valid.{
  IsValidManifest, IsValidBronze, IsValidSilver, AllBronze,
}
use azure_lakehouse_pipeline.Result.{ok}
use azure_lakehouse_pipeline.Manifest.Decode.{
  sorted_manifest, traverse-silver, by_table_name-results, sorted_result, as_text_lem,
  traverse-bronze, results-IsOfBatch,
}
use azure_lakehouse_pipeline.Dict.Laws.{of_entries-distinct}
use azure_lakehouse_pipeline.Manifest.Build.{from_results_complete}

-- The tables of a loaded payload are the sorted tables, each in its encoding.
sorted_tables {ℓ} :
    {V : Type ℓ} (encode : V → Json) (d : Dict V)
    → sorted_fields (of_dict (map_values encode d))
      ≡ map_values (λ v. sorted (encode v)) (sort_keys d)
sorted_tables encode d =
    sorted_fields-of_dict (map_values encode d)
    ∙ ap sort_keys (map_values-map_values sorted encode d)
    ∙ sort_keys-map_values (λ v. sorted (encode v)) d

bronze-payload :
    (m : BronzeBatchManifest)
    → payload_tables (sorted (payload (bronze m)))
      ≡ some (
        ("batch_id", str m.batch_id)
            ∷ (
              "tables",
              object (of_dict (map_values (λ r. sorted (encode_bronze r)) (sort_keys m.tables))),
            )
            ∷ ("type", str "bronze")
            ∷ [],
        map_values (λ r. sorted (encode_bronze r)) (sort_keys m.tables),
      )
unfolding payload_tables sorted payload insert_key get
bronze-payload m =
    let tables =
      map_values (λ (r : BronzeTableResult). sorted (encode_bronze r)) (sort_keys m.tables) in
    rw sorted_tables (cc (entries-of_dict tables))

silver-payload :
    (m : SilverBatchManifest)
    → payload_tables (sorted (payload (silver m)))
      ≡ some (
        (
          "tables",
          object (of_dict (map_values (λ r. sorted (encode_silver r)) (sort_keys m.tables))),
        )
            ∷ ("type", str "silver")
            ∷ [],
        map_values (λ r. sorted (encode_silver r)) (sort_keys m.tables),
      )
unfolding payload_tables sorted payload insert_key get
silver-payload m =
    let tables =
      map_values (λ (r : SilverTableResult). sorted (encode_silver r)) (sort_keys m.tables) in
    rw sorted_tables (cc (entries-of_dict tables))

decode-bronze :
    (m : BronzeBatchManifest)
    → IsValidManifest (bronze m)
    → decode_bronze_payload
        (some m.batch_id)
        (map_values (λ r. sorted (encode_bronze r)) (sort_keys m.tables))
      ≡ ok (sorted_manifest (bronze m))
unfolding decode_bronze_payload
decode-bronze m (named, distinct, valid) =
    let d = sort_keys m.tables in
    let valid' = AllEntries-sort_keys (IsValidBronze m.batch_id) m.tables valid in
    let same = by_table_name-results m.batch_id d valid' in
    let distinct' =
      IsDistinct-map_values sorted_result d (IsDistinct-sort_keys m.tables distinct) in
    rw
      (
        traverse-bronze m.batch_id d valid',
        from_results_complete m.batch_id (map sorted_result (values d)) (rw same distinct')
            (results-IsOfBatch m.batch_id d valid'),
      )
      (cc (same, sort_keys-map_values sorted_result m.tables))

decode-silver :
    (m : SilverBatchManifest)
    → IsValidManifest (silver m)
    → decode_silver_payload (map_values (λ r. sorted (encode_silver r)) (sort_keys m.tables))
      ≡ ok (sorted_manifest (silver m))
unfolding decode_silver_payload
decode-silver m (distinct, valid) =
    let d = sort_keys m.tables in
    rw (
      traverse-silver d (AllEntries-sort_keys IsValidSilver m.tables valid),
      of_entries-distinct d (IsDistinct-sort_keys m.tables distinct),
    )

pub decode-payload :
    (m : PipelineManifest)
    → IsValidManifest m
    → decode_payload (payload_tables (sorted (payload m))) ≡ ok (sorted_manifest m)
unfolding decode_payload get
decode-payload (bronze m) v = rw (bronze-payload, as_text_lem m.batch_id v.0) (decode-bronze m v)
decode-payload (silver m) v = rw silver-payload (decode-silver m v)

bronze-IsWellFormed :
    (batch_id : String) (d : Dict BronzeTableResult)
    → AllBronze batch_id d
    → AllEntries (λ k r. IsWellFormed (encode_bronze r)) d
unfolding encode_bronze IsWellFormed contains
bronze-IsWellFormed batch_id [] h = tt
bronze-IsWellFormed batch_id ((name, r) ∷ d) (v, h) =
    let operations =
      of_dict-IsWellFormed (map_values int r.operation_counts)
        (ints-IsWellFormed r.operation_counts v.operations_distinct) in
    (
      (refl, tt, (refl, tt, (refl, tt, (refl, operations, (refl, tt, tt))))),
      bronze-IsWellFormed batch_id d h,
    )

silver-IsWellFormed :
    (d : Dict SilverTableResult) → AllEntries (λ k r. IsWellFormed (encode_silver r)) d
unfolding encode_silver IsWellFormed contains
silver-IsWellFormed [] = tt
silver-IsWellFormed ((name, r) ∷ d) = ((refl, tt, (refl, tt, tt)), silver-IsWellFormed d)

payload-IsWellFormed : (m : PipelineManifest) → IsValidManifest m → IsWellFormed (payload m)
unfolding payload IsWellFormed contains
payload-IsWellFormed (bronze m) (named, distinct, valid) = (
  refl,
  tt,
  (
    refl,
    tt,
    (
      refl,
      of_dict-IsWellFormed (map_values encode_bronze m.tables) (
          map_values-IsWellFormed encode_bronze m.tables distinct
            (bronze-IsWellFormed m.batch_id m.tables valid)),
      tt,
    ),
  ),
)
payload-IsWellFormed (silver m) (distinct, valid) = (
  refl,
  tt,
  (
    refl,
    of_dict-IsWellFormed (map_values encode_silver m.tables)
        (map_values-IsWellFormed encode_silver m.tables distinct (silver-IsWellFormed m.tables)),
    tt,
  ),
)

-- A valid manifest comes back from its text with the same content: the same batch id, and the
-- tables and operation counts in the order of their keys.
pub deserialize-serialize :
    (json : JsonCodec) (m : PipelineManifest)
    → IsValidManifest m
    → deserialize_manifest json (serialize_manifest json m) ≡ ok (sorted_manifest m)
unfolding serialize_manifest deserialize_manifest
deserialize-serialize json m v =
    let text = sorted (payload m) in
    rw (json.loads-dumps text (sorted-IsWellFormed (payload m) (payload-IsWellFormed m v)))
      (decode-payload m v)
