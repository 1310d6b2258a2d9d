-- ===== src/Manifest/Decode.antt =====
-- The decoding of each table's metadata in `deserialize_manifest`.
use azure_lakehouse_pipeline.Prelude.{String, ◌≡◌, refl, ap, ◌∙◌, [], ◌∷◌, some, arith, map}
use azure_lakehouse_pipeline.Prelude.Int.{ℤ, pos, negsuc}
use azure_lakehouse_pipeline.Result.{ok, traverse}
use azure_lakehouse_pipeline.Dict.{Dict, get, map_values, values}
use azure_lakehouse_pipeline.Dict.Sort.{sort_keys, insert_key, AllEntries-sort_keys}
use azure_lakehouse_pipeline.Json.{
  int, str, object, of_dict, entries-of_dict, sorted, sorted_fields,
}
use azure_lakehouse_pipeline.Json.Sorted.{sorted_ints}
use azure_lakehouse_pipeline.Manifest.{
  BronzeTableResult, PipelineManifest, bronze, silver, counts, as_counts, as_count, as_text,
  table_name, non_negative_int, string_field, require, encode_bronze, decode_bronze,
  operation_counts, SilverTableResult, decode_silver, encode_silver, by_table_name,
}
use azure_lakehouse_pipeline.Manifest.Valid.{
  IsCount, IsName, AllCounts, IsValidBronze, AllBronze, IsValidSilver, AllSilver,
}
use azure_lakehouse_pipeline.Manifest.Build.{IsOfBatch}

-- The manifest that the reader gets: every dict in the order of its keys.
abbrev pub sorted_result : BronzeTableResult → BronzeTableResult
sorted_result r = record r { operation_counts = sort_keys r.operation_counts }

abbrev pub sorted_manifest : PipelineManifest → PipelineManifest
sorted_manifest (bronze m) =
    bronze (record m { tables = sort_keys (map_values sorted_result m.tables) })
sorted_manifest (silver m) = silver (record m { tables = sort_keys m.tables })

as_count_lem : (n : ℤ) → IsCount n → as_count (some (int n)) ≡ some n
unfolding as_count
as_count_lem (pos n) h = refl
as_count_lem (negsuc n) h = elim h [ ]

pub as_text_lem : (s : String) → IsName s → as_text (some (str s)) ≡ some s
unfolding as_text
as_text_lem s h = rw (h, as_text)

counts_lem : (d : Dict ℤ) → AllCounts d → counts (map_values int d) ≡ some d
unfolding counts
counts_lem [] h = refl
counts_lem ((k, pos n) ∷ d) (hn, h) = rw (counts_lem d h)
counts_lem ((k, negsuc n) ∷ d) (hn, h) = elim hn [ ]

as_counts_lem :
    (d : Dict ℤ)
    → AllCounts d
    → as_counts (some (object (of_dict (sorted_fields (of_dict (map_values int d))))))
      ≡ some (sort_keys d)
unfolding as_counts
as_counts_lem d h =
    ap counts (entries-of_dict (sorted_fields (of_dict (map_values int d))) ∙ sorted_ints d)
    ∙ counts_lem (sort_keys d) (AllEntries-sort_keys (λ _ n. IsCount n) d h)

pub decode-encode_bronze :
    (batch_id name : String) (r : BronzeTableResult)
    → IsValidBronze batch_id name r
    → decode_bronze batch_id (name, sorted (encode_bronze r)) ≡ ok (sorted_result r)
unfolding decode_bronze table_name non_negative_int string_field operation_counts sorted
    encode_bronze insert_key get require
decode-encode_bronze batch_id name r v = ground (
  arith,
  as_count_lem r.record_count v.records,
  as_text_lem r.ingestion_type v.typed,
  as_count_lem r.delta_version v.version,
  as_count_lem r.schema_version v.schema,
  as_counts_lem r.operation_counts v.operations,
)

pub decode-encode_silver :
    (name : String) (r : SilverTableResult)
    → IsValidSilver name r
    → decode_silver (name, sorted (encode_silver r)) ≡ ok (name, r)
unfolding decode_silver table_name non_negative_int sorted encode_silver insert_key get require
decode-encode_silver name r v =
    ground
      (arith, as_count_lem r.committed_version v.version, as_count_lem r.schema_version v.schema)

pub traverse-bronze :
    (batch_id : String) (d : Dict BronzeTableResult)
    → AllBronze batch_id d
    → traverse (decode_bronze batch_id) (map_values (λ r. sorted (encode_bronze r)) d)
      ≡ ok (map sorted_result (values d))
traverse-bronze batch_id [] h = refl
traverse-bronze batch_id ((name, r) ∷ d) (v, h) =
    rw (decode-encode_bronze batch_id name r v, traverse-bronze batch_id d h)

pub traverse-silver :
    (d : Dict SilverTableResult)
    → AllSilver d
    → traverse decode_silver (map_values (λ r. sorted (encode_silver r)) d) ≡ ok d
traverse-silver [] h = refl
traverse-silver ((name, r) ∷ d) (v, h) = rw (decode-encode_silver name r v, traverse-silver d h)

pub by_table_name-results :
    (batch_id : String) (d : Dict BronzeTableResult)
    → AllBronze batch_id d
    → by_table_name (map sorted_result (values d)) ≡ map_values sorted_result d
by_table_name-results batch_id [] h = refl
by_table_name-results batch_id ((name, r) ∷ d) (v, h) =
    cc (v.own_name, by_table_name-results batch_id d h)

pub results-IsOfBatch :
    (batch_id : String) (d : Dict BronzeTableResult)
    → AllBronze batch_id d
    → IsOfBatch batch_id (map sorted_result (values d))
results-IsOfBatch batch_id [] h = tt
results-IsOfBatch batch_id ((name, r) ∷ d) (v, h) = (v.own_batch, results-IsOfBatch batch_id d h)
