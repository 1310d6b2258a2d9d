-- ===== src/Manifest.antt =====
-- control/manifests.py: the control metadata that one task of the batch flow hands to the next.
pub mod Build
pub mod Valid
pub mod Decode
pub mod RoundTrip
pub mod Sound
mod Tests
use azure_lakehouse_pipeline.Prelude.{
  String, Bool, true, false, not, List, [], ◌∷◌, Option, none, some, str_eq, ◌==◌, length, any,
  if◌then◌else◌,
}
use azure_lakehouse_pipeline.Prelude.Int.{ℤ, pos}
use azure_lakehouse_pipeline.Result.{
  Result, ok, raise, value_error, ◌>>=◌, ◌>>◌, raise_if, traverse,
}
use azure_lakehouse_pipeline.Dict.{Dict, get, of_entries, values, map_values}
use azure_lakehouse_pipeline.Json.{Json, JsonCodec, int, str, object, entries, dict, sorted}

pub record BronzeTableResult : Type 0 where
  pub batch_id : String
  pub table_name : String
  pub record_count : ℤ
  pub ingestion_type : String
  pub delta_version : ℤ
  pub operation_counts : Dict ℤ
  pub schema_version : ℤ

pub record BronzeBatchManifest : Type 0 where
  pub batch_id : String
  pub tables : Dict BronzeTableResult

abbrev pub by_table_name : List BronzeTableResult → Dict BronzeTableResult
by_table_name [] = []
by_table_name (r ∷ results) = (r.table_name, r) ∷ by_table_name results

unfoldable pub from_results : String → List BronzeTableResult → Result BronzeBatchManifest
from_results batch_id results = do
  let tables = of_entries (by_table_name results)
  raise_if (not (length tables == length results))
      (value_error "Bronze manifest contains duplicate table names")
  raise_if (any (λ r. not (str_eq r.batch_id batch_id)) results)
      (value_error "Bronze manifest contains a mismatched batch_id")
  ok (record { batch_id = batch_id; tables = tables })

abbrev pub results : BronzeBatchManifest → List BronzeTableResult
results m = values m.tables

pub record SilverTableResult : Type 0 where
  pub table_name : String
  pub committed_version : ℤ
  pub schema_version : ℤ

pub record SilverBatchManifest : Type 0 where
  pub tables : Dict SilverTableResult

unfoldable pub committed_versions : SilverBatchManifest → Dict ℤ
committed_versions m = map_values (λ r. r.committed_version) m.tables

pub data PipelineManifest : Type 0 where
  bronze : BronzeBatchManifest → PipelineManifest
  silver : SilverBatchManifest → PipelineManifest

pub encode_bronze : BronzeTableResult → Json
encode_bronze r = dict (
    ("record_count", int r.record_count)
    ∷ ("ingestion_type", str r.ingestion_type)
    ∷ ("delta_version", int r.delta_version)
    ∷ ("operation_counts", dict (map_values int r.operation_counts))
    ∷ ("schema_version", int r.schema_version)
    ∷ [])

pub encode_silver : SilverTableResult → Json
encode_silver r =
    dict (
      ("committed_version", int r.committed_version)
      ∷ ("schema_version", int r.schema_version)
      ∷ [])

-- The payload of `serialize_manifest`.
pub payload : PipelineManifest → Json
unfolding encode_bronze encode_silver
payload (bronze m) = dict (
    ("type", str "bronze")
    ∷ ("batch_id", str m.batch_id)
    ∷ ("tables", dict (map_values encode_bronze m.tables))
    ∷ [])
payload (silver m) =
    dict (("type", str "silver") ∷ ("tables", dict (map_values encode_silver m.tables)) ∷ [])

pub non_empty : String → Bool
non_empty s = not (str_eq s "")

-- `_table_name`; the keys of a JSON object are texts.
table_name : String → Result String
unfolding non_empty
table_name name = do
  raise_if (not (non_empty name)) (value_error "Invalid manifest table name")
  ok name

table_values : Json → Result (Dict Json)
table_values (object fs) = ok (entries fs)
table_values _ = raise (value_error "Invalid manifest table metadata")

-- `isinstance(value, int) and not isinstance(value, bool) and value >= 0`.
pub as_count : Option Json → Option ℤ
as_count (some (int (pos n))) = some (pos n)
as_count _ = none

pub as_text : Option Json → Option String
unfolding non_empty
as_text (some (str s)) = elim (non_empty s) [ true ↦ some s | false ↦ none ]
as_text _ = none

require {ℓ} : {A : Type ℓ} → Option A → Result A
require (some a) = ok a
require none = raise (value_error "Invalid manifest field")

non_negative_int : Json → String → Result ℤ
unfolding table_values as_count require get
non_negative_int vs name = do d ← table_values vs; require (as_count (get name d))

string_field : Json → String → Result String
unfolding table_values as_text require get
string_field vs name = do d ← table_values vs; require (as_text (get name d))

cons_count : String → Option ℤ → Option (Dict ℤ) → Option (Dict ℤ)
cons_count k (some n) (some rest) = some ((k, n) ∷ rest)
cons_count k _ _ = none

counts : Dict Json → Option (Dict ℤ)
unfolding as_count cons_count
counts [] = some []
counts ((k, v) ∷ d) = cons_count k (as_count (some v)) (counts d)

as_counts : Option Json → Option (Dict ℤ)
unfolding counts
as_counts (some (object fs)) = counts (entries fs)
as_counts _ = none

operation_counts : Json → Result (Dict ℤ)
unfolding table_values as_counts require get
operation_counts vs = do d ← table_values vs; require (as_counts (get "operation_counts" d))

pub decode_bronze : String → String × Json → Result BronzeTableResult
unfolding table_name non_negative_int string_field operation_counts
decode_bronze batch_id (name, vs) = do
  table ← table_name name
  record_count ← non_negative_int vs "record_count"
  ingestion_type ← string_field vs "ingestion_type"
  delta_version ← non_negative_int vs "delta_version"
  operations ← operation_counts vs
  schema_version ← non_negative_int vs "schema_version"
  ok (record {
    batch_id = batch_id;
    table_name = table;
    record_count = record_count;
    ingestion_type = ingestion_type;
    delta_version = delta_version;
    operation_counts = operations;
    schema_version = schema_version;
  })

pub decode_silver : String × Json → Result (String × SilverTableResult)
unfolding table_name non_negative_int
decode_silver (name, vs) = do
  table ← table_name name
  committed_version ← non_negative_int vs "committed_version"
  schema_version ← non_negative_int vs "schema_version"
  ok (
    table,
    record {
      table_name = table;
      committed_version = committed_version;
      schema_version = schema_version;
    },
  )

-- The first argument is the checked `batch_id`.
pub decode_bronze_payload : Option String → Dict Json → Result PipelineManifest
unfolding decode_bronze from_results
decode_bronze_payload none tables = raise (value_error "Invalid Bronze manifest batch_id")
decode_bronze_payload (some batch_id) tables = do
  results ← traverse (decode_bronze batch_id) tables
  m ← from_results batch_id results
  ok (bronze m)

decode_silver_payload : Dict Json → Result PipelineManifest
unfolding decode_silver
decode_silver_payload tables = do
  results ← traverse decode_silver tables
  ok (silver (record { tables = of_entries results }))

has_type : String → Option Json → Bool
has_type name (some (str s)) = str_eq s name
has_type name _ = false

tables_of : Dict Json → Option Json → Option (Dict Json × Dict Json)
tables_of payload (some (object tables)) = some (payload, entries tables)
tables_of payload _ = none

-- `isinstance(payload, dict) and isinstance(payload.get("tables"), dict)`: the payload's entries
-- and those of its tables.
pub payload_tables : Json → Option (Dict Json × Dict Json)
unfolding get tables_of
payload_tables (object fs) = tables_of (entries fs) (get "tables" (entries fs))
payload_tables _ = none

pub decode_payload : Option (Dict Json × Dict Json) → Result PipelineManifest
unfolding get has_type as_text decode_bronze_payload decode_silver_payload
decode_payload none = raise (value_error "Invalid upstream manifest payload")
decode_payload (some (payload, tables)) =
    let manifest_type = get "type" payload in
    if has_type "bronze" manifest_type
    then decode_bronze_payload (as_text (get "batch_id" payload)) tables
    else if has_type "silver" manifest_type
    then decode_silver_payload tables
    else raise (value_error "Unsupported upstream manifest type")

module _ (json : JsonCodec) where
  open json use {Text, dumps, loads}

  unfoldable pub serialize_manifest : PipelineManifest → Text
  unfolding payload sorted
  serialize_manifest manifest = dumps (sorted (payload manifest))

  decode_loaded : Option Json → Result PipelineManifest
  unfolding payload_tables decode_payload
  decode_loaded none = raise (value_error "Invalid upstream manifest JSON")
  decode_loaded (some value) = decode_payload (payload_tables value)

  unfoldable pub deserialize_manifest : Text → Result PipelineManifest
  unfolding decode_loaded
  deserialize_manifest raw = decode_loaded (loads raw)
