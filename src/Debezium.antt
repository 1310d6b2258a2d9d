-- ===== src/Debezium.antt =====
-- contracts/cdc_events.py and ingestion/streaming/debezium.py: the validity of a Debezium event, and the
-- quarantine reason that ingestion/streaming/cdc_decoder.py makes of it.
pub mod Classified
mod Tests
use azure_lakehouse_pipeline.Prelude.{
  ℕ, String, Option, some, Bool, if◌then◌else◌, none, not, false, str_eq, ◌||◌, true,
}
use azure_lakehouse_pipeline.Upsert.{and_sql, coalesced, not_sql}

-- The fields of `_envelope` that the validity reads; a field of a NULL struct is NULL.
pub record Envelope : Type 0 where
  pub op : Option String
  pub source_schema : Option String
  pub source_table : Option String

abbrev pub is_not_null {ℓ} : {A : Type ℓ} → Option A → Bool
is_not_null none = false
is_not_null (some a) = true

-- `VALID_DEBEZIUM_OPERATIONS`.
abbrev pub is_debezium_operation : String → Bool
is_debezium_operation op = str_eq op "r" || str_eq op "c" || str_eq op "u" || str_eq op "d"

-- `F.col("_envelope.op").isin(...)`, which is NULL for NULL.
abbrev pub valid_operation : Option String → Option Bool
valid_operation none = none
valid_operation (some op) = some (is_debezium_operation op)

abbrev pub has_source : Option String → Option String → Option Bool
has_source schema table = and_sql (some (is_not_null schema)) (some (is_not_null table))

abbrev pub op_of : Option Envelope → Option String
op_of none = none
op_of (some envelope) = envelope.op

abbrev pub schema_of : Option Envelope → Option String
schema_of none = none
schema_of (some envelope) = envelope.source_schema

abbrev pub table_of : Option Envelope → Option String
table_of none = none
table_of (some envelope) = envelope.source_table

-- A chain of `F.when`: the first condition that is true.
abbrev pub when : Option Bool → String → Option String → Option String
when condition text otherwise = if coalesced condition then some text else otherwise

unfoldable pub is_valid : Option String → Option Envelope → Option Bool
is_valid value envelope =
    and_sql
      (and_sql (and_sql (some (is_not_null value)) (some (is_not_null envelope)))
        (valid_operation (op_of envelope)))
      (has_source (schema_of envelope) (table_of envelope))

unfoldable pub parse_error : Option String → Option Envelope → Option String
parse_error value envelope = when (some (not (is_not_null value))) "tombstone_or_null_value" (
    when (some (not (is_not_null envelope))) "invalid_json" (
      when (not_sql (valid_operation (op_of envelope))) "unsupported_operation" (
        when (not_sql (has_source (schema_of envelope) (table_of envelope)))
          "missing_source_metadata" none)))

abbrev pub or_invalid_event : Option String → String
or_invalid_event none = "invalid_event"
or_invalid_event (some text) = text

-- The first entry of `_decode_error`, without its prefix `raw:`.
unfoldable pub raw_error : Option Bool → Option String → Option String
raw_error valid error = if not (coalesced valid) then some (or_invalid_event error) else none

-- `parsed` is what Spark's `from_json` reads of a value.
module _ (parsed : String → Option Envelope) where
  abbrev pub envelope_of : Option String → Option Envelope
  envelope_of none = none
  envelope_of (some value) = parsed value

  unfoldable pub event_error : Option String → Option String
  event_error value =
      raw_error (is_valid value (envelope_of value)) (parse_error value (envelope_of value))
