-- ===== src/Debezium/Classified.antt =====
-- ingestion/streaming/debezium.py: which events are accepted, and the reason for each other.
use azure_lakehouse_pipeline.Debezium.{
  event_error, raw_error, Envelope, is_valid, parse_error, is_debezium_operation,
}
use azure_lakehouse_pipeline.Prelude.{
  String, Option, some, if◌then◌else◌, none, ◌≡◌, Bool-cases, refl, inl, inr,
}

-- The reason for an event without NULLs in its logic.
unfoldable pub classified_source : Option String → Option String → Option String → Option String
classified_source (some schema) (some table) reason = reason
classified_source _ _ reason = some "missing_source_metadata"

unfoldable pub classified_fields : Option String → Option String → Option String → Option String
unfolding classified_source
classified_fields none schema table = classified_source schema table (some "invalid_event")
classified_fields (some op) schema table =
    if is_debezium_operation op
    then classified_source schema table none
    else some "unsupported_operation"

unfoldable pub classified_envelope : Option Envelope → Option String
unfolding classified_fields
classified_envelope none = some "invalid_json"
classified_envelope (some envelope) =
    classified_fields envelope.op envelope.source_schema envelope.source_table

unfoldable pub classified : (String → Option Envelope) → Option String → Option String
unfolding classified_envelope
classified parsed none = some "tombstone_or_null_value"
classified parsed (some value) = classified_envelope (parsed value)

abbrev envelope_with : Option String → Option String → Option String → Option Envelope
envelope_with op schema table =
    some (record { op = op; source_schema = schema; source_table = table })

-- Any operation of Debezium's in place of "c" gives the same.
error_of_create :
    (value : String) (schema table : Option String)
    → raw_error
        (is_valid (some value) (envelope_with (some "c") schema table))
        (parse_error (some value) (envelope_with (some "c") schema table))
      ≡ classified_fields (some "c") schema table
unfolding raw_error is_valid parse_error classified_fields classified_source
error_of_create value none table = refl
error_of_create value (some schema) none = refl
error_of_create value (some schema) (some table) = refl

error_of_fields :
    (value : String) (op schema table : Option String)
    → raw_error
        (is_valid (some value) (envelope_with op schema table))
        (parse_error (some value) (envelope_with op schema table))
      ≡ classified_fields op schema table
unfolding raw_error is_valid parse_error classified_fields classified_source
error_of_fields value none none table = refl
error_of_fields value none (some schema) none = refl
error_of_fields value none (some schema) (some table) = refl
error_of_fields value (some op) schema table = elim (Bool-cases (is_debezium_operation op)) [
  | inl known ↦ rw known (error_of_create value schema table)
  | inr unknown ↦ rw unknown refl
]

error_of_envelope :
    (value : String) (envelope : Option Envelope)
    → raw_error (is_valid (some value) envelope) (parse_error (some value) envelope)
      ≡ classified_envelope envelope
unfolding raw_error is_valid parse_error classified_envelope
error_of_envelope value none = refl
error_of_envelope value (some envelope) =
    error_of_fields value envelope.op envelope.source_schema envelope.source_table

-- The error of an event, which SQL computes with NULLs, is that of a decision without them: a missing
-- value, then a value that is not read, then an operation that is there and is not one of Debezium's,
-- then a missing schema or table, then a missing operation. Any other event has none.
pub event_error-classified :
    (parsed : String → Option Envelope) (value : Option String)
    → event_error parsed value ≡ classified parsed value
unfolding event_error classified raw_error is_valid parse_error
event_error-classified parsed none = refl
event_error-classified parsed (some value) = error_of_envelope value (parsed value)
