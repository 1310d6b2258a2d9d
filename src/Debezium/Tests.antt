-- ===== src/Debezium/Tests.antt =====
-- Runs of the validity of events.
use azure_lakehouse_pipeline.Prelude.{refl, some, String, Option, ◌≡◌, if◌then◌else◌, none, str_eq}
use azure_lakehouse_pipeline.Debezium.{event_error, raw_error, Envelope, is_valid, parse_error}
use azure_lakehouse_pipeline.Debezium.Classified.{classified, event_error-classified}

abbrev envelope : Option String → Option Envelope
envelope op = some (record { op = op; source_schema = some "public"; source_table = some "orders" })

-- A concrete reader of three values.
abbrev parsed : String → Option Envelope
parsed value =
    if str_eq value "create"
    then envelope (some "c")
    else if str_eq value "truncate"
    then envelope (some "t")
    else if str_eq value "no op"
    then envelope none
    else none

create_error : event_error parsed (some "create") ≡ none
unfolding event_error raw_error is_valid parse_error
create_error = refl

truncate_error : event_error parsed (some "truncate") ≡ some "unsupported_operation"
unfolding event_error raw_error is_valid parse_error
truncate_error = refl

event_error-classified_example :
    event_error parsed (some "no op") ≡ classified parsed (some "no op")
event_error-classified_example = event_error-classified parsed (some "no op")
