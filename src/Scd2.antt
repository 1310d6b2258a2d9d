-- ===== src/Scd2.antt =====
-- transformations/gold/scd2.py: `_replay_single_entity_scd2`, the replay of a change history into the
-- validity intervals of a Type 2 dimension.
pub mod Replay
pub mod Events
pub mod Local
pub mod Steps
pub mod Numbers
pub mod Windowed
pub mod Sequential
pub mod Reference
mod Tests
use azure_lakehouse_pipeline.Prelude.{
  List, Option, String, Bool, ◌∷◌, false, if◌then◌else◌, some, ℕ, none, ltb, ◌+◌, true, ◌||◌, [],
  ◌==◌, ◌&&◌, not,
}
use azure_lakehouse_pipeline.Upsert.{
  Row, eq_scalar, Scalar, gt_scalar, null_safe_eq, Cell, text_value, not_sql, compared, and_sql,
  coalesced, or_sql, is_none,
}
use azure_lakehouse_pipeline.Upsert.Keys.{same_cell}
use azure_lakehouse_pipeline.Dict.{member}

-- The columns of an event that the replay reads by name.
abbrev pub event_time : Row → Cell
event_time e = e "_event_time"

abbrev pub operation : Row → Cell
operation e = e "_operation"

abbrev pub attribute_hash : Row → Cell
attribute_hash e = e "attribute_hash"

abbrev pub event_id : Row → Cell
event_id e = e "_history_event_id"

-- `_event_order_columns`, each ascending with its NULLs last.
abbrev pub event_order_columns : List String
event_order_columns =
    "_event_time" ∷ "_ingestion_priority" ∷ "_source_event_sequence" ∷ "_source_event_subsequence"
    ∷ "_source_lsn" ∷ "_kafka_partition" ∷ "_kafka_offset" ∷ "_history_event_id" ∷ []

abbrev pub before_cell : Cell → Cell → Bool
before_cell none b = false
before_cell (some a) none = true
before_cell (some a) (some b) = gt_scalar b a

unfoldable pub is_before : List String → Row → Row → Bool
unfolding gt_scalar null_safe_eq
is_before [] a b = false
is_before (name ∷ names) a b =
    before_cell (a name) (b name) || (null_safe_eq (a name) (b name) && is_before names a b)

unfoldable pub insert_event : Row → List Row → List Row
unfolding is_before
insert_event e [] = e ∷ []
insert_event e (f ∷ es) =
    let rest = insert_event e es in
    if is_before event_order_columns f e then f ∷ rest else e ∷ f ∷ es

unfoldable pub in_order : List Row → List Row
unfolding insert_event
in_order [] = []
in_order (e ∷ es) = insert_event e (in_order es)

-- `_operation = 'DELETE'` and its negation, which are NULL for no operation.
abbrev pub delete_text : Scalar
delete_text = text_value "DELETE"

abbrev pub equals_text : Cell → Scalar → Option Bool
equals_text cell value = compared eq_scalar cell (some value)

abbrev pub is_delete : Row → Option Bool
is_delete e = equals_text (operation e) delete_text

abbrev pub is_non_delete : Row → Option Bool
is_non_delete e = not_sql (is_delete e)

-- An event with `_is_type2_start` and `_version_number`.
pub record VersionedEvent : Type 0 where
  pub event : Row
  pub is_type2_start : Option Bool
  pub version_number : Option ℕ

abbrev pub coalesce : Cell → Cell → Cell
coalesce none b = b
coalesce (some a) b = some a

-- The window over the preceding rows: the last hash of an event that is no DELETE, the operation of
-- the row before, and the running sum of the starts.
abbrev pub non_delete_hash : Row → Cell → Cell
non_delete_hash e previous =
    coalesce (if coalesced (is_non_delete e) then attribute_hash e else none) previous

unfoldable pub type2_start : Cell → Cell → Row → Option Bool
unfolding null_safe_eq eq_scalar
type2_start previous_hash previous_operation e = and_sql (is_non_delete e) (
    or_sql
      (or_sql (some (is_none previous_hash))
        (some (not (null_safe_eq (attribute_hash e) previous_hash))))
      (equals_text previous_operation delete_text))

abbrev pub as_int : Bool → ℕ
as_int true = 1
as_int false = 0

abbrev pub running_sum : Option ℕ → Option Bool → Option ℕ
running_sum n none = n
running_sum none (some b) = some (as_int b)
running_sum (some n) (some b) = some (n + as_int b)

unfoldable pub versioned : Cell → Cell → Option ℕ → List Row → List VersionedEvent
unfolding type2_start eq_scalar
versioned previous_hash previous_operation number [] = []
versioned previous_hash previous_operation number (e ∷ es) =
    let start = type2_start previous_hash previous_operation e in
    record { event = e; is_type2_start = start; version_number = running_sum number start }
    ∷ versioned (non_delete_hash e previous_hash) (operation e) (running_sum number start) es

abbrev pub filter_events : (VersionedEvent → Bool) → List VersionedEvent → List VersionedEvent
filter_events p [] = []
filter_events p (v ∷ vs) = let rest = filter_events p vs in if p v then v ∷ rest else rest

abbrev pub is_positive : Option ℕ → Option Bool
is_positive none = none
is_positive (some n) = some (ltb 0 n)

abbrev pub is_typed : VersionedEvent → Bool
is_typed v = coalesced (and_sql (is_non_delete v.event) (is_positive v.version_number))

-- `F.last(column, True)` over the typed events of the same version.
abbrev pub same_version : Option ℕ → Option ℕ → Bool
same_version none none = true
same_version (some m) (some n) = m == n
same_version _ _ = false

unfoldable pub last_value : String → Option ℕ → List VersionedEvent → Cell
last_value column number [] = none
last_value column number (v ∷ vs) =
    let rest = last_value column number vs in
    coalesce rest (if same_version v.version_number number then v.event column else none)

abbrev pub with_type1 : List String → List VersionedEvent → VersionedEvent → Row
with_type1 columns typed v =
    λ name. if member name columns then last_value name v.version_number typed else v.event name

-- The events that end a version: the starts and the DELETEs.
abbrev pub is_boundary : VersionedEvent → Bool
is_boundary v = coalesced (or_sql v.is_type2_start (is_delete v.event))

-- The columns that `lead` reads of the next boundary, joined by the event id.
abbrev pub first_event : List VersionedEvent → Option Row
first_event [] = none
first_event (v ∷ vs) = some v.event

unfoldable pub next_boundary : Cell → List VersionedEvent → Option Row
unfolding eq_scalar
next_boundary id [] = none
next_boundary id (v ∷ vs) =
    let rest = next_boundary id vs in
    if same_cell (event_id v.event) id then first_event vs else rest

abbrev pub next_column : (Row → Cell) → Option Row → Cell
next_column column none = none
next_column column (some e) = column e

pub record DimensionRow : Type 0 where
  pub surrogate_key : Cell
  pub dimension : Row
  pub effective_from : Cell
  pub effective_to : Cell
  pub is_current : Bool
  pub is_deleted : Bool
  pub created_at : Cell
  pub updated_at : Cell

-- `F.least`, which skips NULLs.
abbrev pub least : Cell → Cell → Cell
least none b = b
least (some a) none = some a
least (some a) (some b) = if gt_scalar a b then some b else some a

abbrev pub seed_text : Scalar
seed_text = text_value "SEED"

-- The columns of a dimension, the constant `OPEN_ENDED_EFFECTIVE_TO`, the hash of the surrogate key
-- and the time of the job.
pub record DimensionOptions : Type 0 where
  pub source_key : String
  pub initial_effective_from : String
  pub type1_columns : List String
  pub dimension_columns : List String
  pub open_end : Scalar
  pub positive_hash_key : Cell → Cell → Cell → Cell
  pub current_timestamp : Cell
