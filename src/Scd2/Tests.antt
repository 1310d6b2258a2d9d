-- ===== src/Scd2/Tests.antt =====
-- The replay of a small history of one shop: an insert, an update of the name, and a delete.
use azure_lakehouse_pipeline.Prelude.{
  refl, ℕ, List, ◌∷◌, String, ◌≡◌, if◌then◌else◌, [], str_eq, Bool, some, none, false, true,
}
use azure_lakehouse_pipeline.Upsert.{number_value, text_value, eq_scalar, Row, Cell}
use azure_lakehouse_pipeline.Scd2.Replay.{
  replay_single_entity_scd2, replay_entity, sequential, row_of,
}
use azure_lakehouse_pipeline.Scd2.{DimensionOptions, DimensionRow, in_order, versioned, last_value}
use azure_lakehouse_pipeline.Prelude.Int.{pos}
use azure_lakehouse_pipeline.Upsert.Table.{drop_duplicates}
use azure_lakehouse_pipeline.Scd2.Reference.{replay_entity-sequential, IsUniqueIds}
use azure_lakehouse_pipeline.Scd2.Steps.{IsEvent}

abbrev change : ℕ → String → String → ℕ → Row
change id op hash time = λ name.
    if str_eq name "_history_event_id"
    then some (number_value (pos id))
    else if str_eq name "_operation"
    then some (text_value op)
    else if str_eq name "attribute_hash"
    then some (text_value hash)
    else if str_eq name "_event_time"
    then some (number_value (pos time))
    else if str_eq name "source_shop_id"
    then some (number_value (pos 7))
    else none

abbrev shop_options : DimensionOptions
shop_options = record {
  source_key = "source_shop_id";
  initial_effective_from = "shop_created_at";
  type1_columns = "last_login_at" ∷ [];
  dimension_columns = "source_shop_id" ∷ "attribute_hash" ∷ [];
  open_end = number_value (pos 1000);
  positive_hash_key = λ key from hash. from;
  current_timestamp = some (number_value (pos 900));
}

abbrev shop_changes : List Row
shop_changes = change 1 "INSERT" "a" 10 ∷ change 2 "UPDATE" "b" 20 ∷ change 3 "DELETE" "b" 30 ∷ []

change-IsEvent : (id : ℕ) (op hash : String) (time : ℕ) → IsEvent (change id op hash time)
change-IsEvent id op hash time = record {
  has_operation = (text_value op, refl);
  has_hash = (text_value hash, refl);
  has_id = (number_value (pos id), refl);
}

shop_changes-IsUniqueIds : IsUniqueIds shop_changes
unfolding eq_scalar
shop_changes-IsUniqueIds = ((refl, (refl, tt)), ((refl, tt), (tt, tt)))

replay_entity-sequential_example :
    replay_entity shop_options shop_changes ≡ sequential shop_options none 0 shop_changes
replay_entity-sequential_example =
    replay_entity-sequential shop_options shop_changes refl
      (
        change-IsEvent 1 "INSERT" "a" 10,
        (change-IsEvent 2 "UPDATE" "b" 20, (change-IsEvent 3 "DELETE" "b" 30, tt)),
      )
      shop_changes-IsUniqueIds

abbrev intervals : List DimensionRow → List (Cell × Cell × Bool)
intervals [] = []
intervals (r ∷ rows) = (r.effective_from, r.effective_to, r.is_deleted) ∷ intervals rows

-- Two versions, the second closed by the DELETE.
shop_intervals :
    intervals (replay_single_entity_scd2 shop_options shop_changes)
    ≡ (some (number_value (pos 10)), some (number_value (pos 20)), false)
      ∷ (some (number_value (pos 20)), some (number_value (pos 30)), true)
      ∷ []
unfolding replay_single_entity_scd2 replay_entity in_order drop_duplicates versioned row_of
    last_value
shop_intervals = refl
