-- ===== src/Scd2/Replay.antt =====
-- transformations/gold/scd2.py: the rows that `_replay_single_entity_scd2` selects, for one entity and
-- for a whole history.
use azure_lakehouse_pipeline.Scd2.{
  VersionedEvent, versioned, in_order, last_value, DimensionRow, least, next_boundary, with_type1,
  is_delete, attribute_hash, coalesce, filter_events, equals_text, operation, event_time, is_typed,
  next_column, event_id, delete_text, seed_text, is_boundary, same_version, DimensionOptions,
}
use azure_lakehouse_pipeline.Upsert.{
  eq_scalar, Row, null_safe_eq, coalesced, Cell, gt_scalar, is_none,
}
use azure_lakehouse_pipeline.Prelude.{
  Bool, List, if◌then◌else◌, Option, not, some, map, ◌∷◌, ℕ, false, suc, ◌++◌, none, [],
}
use azure_lakehouse_pipeline.Upsert.Plan.{filter}
use azure_lakehouse_pipeline.Upsert.Table.{drop_duplicates}
use azure_lakehouse_pipeline.Dict.{member}
use azure_lakehouse_pipeline.Upsert.Keys.{same_cell}

abbrev pub is_start : VersionedEvent → Bool
is_start v = coalesced v.is_type2_start

module _ (options : DimensionOptions) where
  open options use {source_key, type1_columns, positive_hash_key, open_end, current_timestamp}

  abbrev pub first_effective_from : Row → Cell
  first_effective_from r =
      least (coalesce (r options.initial_effective_from) (event_time r)) (event_time r)

  unfoldable pub effective_from : Option ℕ → Row → Cell
  unfolding eq_scalar gt_scalar
  effective_from number r =
      if coalesced (equals_text (operation r) seed_text)
      then event_time r
      else if same_version number (some 1)
      then first_effective_from r
      else event_time r

  -- A start with its version number, and the next boundary where there is one.
  unfoldable pub row_of : Option ℕ → Row → Option Row → DimensionRow
  unfolding effective_from eq_scalar
  row_of number r next = record {
    surrogate_key = positive_hash_key (r source_key) (effective_from number r) (attribute_hash r);
    dimension = λ name. if member name options.dimension_columns then r name else none;
    effective_from = effective_from number r;
    effective_to = coalesce (next_column event_time next) (some open_end);
    is_current = is_none (next_column event_time next);
    is_deleted = coalesced (equals_text (next_column operation next) delete_text);
    created_at = current_timestamp;
    updated_at = current_timestamp;
  }

  abbrev pub selected : List VersionedEvent → VersionedEvent → DimensionRow
  selected events v =
      row_of v.version_number (with_type1 type1_columns (filter_events is_typed events) v)
        (next_boundary (event_id v.event) (filter_events is_boundary events))

  abbrev pub select_starts : List VersionedEvent → List DimensionRow
  select_starts events =
      map (selected events) (filter_events is_start (filter_events is_typed events))

  -- The events of one entity, in the order of its windows.
  unfoldable pub replay_entity : List Row → List DimensionRow
  unfolding versioned row_of last_value next_boundary
  replay_entity events = select_starts (versioned none none none events)

  abbrev pub has_key : Row → Bool
  has_key e = not (is_none (e source_key))

  abbrev pub concat_map : (Row → List DimensionRow) → List Row → List DimensionRow
  concat_map f [] = []
  concat_map f (k ∷ ks) = f k ++ concat_map f ks

  abbrev pub of_entity : List Row → Row → List Row
  of_entity events k = filter (λ e. same_cell (e source_key) (k source_key)) events

  -- Every event once, partitioned by the source key.
  unfoldable pub replay_single_entity_scd2 : List Row → List DimensionRow
  unfolding replay_entity in_order drop_duplicates
  replay_single_entity_scd2 history =
      let events = drop_duplicates ("_history_event_id" ∷ []) (filter has_key history) in
      concat_map (λ k. replay_entity (in_order (of_entity events k)))
        (drop_duplicates (source_key ∷ []) events)

  -- The reference: one pass over the events with the open version, where there is one. A DELETE closes
  -- it, an event with its hash refreshes its Type 1 columns, and another hash closes it and opens the
  -- next version.
  abbrev pub deletes : Row → Bool
  deletes e = coalesced (is_delete e)

  abbrev pub refresh : Row → Row → Row
  refresh e version =
      λ name. if member name type1_columns then coalesce (e name) (version name) else version name

  abbrev pub continues : Row → Option Row → Bool
  continues e none = false
  continues e (some version) = null_safe_eq (attribute_hash e) (attribute_hash version)

  abbrev pub next_version : Row → Option Row → Option Row
  next_version e none = if deletes e then none else some e
  next_version e (some version) =
      if deletes e
      then none
      else if continues e (some version)
      then some (refresh e version)
      else some e

  abbrev pub next_number : Row → Option Row → ℕ → ℕ
  next_number e version n = if deletes e then n else if continues e version then n else suc n

  abbrev pub closed : Row → Option Row → ℕ → List DimensionRow
  closed e none n = []
  closed e (some version) n =
      if deletes e
      then row_of (some n) version (some e) ∷ []
      else if continues e (some version)
      then []
      else row_of (some n) version (some e) ∷ []

  unfoldable pub sequential : Option Row → ℕ → List Row → List DimensionRow
  unfolding row_of null_safe_eq eq_scalar
  sequential none n [] = []
  sequential (some version) n [] = row_of (some n) version none ∷ []
  sequential version n (e ∷ es) =
      closed e version n ++ sequential (next_version e version) (next_number e version n) es
