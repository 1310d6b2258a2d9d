-- ===== src/Scd2/Local.antt =====
-- transformations/gold/scd2.py: the windows and the join of the replay, read from the events after a
-- start alone.
use azure_lakehouse_pipeline.Prelude.{
  List, Option, ◌∷◌, String, All, ◌≡◌, ℕ, [], if◌then◌else◌, ◌++◌, Bool-cases, true, false, inl,
  refl, ap, inr, map, ◌∙◌, sym, All-map,
}
use azure_lakehouse_pipeline.Upsert.{Row}
use azure_lakehouse_pipeline.Scd2.{
  VersionedEvent, last_value, next_boundary, DimensionOptions, coalesce, DimensionRow, first_event,
  filter_events, event_id, same_version, is_boundary, is_typed, is_delete,
}
use azure_lakehouse_pipeline.Scd2.Replay.{row_of, is_start, selected, select_starts}
use azure_lakehouse_pipeline.Upsert.Keys.{same_cell}
use azure_lakehouse_pipeline.Dict.{member}
use mathlib.Core.Path.{ap₂, fun_ext}
use mathlib.Core.List.{append_assoc}
use azure_lakehouse_pipeline.Scd2.Events.{
  All-append, filter_events-append, start-boundary, filter_events-kept, filter_events-dropped,
  next_boundary-append, last_value-append, All-filter_events,
}

-- What an earlier event may not share with a later one: its id, and the version of a start.
abbrev pub AreApart : VersionedEvent → VersionedEvent → Type 0
AreApart v w =
    (same_cell (event_id v.event) (event_id w.event) ≡ false)
    × (is_start w ≡ true → same_version v.version_number w.version_number ≡ false)

-- A start is typed, its version has a number, and it has an id.
abbrev pub IsStartTyped : VersionedEvent → Type 0
IsStartTyped v =
    is_start v ≡ true
    → (is_typed v ≡ true)
      × (same_version v.version_number v.version_number ≡ true)
      × (same_cell (event_id v.event) (event_id v.event) ≡ true)

abbrev pub IsHistory : List VersionedEvent → Type 0
IsHistory [] = Unit
IsHistory (v ∷ vs) = IsStartTyped v × All (AreApart v) vs × IsHistory vs

module _ (options : DimensionOptions) where
  open options use {type1_columns}

  -- The Type 1 columns of a version after the events that follow it.
  abbrev pub refreshed : Option ℕ → Row → List VersionedEvent → Row
  refreshed number version later = λ name.
      if member name type1_columns
      then coalesce (last_value name number (filter_events is_typed later)) (version name)
      else version name

  abbrev pub local_row : VersionedEvent → List VersionedEvent → DimensionRow
  local_row v later =
      row_of options v.version_number (refreshed v.version_number v.event later)
        (first_event (filter_events is_boundary later))

  unfoldable pub local_rows : List VersionedEvent → List DimensionRow
  unfolding row_of last_value
  local_rows [] = []
  local_rows (v ∷ later) =
      let rest = local_rows later in if is_start v then local_row v later ∷ rest else rest

  module _ (v : VersionedEvent) (before later : List VersionedEvent) where
    last_value-here :
        (name : String)
        → All (λ p. same_version p.version_number v.version_number ≡ false) before
        → is_typed v ≡ true
        → same_version v.version_number v.version_number ≡ true
        → last_value name v.version_number (filter_events is_typed (before ++ v ∷ later))
          ≡ coalesce
              (last_value name v.version_number (filter_events is_typed later))
              (v.event name)
    unfolding last_value
    last_value-here name apart typed same =
        ap (last_value name v.version_number) (filter_events-append is_typed before (v ∷ later))
        ∙ last_value-append name v.version_number (filter_events is_typed before)
            (filter_events is_typed (v ∷ later))
            (All-filter_events (λ p. same_version p.version_number v.version_number ≡ false)
              is_typed before apart)
        ∙ ap (last_value name v.version_number) (filter_events-kept is_typed v later typed)
        ∙ rw same refl

    next_boundary-here :
        All (λ p. same_cell (event_id p.event) (event_id v.event) ≡ false) before
        → is_boundary v ≡ true
        → same_cell (event_id v.event) (event_id v.event) ≡ true
        → next_boundary (event_id v.event) (filter_events is_boundary (before ++ v ∷ later))
          ≡ first_event (filter_events is_boundary later)
    unfolding next_boundary
    next_boundary-here apart boundary same =
        ap (next_boundary (event_id v.event)) (filter_events-append is_boundary before (v ∷ later))
        ∙ next_boundary-append (event_id v.event) (filter_events is_boundary before)
            (filter_events is_boundary (v ∷ later))
            (All-filter_events (λ p. same_cell (event_id p.event) (event_id v.event) ≡ false)
              is_boundary before apart)
        ∙ ap (next_boundary (event_id v.event)) (filter_events-kept is_boundary v later boundary)
        ∙ rw same refl

    selected-local :
        All (λ p. AreApart p v) before
        → IsStartTyped v
        → is_start v ≡ true
        → selected options (before ++ v ∷ later) v ≡ local_row v later
    selected-local apart good start =
        let (typed, version, id) = good start in
        ap₂ (row_of options v.version_number)
          (fun_ext (λ name.
            ap (λ c. if member name type1_columns then c else v.event name)
              (last_value-here name (All-map (λ p h. h.1 start) before apart) typed version)))
          (next_boundary-here (All-map (λ p h. h.0) before apart)
            (start-boundary v.is_type2_start (is_delete v.event) start) id)

  pub local_rows-start :
      (v : VersionedEvent) (later : List VersionedEvent)
      → is_start v ≡ true
      → local_rows (v ∷ later) ≡ local_row v later ∷ local_rows later
  unfolding local_rows
  local_rows-start v later h = rw h refl

  pub local_rows-other :
      (v : VersionedEvent) (later : List VersionedEvent)
      → is_start v ≡ false
      → local_rows (v ∷ later) ≡ local_rows later
  unfolding local_rows
  local_rows-other v later h = rw h refl

  starts-other :
      (v : VersionedEvent) (later : List VersionedEvent)
      → is_start v ≡ false
      → filter_events is_start (filter_events is_typed (v ∷ later))
        ≡ filter_events is_start (filter_events is_typed later)
  starts-other v later h = elim (Bool-cases (is_typed v)) [
    | inl kept ↦
        ap (filter_events is_start) (filter_events-kept is_typed v later kept)
        ∙ filter_events-dropped is_start v (filter_events is_typed later) h
    | inr dropped ↦ ap (filter_events is_start) (filter_events-dropped is_typed v later dropped)
  ]

  starts-kept :
      (v : VersionedEvent) (later : List VersionedEvent)
      → is_start v ≡ true
      → is_typed v ≡ true
      → filter_events is_start (filter_events is_typed (v ∷ later))
        ≡ v ∷ filter_events is_start (filter_events is_typed later)
  starts-kept v later h typed =
      ap (filter_events is_start) (filter_events-kept is_typed v later typed)
      ∙ filter_events-kept is_start v (filter_events is_typed later) h

  select-local_rows :
      (events before later : List VersionedEvent)
      → events ≡ before ++ later
      → All (λ p. All (AreApart p) later) before
      → IsHistory later
      → map (selected options events) (filter_events is_start (filter_events is_typed later))
        ≡ local_rows later
  unfolding local_rows
  select-local_rows events before [] e apart good = refl
  select-local_rows events before (v ∷ later) e apart (typed, others, good) =
      let rest =
        select-local_rows events (before ++ v ∷ []) later
          (e ∙ sym (append_assoc before (v ∷ []) later))
          (All-append (λ p. All (AreApart p) later) before (v ∷ [])
            (All-map (λ p h. h.1) before apart) (others, tt))
          good in
      elim (Bool-cases (is_start v)) [
        | inl start ↦
            ap (map (selected options events)) (starts-kept v later start (typed start).0)
            ∙ ap₂ (λ r rs. r ∷ rs)
                (ap (λ vs. selected options vs v) e
                  ∙ selected-local v before later (All-map (λ p h. h.0) before apart) typed start)
                rest
            ∙ sym (local_rows-start v later start)
        | inr other ↦
            ap (map (selected options events)) (starts-other v later other)
            ∙ rest
            ∙ sym (local_rows-other v later other)
      ]

  -- The selected rows, each from the events after its start.
  pub select_starts-local_rows :
      (events : List VersionedEvent)
      → IsHistory events
      → select_starts options events ≡ local_rows events
  select_starts-local_rows events good = select-local_rows events [] events refl tt good
