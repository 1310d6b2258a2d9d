-- ===== src/Scd2/Windowed.antt =====
-- transformations/gold/scd2.py: one event in the windows of the replay, with a version open.
use azure_lakehouse_pipeline.Prelude.{
  Bool, ℕ, Option, if◌then◌else◌, List, ◌≡◌, String, ap, some, true, suc, none, ◌∷◌, false, ◌∙◌,
  ◌<◌, ◌==◌, refl, arith, ltb,
}
use azure_lakehouse_pipeline.Scd2.{
  DimensionOptions, last_value, coalesce, VersionedEvent, is_delete, is_typed, DimensionRow,
  filter_events, first_event, is_boundary,
}
use azure_lakehouse_pipeline.Upsert.{Row, Cell, coalesced, and_sql, or_sql, not_sql}
use azure_lakehouse_pipeline.Scd2.Numbers.{AllAbove, last_value-other}
use azure_lakehouse_pipeline.Scd2.Local.{refreshed, local_rows, local_rows-other, local_rows-start}
use azure_lakehouse_pipeline.Scd2.Replay.{row_of, refresh}
use mathlib.Core.Path.{fun_ext, ap₂}
use azure_lakehouse_pipeline.Dict.{member}
use azure_lakehouse_pipeline.Scd2.Events.{filter_events-kept, filter_events-dropped}

same_branches {ℓ} : {A : Type ℓ} (b : Bool) (x : A) → (if b then x else x) ≡ x
same_branches true x = refl
same_branches false x = refl

module _ (options : DimensionOptions) where
  open options use {type1_columns}

  -- Without a typed event of its version a version keeps its Type 1 columns.
  pub refreshed-above :
      (n : ℕ) (r : Row) (later : List VersionedEvent)
      → AllAbove n later
      → refreshed options (some n) r later ≡ r
  refreshed-above n r later h = fun_ext (λ name.
      ap (λ c. if member name type1_columns then coalesce c (r name) else r name)
        (last_value-other name (some n) (filter_events is_typed later) h)
      ∙ same_branches (member name type1_columns) (r name))

  coalesce_assoc : (a b c : Cell) → coalesce (coalesce a b) c ≡ coalesce a (coalesce b c)
  coalesce_assoc none b c = refl
  coalesce_assoc (some a) b c = refl

  refresh_twice :
      (b : Bool) (l e r whole : Cell)
      → whole ≡ coalesce l e
      → (if b then coalesce whole r else r)
        ≡ (if b then coalesce l (if b then coalesce e r else r) else if b then coalesce e r else r)
  refresh_twice true l e r whole h = ap (λ c. coalesce c r) h ∙ coalesce_assoc l e r
  refresh_twice false l e r whole h = refl

  abbrev pub continued : ℕ → Row → VersionedEvent
  continued n e = record { event = e; is_type2_start = some false; version_number = some n }

  last_value-continued :
      (name : String) (n : ℕ) (e : Row) (later : List VersionedEvent)
      → is_typed (continued n e) ≡ true
      → last_value name (some n) (filter_events is_typed (continued n e ∷ later))
        ≡ coalesce (last_value name (some n) (filter_events is_typed later)) (e name)
  unfolding last_value
  last_value-continued name n e later typed =
      let same : (n == n) ≡ true = ground arith in
      ap (last_value name (some n)) (filter_events-kept is_typed (continued n e) later typed)
      ∙ rw same refl

  -- A version is refreshed by the first of the events and then by the others.
  refreshed-refresh :
      (n : ℕ) (r e : Row) (later : List VersionedEvent)
      → is_typed (continued n e) ≡ true
      → refreshed options (some n) r (continued n e ∷ later)
        ≡ refreshed options (some n) (refresh options e r) later
  refreshed-refresh n r e later typed = fun_ext (λ name.
      refresh_twice (member name type1_columns)
        (last_value name (some n) (filter_events is_typed later)) (e name) (r name)
        (last_value name (some n) (filter_events is_typed (continued n e ∷ later)))
        (last_value-continued name n e later typed))

  -- The rows that are still to come, with the open version where there is one.
  abbrev pub open_row : Row → ℕ → List VersionedEvent → DimensionRow
  open_row r n vs =
      row_of options (some n) (refreshed options (some n) r vs)
        (first_event (filter_events is_boundary vs))

  abbrev pub windowed : Option Row → ℕ → List VersionedEvent → List DimensionRow
  windowed none n vs = local_rows options vs
  windowed (some r) n vs = open_row r n vs ∷ local_rows options vs

  abbrev pub started : ℕ → Row → VersionedEvent
  started n e = record { event = e; is_type2_start = some true; version_number = some (suc n) }

  pub typed_here :
      (n : ℕ) (e : Row) → is_delete e ≡ some false → 0 < n → is_typed (continued n e) ≡ true
  typed_here n e kept positive =
      ap (λ d. coalesced (and_sql (not_sql d) (some (ltb 0 n)))) kept ∙ ground arith

  -- One event with a version open, by what follows of it in the windows.
  pub deleted_here :
      (r : Row) (n : ℕ) (e : Row) (later : List VersionedEvent)
      → is_delete e ≡ some true
      → AllAbove n (continued n e ∷ later)
      → windowed (some r) n (continued n e ∷ later)
        ≡ row_of options (some n) r (some e) ∷ local_rows options later
  deleted_here r n e later deleted above =
      ap₂
        (λ x rows.
          row_of options (some n) x
            (first_event (filter_events is_boundary (continued n e ∷ later)))
          ∷ rows)
        (refreshed-above n r (continued n e ∷ later) above)
        (local_rows-other options (continued n e) later refl)
      ∙ ap (λ vs. row_of options (some n) r (first_event vs) ∷ local_rows options later)
          (filter_events-kept is_boundary (continued n e) later
            (ap (λ d. coalesced (or_sql (some false) d)) deleted))

  pub changed_here :
      (r : Row) (n : ℕ) (e : Row) (later : List VersionedEvent)
      → AllAbove n (started n e ∷ later)
      → windowed (some r) n (started n e ∷ later)
        ≡ row_of options (some n) r (some e) ∷ windowed (some e) (suc n) later
  changed_here r n e later above =
      ap₂
        (λ x rows.
          row_of options (some n) x (first_event (filter_events is_boundary (started n e ∷ later)))
          ∷ rows)
        (refreshed-above n r (started n e ∷ later) above)
        (local_rows-start options (started n e) later refl)

  pub continued_here :
      (r : Row) (n : ℕ) (e : Row) (later : List VersionedEvent)
      → is_delete e ≡ some false
      → 0 < n
      → windowed (some r) n (continued n e ∷ later) ≡ windowed (some (refresh options e r)) n later
  continued_here r n e later kept positive =
      ap₂
        (λ x rows.
          row_of options (some n) x
            (first_event (filter_events is_boundary (continued n e ∷ later)))
          ∷ rows)
        (refreshed-refresh n r e later (typed_here n e kept positive))
        (local_rows-other options (continued n e) later refl)
      ∙ ap
          (λ vs.
            row_of options (some n) (refreshed options (some n) (refresh options e r) later)
              (first_event vs)
            ∷ local_rows options later)
          (filter_events-dropped is_boundary (continued n e) later
            (ap (λ d. coalesced (or_sql (some false) d)) kept))
