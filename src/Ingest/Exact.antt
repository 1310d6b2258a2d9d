-- ===== src/Ingest/Exact.antt =====
-- The rows that `write_append_only` adds, against the events of the outbox.
use azure_lakehouse_pipeline.Prelude.{
  String, List, ℕ, All, Option, ◌≤◌, map, ◌<◌, length, ◌≡◌, [], some, ◌∷◌, ap, arith, refl, ◌∙◌,
  ◌++◌, sym,
}
use azure_lakehouse_pipeline.Ingest.Query.{up_to, maximum, ChangeEvent, ids, events_after, larger}
use azure_lakehouse_pipeline.Ingest.Table.{
  collect_change_event_stats, hide, BronzeRow, ChangeEventStats, write_append_only,
}
use azure_lakehouse_pipeline.Json.{JsonCodec}
use azure_lakehouse_pipeline.Contracts.Bronze.{BronzeTableContract}
use azure_lakehouse_pipeline.Delta.Log.{DeltaLog}
use azure_lakehouse_pipeline.Ingest.Order.{IsAscending}
use azure_lakehouse_pipeline.Ingest.Cursor.{rows_of, rows-write}
use azure_lakehouse_pipeline.Result.{ok}
use mathlib.Core.List.{map-append}
use mathlib.Core.Path.{ap₂}
use azure_lakehouse_pipeline.Ingest.Prefix.{up_to-split}

abbrev event_of : BronzeRow → ChangeEvent
event_of r = r.event

pub map-hide-ids :
    (columns : List String) (xs : List ChangeEvent) → ids (map (hide columns) xs) ≡ ids xs
unfolding hide
map-hide-ids columns [] = refl
map-hide-ids columns (x ∷ xs) = ap (λ l. x.event_id ∷ l) (map-hide-ids columns xs)

pub up_to-none : (u : ℕ) (xs : List ChangeEvent) → All (λ i. u < i) (ids xs) → up_to u xs ≡ []
unfolding up_to
up_to-none u [] h = refl
up_to-none u (x ∷ xs) (h, hs) = ground (arith, up_to-none u xs hs)

abbrev pub bronze_rows : String → List ChangeEvent → List BronzeRow
bronze_rows batch_id es =
    map (λ (e : ChangeEvent). let r : BronzeRow = record { batch_id = batch_id; event = e } in r) es

event_of-bronze_rows :
    (batch_id : String) (es : List ChangeEvent) → map event_of (bronze_rows batch_id es) ≡ es
event_of-bronze_rows batch_id [] = refl
event_of-bronze_rows batch_id (e ∷ es) = ap (λ l. e ∷ l) (event_of-bronze_rows batch_id es)

pub collect-eq-ok :
    (contract : BronzeTableContract) (es : List ChangeEvent) {stats : ChangeEventStats}
    → collect_change_event_stats contract es ≡ ok stats
    → (stats.record_count ≡ length es) × (stats.last_event_id ≡ maximum (ids es))
unfolding collect_change_event_stats
collect-eq-ok contract es {stats} h = (ground arith, ground arith)

pub maximum-of_length :
    (es : List ChangeEvent) → 1 ≤ length es → (m : ℕ) × (maximum (ids es) ≡ some m)
unfolding maximum
maximum-of_length [] h = absurd (omega arith)
maximum-of_length (e ∷ es) h = (larger e.event_id (maximum (ids es)), refl)

module _ (json : JsonCodec) (delta : DeltaLog json.Text BronzeRow) where
  open delta use {Table}

  -- The rows of a table are the events of its source up to id `n`, without the excluded columns.
  abbrev pub IsIngested : List String → String → List ChangeEvent → Option Table → ℕ → Type 0
  IsIngested excluded name log t n =
      map event_of (rows_of json delta t) ≡ map (hide excluded) (up_to n (events_after 0 name log))

  pub write-IsIngested :
      (excluded : List String) (name batch_id : String) (log : List ChangeEvent) (meta : json.Text)
      (t : Option Table) (lower n : ℕ)
      → IsAscending (ids log)
      → lower ≤ n
      → IsIngested excluded name log t lower
      → IsIngested excluded name log
          (some (
            write_append_only json delta meta
              (bronze_rows batch_id (map (hide excluded) (up_to n (events_after lower name log))))
              t))
          n
  write-IsIngested excluded name batch_id log meta t lower n asc le h =
      let batch = map (hide excluded) (up_to n (events_after lower name log)) in
      ap (map event_of) (rows-write json delta meta (bronze_rows batch_id batch) t)
      ∙ map-append event_of (rows_of json delta t) (bronze_rows batch_id batch)
      ∙ ap₂ ◌++◌ h (event_of-bronze_rows batch_id batch)
      ∙ sym (
          map-append (hide excluded) (up_to lower (events_after 0 name log))
            (up_to n (events_after lower name log)))
      ∙ ap (map (hide excluded)) (sym (up_to-split lower n name log asc le))
