-- ===== src/Ingest/Total.antt =====
-- `_run_table` over an outbox of valid events.
use azure_lakehouse_pipeline.Ingest.Query.{
  up_to, events_after, ChangeEvent, BatchConfig, change_events, lower_bound, ids, batch_upper_bound,
  maximum,
}
use azure_lakehouse_pipeline.Ingest.Table.{
  hide, BronzeRow, is_invalid, ingest_events, read_events, collect_change_event_stats, BronzeState,
  ChangeEventStats, count_operations, operations, store_events, run_table, is_some, result,
}
use azure_lakehouse_pipeline.Json.{JsonCodec}
use azure_lakehouse_pipeline.Contracts.Bronze.{BronzeTableContract, get_bronze_contract}
use azure_lakehouse_pipeline.Delta.Log.{DeltaLog}
use azure_lakehouse_pipeline.Prelude.{
  ℕ, String, List, ◌≡◌, false, All, any, map, ◌∷◌, Bool-cases, Option, str_eq, ◌&&◌, ltb, some, inr,
  inl, ◌<◌, leb, [], refl, none, length, Option-cases, arith, ◌∙◌, true,
}
use azure_lakehouse_pipeline.Ingest.Batch.{IsValidConfig, partitioned_read, batch_upper_bound-some}
use azure_lakehouse_pipeline.Manifest.{BronzeTableResult}
use azure_lakehouse_pipeline.Result.{ok}
use azure_lakehouse_pipeline.Ingest.Order.{IsAscending}
use azure_lakehouse_pipeline.Ingest.Prefix.{IsAscendingLog-IsUnique}
use mathlib.Core.Option.{some-injective}
use azure_lakehouse_pipeline.Ingest.Run.{run_table-some, run_table-idle, run_table-fresh}

abbrev pub IsValidEvent : BronzeTableContract → ChangeEvent → Type 0
IsValidEvent contract e =
    str_eq e.source_table contract.table_name ≡ true
    → is_invalid contract (hide contract.excluded_columns e) ≡ false

valid_batch :
    (contract : BronzeTableContract) (u lower : ℕ) (log : List ChangeEvent)
    → All (IsValidEvent contract) log
    → any (is_invalid contract) (
        map (hide contract.excluded_columns) (up_to u (events_after lower contract.table_name log)))
      ≡ false
unfolding up_to events_after
valid_batch contract u lower [] h = refl
valid_batch contract u lower (e ∷ log) (h, hs) =
    let ih = valid_batch contract u lower log hs in
    elim (Bool-cases (str_eq e.source_table contract.table_name && ltb lower e.event_id)) [
      | inr old ↦ rw old ih
      | inl new ↦ elim (Bool-cases (leb e.event_id u)) [
        | inl low ↦
            let own : str_eq e.source_table contract.table_name ≡ true = ground (arith, new) in
            rw (new, up_to) (rw low (rw (h own) ih))
        | inr high ↦ rw (new, up_to) (rw high ih)
      ]
    ]

module _ (json : JsonCodec) (delta : DeltaLog json.Text BronzeRow) (cfg : BatchConfig)
    (batch_id : String) (log : List ChangeEvent) where
  open delta use {Table}

  ingest_total :
      (s : BronzeState) (contract : BronzeTableContract) (upper : Option ℕ) (t : Option Table)
      → IsValidConfig cfg
      → ((u : ℕ) → upper ≡ some u → lower_bound s.cursor < u)
      → All (IsValidEvent contract) log
      → (r : BronzeTableResult) × (t' : Option Table) × (ingest_events json delta cfg batch_id log s
            contract upper t
          ≡ ok (r, t'))
  unfolding ingest_events read_events collect_change_event_stats change_events
  ingest_total s contract none t valid above events =
      let stats : ChangeEventStats = record {
        record_count = 0;
        last_event_id = none;
        operation_counts = count_operations [] operations;
      } in
      let stored = store_events json delta batch_id s [] stats t in (stored.0, stored.1, refl)
  ingest_total s contract (some u) t valid above events =
      let es =
        map (hide contract.excluded_columns)
          (up_to u (events_after (lower_bound s.cursor) contract.table_name log)) in
      let stats : ChangeEventStats = record {
        record_count = length es;
        last_event_id = maximum (ids es);
        operation_counts = count_operations es operations;
      } in
      let stored = store_events json delta batch_id s es stats t in
      (
        stored.0,
        stored.1,
        rw (
          partitioned_read cfg s.cursor u valid (above u refl),
          valid_batch contract u (lower_bound s.cursor) log events,
        ),
      )

  -- The run of one table succeeds where every event of that table has a timestamp, a known operation and
  -- the primary key of the table; events of other tables may be in the log too. The configuration is
  -- valid, the event ids of the log ascend, and the table is known.
  pub run_table-ok :
      (s : BronzeState) (contract : BronzeTableContract) (t : Option Table)
      → IsValidConfig cfg
      → IsAscending (ids log)
      → get_bronze_contract s.table_name ≡ ok contract
      → All (IsValidEvent contract) log
      → (r : BronzeTableResult) × (t' : Option Table) × (run_table json delta cfg batch_id log s
            (batch_upper_bound cfg s.cursor s.table_name log)
            t
          ≡ ok (r, t'))
  run_table-ok s contract t valid asc hc events =
      let unique = IsAscendingLog-IsUnique (ids log) asc in
      elim (Option-cases (batch_upper_bound cfg s.cursor s.table_name log)) [
        | inr (upper, e) ↦
            let b = batch_upper_bound-some cfg s.cursor s.table_name log unique e in
            let above : (u : ℕ) → some upper ≡ some u → lower_bound s.cursor < u =
              λ u h. ground (arith, b.advances, some-injective h) in
            let (r, t', run) = ingest_total s contract (some upper) t valid above events in
            (r, t', rw e (run_table-some json delta cfg batch_id log s contract upper t hc ∙ run))
        | inl e ↦ elim (Bool-cases (is_some s.delta_state)) [
          | inl exists ↦ (
            result batch_id s 0 (count_operations [] operations),
            t,
            rw e (run_table-idle json delta cfg batch_id log s contract t hc exists),
          )
          | inr fresh ↦
              let (r, t', run) =
                ingest_total s contract none t valid (λ u h. absurd (ground arith)) events in
              (
                r,
                t',
                rw e (run_table-fresh json delta cfg batch_id log s contract none t hc fresh ∙ run),
              )
        ]
      ]
