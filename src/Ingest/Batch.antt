-- ===== src/Ingest/Batch.antt =====
-- The bounded batches of ingestion/batch/bronze_operations.py.
use azure_lakehouse_pipeline.Ingest.Query.{
  events_after, batch_upper_bound, BatchConfig, read_partitioned_guard, up_to, change_events,
  jdbc_partition_count, ChangeEvent, lower_bound, maximum, ids, order_ids,
}
use azure_lakehouse_pipeline.Prelude.{
  ℕ, ◌≤◌, String, Option, List, length, All, ◌≡◌, ◌<◌, ◌+◌, none, ◌∷◌, some, [], arith, Bool-cases,
  suc, str_eq, refl, ◌&&◌, zero, ltb, inl, ◌≢◌, inr, ◌-◌, max, ◌/◌,
}
use azure_lakehouse_pipeline.Contracts.Bronze.{EventCursor}
use azure_lakehouse_pipeline.Ingest.Order.{
  IsUnique, count_le, maximum-order_ids, maximum_of, maximum-some, All-take, order_ids-All,
}
use azure_lakehouse_pipeline.Delta.{take}
use azure_lakehouse_pipeline.Result.{ok}

pub length-up_to : (u : ℕ) (log : List ChangeEvent) → length (up_to u log) ≡ count_le u (ids log)
unfolding up_to
length-up_to u [] = refl
length-up_to u (e ∷ log) = ground (arith, length-up_to u log)

pub events_after-above :
    (lower : ℕ) (table : String) (log : List ChangeEvent)
    → All (λ i. lower < i) (ids (events_after lower table log))
unfolding events_after
events_after-above lower table [] = tt
events_after-above lower table (e ∷ log) =
    elim (Bool-cases (str_eq e.source_table table && ltb lower e.event_id)) [
      | inl new ↦ rw new (ground arith, events_after-above lower table log)
      | inr old ↦ rw old (events_after-above lower table log)
    ]

events_after-All :
    (P : ℕ → Type 0) (lower : ℕ) (table : String) (log : List ChangeEvent)
    → All P (ids log)
    → All P (ids (events_after lower table log))
unfolding events_after
events_after-All P lower table [] h = tt
events_after-All P lower table (e ∷ log) (h, hs) =
    elim (Bool-cases (str_eq e.source_table table && ltb lower e.event_id)) [
      | inl new ↦ rw new (h, events_after-All P lower table log hs)
      | inr old ↦ rw old (events_after-All P lower table log hs)
    ]

events_after-IsUnique :
    (lower : ℕ) (table : String) (log : List ChangeEvent)
    → IsUnique (ids log)
    → IsUnique (ids (events_after lower table log))
unfolding events_after
events_after-IsUnique lower table [] h = tt
events_after-IsUnique lower table (e ∷ log) (new_id, h) =
    elim (Bool-cases (str_eq e.source_table table && ltb lower e.event_id)) [
      | inl new ↦ rw new (
        events_after-All (λ i. e.event_id ≢ i) lower table log new_id,
        events_after-IsUnique lower table log h,
      )
      | inr old ↦ rw old (events_after-IsUnique lower table log h)
    ]

-- Raising the cursor from `lower` to a bound that is not smaller takes away exactly as many events as
-- the batch between the two has.
pub events_after-split :
    (lower upper : ℕ) (table : String) (log : List ChangeEvent)
    → lower ≤ upper
    → length (events_after upper table log) + length (up_to upper (events_after lower table log))
      ≡ length (events_after lower table log)
unfolding events_after up_to
events_after-split lower upper table [] h = refl
events_after-split lower upper table (e ∷ log) h =
    ground (arith, events_after-split lower upper table log h)

-- A config that Pydantic accepts.
pub record IsValidConfig (cfg : BatchConfig) : Type 0 where
  pub some_events : 1 ≤ cfg.max_events_per_batch
  pub some_target : 1 ≤ cfg.target_events_per_partition
  pub some_partitions : 1 ≤ cfg.max_jdbc_partitions

pub record IsBatch (cfg : BatchConfig) (cursor : Option EventCursor) (table : String)
    (log : List ChangeEvent) (upper : ℕ) : Type 0 where
  pub advances : lower_bound cursor < upper
  pub not_empty : 1 ≤ length (change_events cursor (some upper) table log)
  pub bounded : length (change_events cursor (some upper) table log) ≤ cfg.max_events_per_batch

-- Where the event ids of the log are distinct, an upper bound lies above the cursor, and the batch up
-- to it has at least one event and at most `max_events_per_batch` of them.
pub batch_upper_bound-some :
    (cfg : BatchConfig) (cursor : Option EventCursor) (table : String) (log : List ChangeEvent)
    {upper : ℕ}
    → IsUnique (ids log)
    → batch_upper_bound cfg cursor table log ≡ some upper
    → IsBatch cfg cursor table log upper
unfolding batch_upper_bound change_events
batch_upper_bound-some cfg cursor table log {upper} unique e =
    let lower = lower_bound cursor in
    let events = events_after lower table log in
    let n = cfg.max_events_per_batch in
    let size = length-up_to upper events in
    let (some_, most) =
      maximum-order_ids n (ids events) {m = upper} (events_after-IsUnique lower table log unique)
        e in
    record {
      advances =
          maximum_of (λ i. lower < i) (take n (order_ids (ids events)))
            (All-take (λ i. lower < i) n (order_ids (ids events))
              (order_ids-All (λ i. lower < i) (ids events) (events_after-above lower table log)))
            e;
      not_empty = rw size some_;
      bounded = rw size most;
    }

no_bound :
    (n : ℕ) (events : List ChangeEvent)
    → 1 ≤ n
    → maximum (take n (order_ids (ids events))) ≡ none
    → events ≡ []
no_bound n [] h e = refl
no_bound zero (x ∷ events) h e = absurd (omega arith)
no_bound (suc n) (x ∷ events) h e = let (m, e') = maximum-some n x.event_id (ids events) in cc

-- Under a valid configuration, no upper bound means that the table has no event above the cursor.
pub batch_upper_bound-none :
    (cfg : BatchConfig) (cursor : Option EventCursor) (table : String) (log : List ChangeEvent)
    → IsValidConfig cfg
    → batch_upper_bound cfg cursor table log ≡ none
    → events_after (lower_bound cursor) table log ≡ []
unfolding batch_upper_bound
batch_upper_bound-none cfg cursor table log valid e =
    no_bound cfg.max_events_per_batch (events_after (lower_bound cursor) table log)
      valid.some_events e

ceil_pos : (s t : ℕ) → 1 ≤ s → 1 ≤ t → 1 ≤ (s + t - 1) / t
ceil_pos s t hs ht = grind arith

-- Under a valid configuration and for an upper bound above the cursor, the range and the partition
-- count that the extractor passes are accepted by the guards of the partitioned reader.
pub partitioned_read :
    (cfg : BatchConfig) (cursor : Option EventCursor) (upper : ℕ)
    → IsValidConfig cfg
    → lower_bound cursor < upper
    → read_partitioned_guard cfg
        (lower_bound cursor + 1)
        (upper + 1)
        (jdbc_partition_count cfg cursor upper)
      ≡ ok tt
unfolding read_partitioned_guard jdbc_partition_count
partitioned_read cfg cursor upper valid h =
    let span = max (upper - lower_bound cursor) 1 in
    ground (arith, ceil_pos span cfg.target_events_per_partition (omega arith) valid.some_target)

-- Where the event ids of the log are distinct, fewer events lie above the upper bound of a batch than
-- above the cursor, so that successive batches come to an end of a finite log.
pub events_after-batch_upper_bound :
    (cfg : BatchConfig) (cursor : Option EventCursor) (table : String) (log : List ChangeEvent)
    {upper : ℕ}
    → IsUnique (ids log)
    → batch_upper_bound cfg cursor table log ≡ some upper
    → length (events_after upper table log) < length (events_after (lower_bound cursor) table log)
unfolding change_events
events_after-batch_upper_bound cfg cursor table log {upper} unique e =
    let b = batch_upper_bound-some cfg cursor table log {upper = upper} unique e in
    omega (
      arith,
      events_after-split (lower_bound cursor) upper table log (omega (arith, b.advances)),
      b.not_empty,
    )
