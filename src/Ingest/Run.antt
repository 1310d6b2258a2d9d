-- ===== src/Ingest/Run.antt =====
-- `_run_table` of ingestion/batch/extract_to_bronze.py over the bounded batch.
use azure_lakehouse_pipeline.Json.{JsonCodec}
use azure_lakehouse_pipeline.Delta.Log.{DeltaLog}
use azure_lakehouse_pipeline.Ingest.Table.{
  BronzeRow, store_events, ingest_events, read_events, BronzeState, table_state, ChangeEventStats,
  is_some, hide, write_append_only, collect_change_event_stats, current_cursor, run_table, result,
  count_operations, operations,
}
use azure_lakehouse_pipeline.Ingest.Query.{
  BatchConfig, ChangeEvent, ids, lower_bound, maximum, change_events, up_to, events_after,
  read_partitioned_guard, jdbc_partition_count, batch_upper_bound,
}
use azure_lakehouse_pipeline.Prelude.{
  String, List, Option, ℕ, some, ◌≡◌, ltb, ◌||◌, ◌≤◌, not, length, map, true, ap, All, false, refl,
  ◌+◌, ◌∷◌, none, [], Bool-cases, ◌∙◌, leb, sym, inl, ◌<◌, inr, length-map, arith, Option-cases,
}
use azure_lakehouse_pipeline.Contracts.Bronze.{
  BronzeTableContract, EventCursor, get_bronze_contract, bronze_tables,
}
use azure_lakehouse_pipeline.Ingest.Order.{IsAscending, maximum_of}
use azure_lakehouse_pipeline.Manifest.{BronzeTableResult}
use azure_lakehouse_pipeline.Result.{ok, >>=-eq-ok, ok-injective, index-eq-ok, value_error}
use azure_lakehouse_pipeline.Ingest.Exact.{
  IsIngested, collect-eq-ok, bronze_rows, write-IsIngested, maximum-of_length, map-hide-ids,
  up_to-none,
}
use azure_lakehouse_pipeline.Ingest.Cursor.{progress_text, table_state-write}
use azure_lakehouse_pipeline.Ingest.Batch.{IsBatch, events_after-above, batch_upper_bound-some}
use mathlib.Core.Path.{subst}
use azure_lakehouse_pipeline.Ingest.Prefix.{up_to-maximum, IsAscendingLog-IsUnique}
use azure_lakehouse_pipeline.Dict.Laws.{AllEntries-get}
use azure_lakehouse_pipeline.Dict.{get}

module _ (json : JsonCodec) (delta : DeltaLog json.Text BronzeRow) (cfg : BatchConfig)
    (batch_id : String) (log : List ChangeEvent) where
  open delta use {Table}

  -- A table that holds the outbox's prefix up to the cursor that its own history says.
  pub record IsCurrent (excluded : List String) (name : String) (t : Option Table) (c : ℕ)
      : Type 0 where
    pub state : BronzeState
    pub read : table_state json delta name t ≡ ok state
    pub at_cursor : lower_bound state.cursor ≡ c
    pub prefix : IsIngested json delta excluded name log t c

  written :
      (contract : BronzeTableContract) (s : BronzeState) (t : Option Table) (n : ℕ)
      (events : List ChangeEvent)
      → IsAscending (ids log)
      → contract.table_name ≡ s.table_name
      → lower_bound s.cursor ≤ n
      → IsIngested json delta contract.excluded_columns s.table_name log t (lower_bound s.cursor)
      → events
        ≡ map
            (hide contract.excluded_columns)
            (up_to n (events_after (lower_bound s.cursor) s.table_name log))
      → IsCurrent contract.excluded_columns s.table_name
          (some (
            write_append_only json delta
              (progress_text json delta s.table_name batch_id n)
              (bronze_rows batch_id events)
              t))
          n
  written contract s t n events asc same le h e =
      let meta = progress_text json delta s.table_name batch_id n in
      let (s', read, cursor, version, exists) =
        table_state-write json delta s.table_name batch_id n (bronze_rows batch_id events) t in
      record {
        state = s';
        read = read;
        at_cursor = ap lower_bound cursor;
        prefix = rw e (
            write-IsIngested json delta contract.excluded_columns s.table_name batch_id log meta t
              (lower_bound s.cursor) n asc le h);
      }

  store_events-written :
      (s : BronzeState) (events : List ChangeEvent) (stats : ChangeEventStats) (t : Option Table)
      → (ltb 0 stats.record_count || not (is_some s.delta_state)) ≡ true
      → (store_events json delta batch_id s events stats t).1
        ≡ some (
            write_append_only json delta
              (progress_text json delta s.table_name batch_id
                (current_cursor stats.last_event_id s.cursor))
              (bronze_rows batch_id events)
              t)
  unfolding store_events
  store_events-written s events stats t h = rw h

  ingest_events-eq-ok :
      (s : BronzeState) (contract : BronzeTableContract) (upper : Option ℕ) (t : Option Table)
      {r : BronzeTableResult} {t' : Option Table}
      → ingest_events json delta cfg batch_id log s contract upper t ≡ ok (r, t')
      → (events : List ChangeEvent) × (stats : ChangeEventStats) × (read_events cfg contract
            s.cursor upper log
          ≡ ok events)
        × (stats.record_count ≡ length events)
        × (stats.last_event_id ≡ maximum (ids events))
        × ((store_events json delta batch_id s events stats t).1 ≡ t')
  unfolding ingest_events
  ingest_events-eq-ok s contract upper t {r} {t'} h =
      let (events, he, k) = >>=-eq-ok (read_events cfg contract s.cursor upper log) _ h in
      let (stats, hs, k') = >>=-eq-ok (collect_change_event_stats contract events) _ k in
      let (count, last) = collect-eq-ok contract events hs in
      (events, stats, he, count, last, ap (λ x. x.1) (ok-injective k'))

  read_events-some :
      (contract : BronzeTableContract) (cursor : Option EventCursor) (upper : ℕ)
      {events : List ChangeEvent}
      → read_events cfg contract cursor (some upper) log ≡ ok events
      → events
        ≡ map
            (hide contract.excluded_columns)
            (change_events cursor (some upper) contract.table_name log)
  unfolding read_events
  read_events-some contract cursor upper {events} h =
      let (u, hu, k) =
        >>=-eq-ok
          (read_partitioned_guard cfg (lower_bound cursor + 1) (upper + 1)
            (jdbc_partition_count cfg cursor upper))
          _ h in
      sym (ok-injective k)

  current_cursor-some : (m : ℕ) (c : Option EventCursor) → current_cursor (some m) c ≡ m
  unfolding current_cursor
  current_cursor-some m c = refl

  up_to-All :
      (P : ℕ → Type 0) (u : ℕ) (xs : List ChangeEvent) → All P (ids xs) → All P (ids (up_to u xs))
  unfolding up_to
  up_to-All P u [] h = tt
  up_to-All P u (e ∷ xs) (h, hs) = elim (Bool-cases (leb e.event_id u)) [
    | inl low ↦ rw low (h, up_to-All P u xs hs)
    | inr high ↦ rw high (up_to-All P u xs hs)
  ]

  module _ (contract : BronzeTableContract) (s : BronzeState) (t : Option Table)
      (asc : IsAscending (ids log)) (same : contract.table_name ≡ s.table_name)
      (h : IsIngested json delta contract.excluded_columns s.table_name log t
        (lower_bound s.cursor)) where
    abbrev lower : ℕ
    lower = lower_bound s.cursor

    abbrev Advanced : Option Table → Type 0
    Advanced t' = (c : ℕ) × (lower ≤ c) × IsCurrent contract.excluded_columns s.table_name t' c

    ingest-some :
        (upper : ℕ) {r : BronzeTableResult} {t' : Option Table}
        → IsBatch cfg s.cursor s.table_name log upper
        → ingest_events json delta cfg batch_id log s contract (some upper) t ≡ ok (r, t')
        → Advanced t'
    unfolding change_events
    ingest-some upper {r} {t'} b run =
        let (events, stats, he, count, last, stored) =
          ingest_events-eq-ok s contract (some upper) t run in
        let after = events_after lower s.table_name log in
        let batch = up_to upper after in
        let (m, em) = maximum-of_length batch b.not_empty in
        let e : events ≡ map (hide contract.excluded_columns) batch =
          rw same at (read_events-some contract s.cursor upper he) in
        let last_is : stats.last_event_id ≡ some m =
          last
          ∙ ap (λ x. maximum (ids x)) e
          ∙ ap maximum (map-hide-ids contract.excluded_columns batch)
          ∙ em in
        let above : lower < m =
          maximum_of (λ i. lower < i) (ids batch)
            (up_to-All (λ i. lower < i) upper after (events_after-above lower s.table_name log))
            em in
        let many : 1 ≤ stats.record_count =
          rw (count, e, length-map (hide contract.excluded_columns) batch) b.not_empty in
        let e' : events ≡ map (hide contract.excluded_columns) (up_to m after) =
          e ∙ ap (map (hide contract.excluded_columns)) (up_to-maximum upper after em) in
        let is_written = sym (store_events-written s events stats t (ground arith)) ∙ stored in
        let n_is : current_cursor stats.last_event_id s.cursor ≡ m =
          ap (λ o. current_cursor o s.cursor) last_is ∙ current_cursor-some m s.cursor in
        (
          m,
          omega arith,
          subst (λ x. IsCurrent contract.excluded_columns s.table_name x m) is_written
              (rw n_is (written contract s t m events asc same (omega arith) h e')),
        )

    ingest-none :
        {r : BronzeTableResult} {t' : Option Table}
        → is_some s.delta_state ≡ false
        → ingest_events json delta cfg batch_id log s contract none t ≡ ok (r, t')
        → Advanced t'
    unfolding read_events maximum current_cursor
    ingest-none {r} {t'} fresh run =
        let (events, stats, he, count, last, stored) = ingest_events-eq-ok s contract none t run in
        let e : events ≡ [] = sym (ok-injective he) in
        let last_is : stats.last_event_id ≡ none = last ∙ ap (λ x. maximum (ids x)) e in
        let nothing =
          up_to-none lower (events_after lower s.table_name log)
            (events_after-above lower s.table_name log) in
        let e' : events
            ≡ map (hide contract.excluded_columns)
                (up_to lower (events_after lower s.table_name log)) =
          e ∙ ap (map (hide contract.excluded_columns)) (sym nothing) in
        let is_written = sym (store_events-written s events stats t (ground arith)) ∙ stored in
        let n_is : current_cursor stats.last_event_id s.cursor ≡ lower =
          ap (λ o. current_cursor o s.cursor) last_is in
        (
          lower,
          omega arith,
          subst (λ x. IsCurrent contract.excluded_columns s.table_name x lower) is_written
              (rw n_is (written contract s t lower events asc same (omega arith) h e')),
        )

  -- The three ways through `_run_table`.
  pub run_table-some :
      (s : BronzeState) (contract : BronzeTableContract) (upper : ℕ) (t : Option Table)
      → get_bronze_contract s.table_name ≡ ok contract
      → run_table json delta cfg batch_id log s (some upper) t
        ≡ ingest_events json delta cfg batch_id log s contract (some upper) t
  unfolding run_table
  run_table-some s contract upper t hc = elim (Bool-cases (is_some s.delta_state)) [
    | inl b ↦ rw (hc, b)
    | inr b ↦ rw (hc, b)
  ]

  pub run_table-fresh :
      (s : BronzeState) (contract : BronzeTableContract) (upper : Option ℕ) (t : Option Table)
      → get_bronze_contract s.table_name ≡ ok contract
      → is_some s.delta_state ≡ false
      → run_table json delta cfg batch_id log s upper t
        ≡ ingest_events json delta cfg batch_id log s contract upper t
  unfolding run_table
  run_table-fresh s contract upper t hc b = rw (hc, b)

  pub run_table-idle :
      (s : BronzeState) (contract : BronzeTableContract) (t : Option Table)
      → get_bronze_contract s.table_name ≡ ok contract
      → is_some s.delta_state ≡ true
      → run_table json delta cfg batch_id log s none t
        ≡ ok (result batch_id s 0 (count_operations [] operations), t)
  unfolding run_table
  run_table-idle s contract t hc b = rw (hc, b)

  contract-name :
      (name : String) {c : BronzeTableContract}
      → get_bronze_contract name ≡ ok c
      → c.table_name ≡ name
  unfolding get_bronze_contract
  contract-name name {c} h =
      AllEntries-get (λ k (c : BronzeTableContract). c.table_name ≡ k) name bronze_tables
        (
          refl,
          (
            refl,
            (refl, (refl, (refl, (refl, (refl, (refl, (refl, (refl, (refl, (refl, tt)))))))))),
          ),
        )
        (index-eq-ok (get name bronze_tables) (value_error "Unknown Bronze table") h)

  -- Let the event ids of the outbox ascend, the table be known, its state be the one read from its
  -- history, and its rows be the outbox's prefix up to the cursor of that state. Where the run over the
  -- bounded batch returns, the table holds the prefix up to a cursor that is not smaller, and this
  -- cursor is the one that the next run reads from the history.
  pub run_table-IsCurrent :
      (s : BronzeState) (contract : BronzeTableContract) (t : Option Table) {r : BronzeTableResult}
      {t' : Option Table}
      → IsAscending (ids log)
      → get_bronze_contract s.table_name ≡ ok contract
      → table_state json delta s.table_name t ≡ ok s
      → IsIngested json delta contract.excluded_columns s.table_name log t (lower_bound s.cursor)
      → run_table json delta cfg batch_id log s (batch_upper_bound cfg s.cursor s.table_name log) t
        ≡ ok (r, t')
      → (c : ℕ) × (lower_bound s.cursor ≤ c) × IsCurrent contract.excluded_columns s.table_name t' c
  run_table-IsCurrent s contract t {r} {t'} asc hc read h run =
      let same = contract-name s.table_name hc in
      let unique = IsAscendingLog-IsUnique (ids log) asc in
      elim (Option-cases (batch_upper_bound cfg s.cursor s.table_name log)) [
        | inr (upper, e) ↦
            ingest-some contract s t asc same h upper {r = r}
              (batch_upper_bound-some cfg s.cursor s.table_name log unique e)
              (sym (run_table-some s contract upper t hc) ∙ (rw e at run))
        | inl e ↦ elim (Bool-cases (is_some s.delta_state)) [
          | inl exists ↦
              let same_table : t ≡ t' =
                ap (λ x. x.1)
                  (ok-injective (sym (run_table-idle s contract t hc exists) ∙ (rw e at run))) in
              (
                lower_bound s.cursor,
                omega arith,
                subst
                    (λ x. IsCurrent contract.excluded_columns s.table_name x (lower_bound s.cursor))
                    same_table (record { state = s; read = read; at_cursor = refl; prefix = h }),
              )
          | inr fresh ↦
              ingest-none contract s t asc same h {r = r} fresh
                (sym (run_table-fresh s contract none t hc fresh) ∙ (rw e at run))
        ]
      ]
