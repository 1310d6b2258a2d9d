-- ===== src/Ingest/Lake.antt =====
-- `process` of `BronzeExtractor.run`, table after table.
use azure_lakehouse_pipeline.Dict.{member, Dict, get}
use azure_lakehouse_pipeline.Json.{JsonCodec}
use azure_lakehouse_pipeline.Prelude.{
  List, String, ◌∷◌, ◌≡◌, ◌∙◌, false, [], ap, str_eq, Option, ℕ, some, sym, All, inr, Bool-cases,
  inl, arith, eq_iff, none, Bool,
}
use azure_lakehouse_pipeline.Delta.Log.{DeltaLog}
use azure_lakehouse_pipeline.Ingest.Table.{
  BronzeState, BronzeRow, table_state, read_cursor, run_table,
}
use azure_lakehouse_pipeline.Ingest.Extract.{
  run_tables, process, set_table, run_unread, run_started,
}
use azure_lakehouse_pipeline.Ingest.Query.{
  BatchConfig, ChangeEvent, ids, batch_upper_bound, lower_bound,
}
use azure_lakehouse_pipeline.Contracts.Bronze.{BronzeTableContract, get_bronze_contract}
use azure_lakehouse_pipeline.Result.{
  ok, >>=-eq-ok, ok-injective, Result-cases, index, key_error, index-eq-ok, Error, raise,
}
use azure_lakehouse_pipeline.Ingest.Order.{IsAscending}
use azure_lakehouse_pipeline.Manifest.{BronzeTableResult}
use azure_lakehouse_pipeline.Ingest.Run.{IsCurrent, run_table-IsCurrent}
use azure_lakehouse_pipeline.Delta.{try_delta_table_state}
use mathlib.Core.Path.{subst}
use azure_lakehouse_pipeline.Ingest.Exact.{IsIngested}
use azure_lakehouse_pipeline.Ingest.States.{HasNoDuplicates, names_of}

module _ (json : JsonCodec) (delta : DeltaLog json.Text BronzeRow) (cfg : BatchConfig)
    (batch_id : String) (log : List ChangeEvent) where
  open delta use {Table}

  -- Every known table holds the outbox's prefix up to the cursor that its history says.
  abbrev pub IsLake : (String → Option Table) → Type 0
  IsLake lake =
      (name : String) (contract : BronzeTableContract)
      → get_bronze_contract name ≡ ok contract
      → (c : ℕ) × IsCurrent json delta cfg batch_id log contract.excluded_columns name (lake name) c

  -- A state that was read from the lake, with its bound.
  abbrev pub IsReady : Dict (Option ℕ) → (String → Option Table) → BronzeState → Type 0
  IsReady bounds lake s =
      (table_state json delta s.table_name (lake s.table_name) ≡ ok s)
      × (get s.table_name bounds ≡ some (batch_upper_bound cfg s.cursor s.table_name log))

  pub table_state-name :
      (name : String) (t : Option Table) {s : BronzeState}
      → table_state json delta name t ≡ ok s
      → s.table_name ≡ name
  unfolding table_state
  table_state-name name t {s} h =
      let (st, e, k) =
        >>=-eq-ok
          (try_delta_table_state json "postgres_to_bronze"
            (elim t [ none ↦ none | some t ↦ some (delta.history t) ]))
          _ h in
      let (cursor, e', k') = >>=-eq-ok (read_cursor st) _ k in
      ap (λ (x : BronzeState). x.table_name) (sym (ok-injective k'))

  -- One table that is run, from the state that was read of it.
  process-IsCurrent :
      (bounds : Dict (Option ℕ)) (s : BronzeState) (lake : String → Option Table)
      (contract : BronzeTableContract) {r : BronzeTableResult} {t : Option Table}
      → IsAscending (ids log)
      → IsReady bounds lake s
      → IsLake lake
      → process json delta cfg batch_id log bounds s lake ≡ ok (r, t)
      → get_bronze_contract s.table_name ≡ ok contract
      → (c : ℕ) × IsCurrent json delta cfg batch_id log contract.excluded_columns s.table_name t c
  unfolding process
  process-IsCurrent bounds s lake contract {r} {t} asc (read, bound) h done hc =
      let (c, now) = h s.table_name contract hc in
      let (b, eb, k) =
        >>=-eq-ok (index (get s.table_name bounds) (key_error "upper_bounds")) _ done in
      let bound_is : b ≡ batch_upper_bound cfg s.cursor s.table_name log =
        let found =
          sym (index-eq-ok (get s.table_name bounds) (key_error "upper_bounds") eb) ∙ bound in
        cc found in
      let same_state : now.state ≡ s = ok-injective (sym now.read ∙ read) in
      let at : c ≡ lower_bound s.cursor =
        sym now.at_cursor ∙ ap (λ (x : BronzeState). lower_bound x.cursor) same_state in
      let (c', le, next) =
        run_table-IsCurrent json delta cfg batch_id log s contract (lake s.table_name) {r = r}
          {t' = t} asc hc read
          (subst
            (λ n.
              IsIngested json delta contract.excluded_columns s.table_name log (lake s.table_name)
                n)
            at now.prefix)
          (subst (λ u. run_table json delta cfg batch_id log s u (lake s.table_name) ≡ ok (r, t))
            bound_is k) in
      (c', next)

  process-IsLake :
      (bounds : Dict (Option ℕ)) (s : BronzeState) (lake : String → Option Table)
      {r : BronzeTableResult} {t : Option Table}
      → IsAscending (ids log)
      → IsReady bounds lake s
      → IsLake lake
      → process json delta cfg batch_id log bounds s lake ≡ ok (r, t)
      → IsLake (set_table s.table_name t lake)
  process-IsLake bounds s lake {r} {t} asc ready h done = λ name contract hc.
      elim (Bool-cases (str_eq s.table_name name)) [
        | inr other ↦ rw other (h name contract hc)
        | inl same ↦
            let e : s.table_name ≡ name = ground (arith, eq_iff s.table_name name) in
            rw same (
              subst
                (λ n.
                  (c : ℕ) × IsCurrent json delta cfg batch_id log contract.excluded_columns n t c)
                e
                (process-IsCurrent bounds s lake contract {r = r} asc ready h done
                  (ap get_bronze_contract e ∙ hc)))
      ]

  IsReady-set_table :
      (bounds : Dict (Option ℕ)) (name : String) (t : Option Table) (lake : String → Option Table)
      (states : List BronzeState)
      → member name (names_of states) ≡ false
      → All (IsReady bounds lake) states
      → All (IsReady bounds (set_table name t lake)) states
  IsReady-set_table bounds name t lake [] new h = tt
  IsReady-set_table bounds name t lake (s ∷ states) new ((read, bound), h) =
      let other : str_eq name s.table_name ≡ false =
        ground (arith, eq_iff name s.table_name, eq_iff s.table_name name) in
      let rest : member name (names_of states) ≡ false = ground arith in
      ((rw other read, bound), IsReady-set_table bounds name t lake states rest h)

  run_unread-IsLake :
      (bounds : Dict (Option ℕ)) (s : BronzeState) (lake : String → Option Table)
      → IsAscending (ids log)
      → IsReady bounds lake s
      → IsLake lake
      → IsLake (run_unread json delta cfg batch_id log bounds s lake)
  unfolding run_unread
  run_unread-IsLake bounds s lake asc ready h =
      elim (Result-cases (process json delta cfg batch_id log bounds s lake)) [
        | inr (e, failed) ↦ rw (failed, run_unread) h
        | inl ((r, t), e) ↦ rw (e, run_unread) (process-IsLake bounds s lake {r = r} asc ready h e)
      ]

  -- A table that is left unread touches no other.
  run_unread-IsReady :
      (bounds : Dict (Option ℕ)) (s : BronzeState) (lake : String → Option Table)
      (states : List BronzeState)
      → member s.table_name (names_of states) ≡ false
      → All (IsReady bounds lake) states
      → All (IsReady bounds (run_unread json delta cfg batch_id log bounds s lake)) states
  unfolding run_unread
  run_unread-IsReady bounds s lake states new h =
      elim (Result-cases (process json delta cfg batch_id log bounds s lake)) [
        | inr (e, failed) ↦ rw (failed, run_unread) h
        | inl ((r, t), e) ↦
            rw (e, run_unread) (IsReady-set_table bounds s.table_name t lake states new h)
      ]

  run_started-IsLake :
      (is_cancelled : String → Bool) (states : List BronzeState) (bounds : Dict (Option ℕ))
      (lake : String → Option Table)
      → IsAscending (ids log)
      → HasNoDuplicates (names_of states)
      → All (IsReady bounds lake) states
      → IsLake lake
      → IsLake (run_started json delta cfg batch_id log is_cancelled states bounds lake)
  unfolding run_started
  run_started-IsLake is_cancelled [] bounds lake asc d ready h = h
  run_started-IsLake is_cancelled (s ∷ states) bounds lake asc (new, d) (ready, all_ready) h =
      elim (Bool-cases (is_cancelled s.table_name)) [
        | inl skipped ↦
            rw skipped (run_started-IsLake is_cancelled states bounds lake asc d all_ready h)
        | inr runs ↦
            let next = run_unread json delta cfg batch_id log bounds s lake in
            rw runs (
              run_started-IsLake is_cancelled states bounds next asc d
                (run_unread-IsReady bounds s lake states new all_ready)
                (run_unread-IsLake bounds s lake asc ready h))
      ]

  run_tables-raise :
      (is_cancelled : String → Bool) (s : BronzeState) (states : List BronzeState)
      (bounds : Dict (Option ℕ)) (lake : String → Option Table) {e : Error}
      → process json delta cfg batch_id log bounds s lake ≡ raise e
      → (run_tables json delta cfg batch_id log is_cancelled (s ∷ states) bounds lake).1
        ≡ run_started json delta cfg batch_id log is_cancelled states bounds lake
  unfolding run_tables
  run_tables-raise is_cancelled s states bounds lake e = rw (e, run_tables)

  run_tables-ok :
      (is_cancelled : String → Bool) (s : BronzeState) (states : List BronzeState)
      (bounds : Dict (Option ℕ)) (lake : String → Option Table) {r : BronzeTableResult}
      {t : Option Table}
      → process json delta cfg batch_id log bounds s lake ≡ ok (r, t)
      → (run_tables json delta cfg batch_id log is_cancelled (s ∷ states) bounds lake).1
        ≡ (run_tables json delta cfg batch_id log is_cancelled states bounds
            (set_table s.table_name t lake)).1
  unfolding run_tables
  run_tables-ok is_cancelled s states bounds lake e = rw (e, run_tables)

  pub run_tables-IsLake :
      (is_cancelled : String → Bool) (states : List BronzeState) (bounds : Dict (Option ℕ))
      (lake : String → Option Table)
      → IsAscending (ids log)
      → HasNoDuplicates (names_of states)
      → All (IsReady bounds lake) states
      → IsLake lake
      → IsLake (run_tables json delta cfg batch_id log is_cancelled states bounds lake).1
  unfolding run_tables
  run_tables-IsLake is_cancelled [] bounds lake asc d ready h = h
  run_tables-IsLake is_cancelled (s ∷ states) bounds lake asc (new, d) (ready, all_ready) h =
      elim (Result-cases (process json delta cfg batch_id log bounds s lake)) [
        | inr (e, failed) ↦
            subst IsLake (sym (run_tables-raise is_cancelled s states bounds lake failed))
              (run_started-IsLake is_cancelled states bounds lake asc d all_ready h)
        | inl ((r, t), e) ↦
            subst IsLake (sym (run_tables-ok is_cancelled s states bounds lake {r = r} e)) (
              run_tables-IsLake is_cancelled states bounds (set_table s.table_name t lake) asc d
                (IsReady-set_table bounds s.table_name t lake states new all_ready)
                (process-IsLake bounds s lake {r = r} asc ready h e))
      ]
