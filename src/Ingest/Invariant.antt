-- ===== src/Ingest/Invariant.antt =====
-- `BronzeExtractor.run` and `extract_all_to_bronze`, over all the Bronze tables.
use azure_lakehouse_pipeline.Dict.{Dict, get, subset, keys, of_entries}
use azure_lakehouse_pipeline.Json.{JsonCodec}
use azure_lakehouse_pipeline.Prelude.{
  List, String, map, ◌∷◌, ◌≡◌, ◌∙◌, [], ap, str_eq, Option, ℕ, refl, some, sym, All, inr,
  Bool-cases, inl, arith, eq_iff, none, Bool,
}
use azure_lakehouse_pipeline.Delta.Log.{DeltaLog}
use azure_lakehouse_pipeline.Ingest.Table.{BronzeState, BronzeRow, table_state, read_cursor, hide}
use azure_lakehouse_pipeline.Ingest.Extract.{
  cursors, run_tables, table_states, extract_all_to_bronze, run, tables_or_all, prepare,
}
use azure_lakehouse_pipeline.Ingest.Query.{
  BatchConfig, ChangeEvent, ids, batch_upper_bound, bounds_of, check_regression, source_max,
  read_batch_upper_bounds, events_after,
}
use azure_lakehouse_pipeline.Contracts.Bronze.{EventCursor, bronze_tables}
use azure_lakehouse_pipeline.Result.{ok, >>=-eq-ok, ok-injective, Result-cases, traverse}
use azure_lakehouse_pipeline.Ingest.Order.{IsAscending}
use azure_lakehouse_pipeline.Delta.{try_delta_table_state}
use mathlib.Core.Path.{subst, ap₂}
use azure_lakehouse_pipeline.Ingest.Exact.{up_to-none}
use azure_lakehouse_pipeline.Prelude.Int.{negsuc}
use azure_lakehouse_pipeline.Ingest.Batch.{events_after-above}
use azure_lakehouse_pipeline.Dict.Laws.{of_entries-distinct}
use azure_lakehouse_pipeline.Ingest.States.{
  HasNoDuplicates, names_of, cursors-IsDistinct, get-cursors,
}
use azure_lakehouse_pipeline.Ingest.Lake.{IsReady, IsLake, table_state-name, run_tables-IsLake}

module _ (json : JsonCodec) (delta : DeltaLog json.Text BronzeRow) (cfg : BatchConfig)
    (batch_id : String) (log : List ChangeEvent) where
  open delta use {Table}

  bounds_of-get :
      (cs : Dict (Option EventCursor)) {bounds : Dict (Option ℕ)} (name : String)
      (cursor : Option EventCursor)
      → bounds_of cfg log cs ≡ ok bounds
      → get name cs ≡ some cursor
      → get name bounds ≡ some (batch_upper_bound cfg cursor name log)
  unfolding bounds_of get
  bounds_of-get [] name cursor h e = absurd (ground arith)
  bounds_of-get ((table, c) ∷ cs) {bounds} name cursor h e =
      let (u, hu, k) = >>=-eq-ok (check_regression c (source_max table log)) _ h in
      let (rest, hr, k') = >>=-eq-ok (bounds_of cfg log cs) _ k in
      let ih = bounds_of-get cs {bounds = rest} name cursor hr in
      let same = ok-injective k' in
      subst (λ b. get name b ≡ some (batch_upper_bound cfg cursor name log)) same
        (elim (Bool-cases (str_eq table name)) [
          | inl own ↦
              let e_table : table ≡ name = ground (arith, eq_iff table name) in
              let e_cursor : c ≡ cursor = ground arith in
              rw own (ap₂ (λ x n. some (batch_upper_bound cfg x n log)) e_cursor e_table)
          | inr other ↦ rw other (ih (rw other at e))
        ])

  states_sound :
      (names : List String) (lake : String → Option Table) {states : List BronzeState}
      → table_states json delta cfg batch_id log names lake ≡ ok states
      → (names_of states ≡ names)
        × All (λ s. table_state json delta s.table_name (lake s.table_name) ≡ ok s) states
  unfolding table_states
  states_sound [] lake {states} h =
      subst
        (λ ss.
          (names_of ss ≡ [])
          × All (λ s. table_state json delta s.table_name (lake s.table_name) ≡ ok s) ss)
        (ok-injective h) (refl, tt)
  states_sound (name ∷ names) lake {states} h =
      let (s, e, k) = >>=-eq-ok (table_state json delta name (lake name)) _ h in
      let (ss, e', k') =
        >>=-eq-ok (traverse (λ name. table_state json delta name (lake name)) names) _ k in
      let (rest_names, rest) = states_sound names lake {states = ss} e' in
      let named = table_state-name json delta cfg batch_id log name (lake name) e in
      subst
        (λ ss.
          (names_of ss ≡ name ∷ names)
          × All (λ s. table_state json delta s.table_name (lake s.table_name) ≡ ok s) ss)
        (ok-injective k')
        (
          ap₂ ◌∷◌ named rest_names,
          (subst (λ n. table_state json delta n (lake n) ≡ ok s) (sym named) e, rest),
        )

  All-IsReady :
      (states : List BronzeState) (bounds : Dict (Option ℕ)) (lake : String → Option Table)
      → All (λ s. table_state json delta s.table_name (lake s.table_name) ≡ ok s) states
      → All
          (λ s. get s.table_name bounds ≡ some (batch_upper_bound cfg s.cursor s.table_name log))
          states
      → All (IsReady json delta cfg batch_id log bounds lake) states
  All-IsReady [] bounds lake h b = tt
  All-IsReady (s ∷ states) bounds lake (h, hs) (b, bs) =
      ((h, b), All-IsReady states bounds lake hs bs)

  read_bounds :
      (states : List BronzeState) (cs : Dict (Option EventCursor)) {bounds : Dict (Option ℕ)}
      → bounds_of cfg log cs ≡ ok bounds
      → All (λ s. get s.table_name cs ≡ some s.cursor) states
      → All
          (λ s. get s.table_name bounds ≡ some (batch_upper_bound cfg s.cursor s.table_name log))
          states
  read_bounds [] cs h all = tt
  read_bounds (s ∷ states) cs {bounds} h (e, es) = (
    bounds_of-get cs {bounds = bounds} s.table_name s.cursor h e,
    read_bounds states cs {bounds = bounds} h es,
  )

  run-IsLake :
      (is_cancelled : String → Bool) (names : List String) (lake : String → Option Table)
      → IsAscending (ids log)
      → HasNoDuplicates names
      → IsLake json delta cfg batch_id log lake
      → IsLake json delta cfg batch_id log
          (run json delta cfg batch_id log is_cancelled names lake).1
  unfolding run prepare read_batch_upper_bounds
  run-IsLake is_cancelled names lake asc distinct h =
      elim (Result-cases (prepare json delta cfg batch_id log names lake)) [
        | inr (e, failed) ↦ rw (failed, run) h
        | inl ((states, bounds), e) ↦
            let (ss, es, k) = >>=-eq-ok (table_states json delta cfg batch_id log names lake) _ e in
            let (bs, eb, k') = >>=-eq-ok (bounds_of cfg log (of_entries (cursors ss))) _ k in
            let same_states : ss ≡ states = ap (λ x. x.0) (ok-injective k') in
            let same_bounds : bs ≡ bounds = ap (λ x. x.1) (ok-injective k') in
            let (named, read) = states_sound names lake {states = ss} es in
            let d : HasNoDuplicates (names_of ss) = subst HasNoDuplicates (sym named) distinct in
            let eb' : bounds_of cfg log (cursors ss) ≡ ok bs =
              ap (bounds_of cfg log)
                (sym (of_entries-distinct (cursors ss) (cursors-IsDistinct ss d)))
              ∙ eb in
            let ready =
              All-IsReady ss bs lake read
                (read_bounds ss (cursors ss) {bounds = bs} eb' (get-cursors ss d)) in
            rw (e, run)
              (subst
                (λ x.
                  IsLake json delta cfg batch_id log
                    (run_tables json delta cfg batch_id log is_cancelled x bounds lake).1)
                same_states
                (subst
                  (λ b.
                    IsLake json delta cfg batch_id log
                      (run_tables json delta cfg batch_id log is_cancelled ss b lake).1)
                  same_bounds
                  (run_tables-IsLake json delta cfg batch_id log is_cancelled ss bs lake asc d ready
                    h)))
      ]

  -- Where every known Bronze table holds a prefix of the outbox, an extraction keeps this so, whether it
  -- returns or raises, and whichever tables after one that raises the pool still runs: the rows of each
  -- table are, in order and once, the events of its source up to a cursor, and that cursor is what its
  -- history says. The event ids of the outbox ascend, and the selected tables have no duplicates.
  pub extract_all_to_bronze-IsLake :
      (is_cancelled : String → Bool) (table_names : Option (List String))
      (lake : String → Option Table)
      → IsAscending (ids log)
      → HasNoDuplicates (tables_or_all json delta cfg batch_id log table_names)
      → IsLake json delta cfg batch_id log lake
      → IsLake json delta cfg batch_id log
          (extract_all_to_bronze json delta cfg batch_id log is_cancelled table_names lake).1
  unfolding extract_all_to_bronze
  extract_all_to_bronze-IsLake is_cancelled table_names lake asc distinct h =
      let tables = tables_or_all json delta cfg batch_id log table_names in
      elim (Bool-cases (subset tables (keys bronze_tables))) [
        | inl known ↦
            rw (known, extract_all_to_bronze) (run-IsLake is_cancelled tables lake asc distinct h)
        | inr unknown ↦ rw (unknown, extract_all_to_bronze) h
      ]

  -- No Bronze table exists before the first run.
  pub empty-IsLake : IsLake json delta cfg batch_id log (λ name. none)
  unfolding table_state try_delta_table_state read_cursor
  empty-IsLake = λ name contract hc. (
    0,
    record {
      state = record {
        table_name = name;
        delta_state = none;
        cursor = none;
        processed_version = negsuc 0;
      };
      read = refl;
      at_cursor = refl;
      prefix =
          ap (map (hide contract.excluded_columns))
            (sym (up_to-none 0 (events_after 0 name log) (events_after-above 0 name log)));
    },
  )
