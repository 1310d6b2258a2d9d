-- ===== src/Silver/Covers.antt =====
-- pipelines/build_silver.py: every run that returns has brought a Silver table to its Bronze version.
use azure_lakehouse_pipeline.Json.{JsonCodec, Json}
use azure_lakehouse_pipeline.Upsert.Plan.{DeltaTables}
use azure_lakehouse_pipeline.Silver.{SparkFunctions}
use azure_lakehouse_pipeline.Silver.Builder.{
  BronzeReader, attempt, silver_pipeline_name, bronze_version, processed_version,
}
use azure_lakehouse_pipeline.Prelude.{
  ℕ, String, ◌≡◌, Option, ◌+◌, ap, none, some, sym, ◌∙◌, Bool, true, false, refl,
}
use azure_lakehouse_pipeline.Silver.Outcomes.{Silver, attempt-ok, raise-ok}
use azure_lakehouse_pipeline.Contracts.Silver.{SilverTableContract, get_silver_contract}
use azure_lakehouse_pipeline.Prelude.Int.{ℤ, pos, eq_ℤ, ltb_ℤ}
use azure_lakehouse_pipeline.Manifest.{SilverTableResult, BronzeBatchManifest}
use azure_lakehouse_pipeline.Result.{ok, ok-injective}
use azure_lakehouse_pipeline.Silver.Run.{
  replaced_version, Ran, after_version, by_order, run_table, from_progress, unchanged, with_state,
  history_of,
}
use azure_lakehouse_pipeline.Silver.Consumed.{IsProgressed, version_after, replaced_version_lem}
use azure_lakehouse_pipeline.Delta.{DeltaTableState, try_delta_table_state}
use azure_lakehouse_pipeline.Dict.{Dict}
use azure_lakehouse_pipeline.Upsert.Keys.{eq_ℤ-sound}
use azure_lakehouse_pipeline.Silver.Branches.{
  Returns, IsCommittedAt, returned, initialize-IsProgressed, extend-IsProgressed,
  replace-IsProgressed,
}

module _ (json : JsonCodec) (tables : DeltaTables json.Text) (spark : SparkFunctions)
    (bronze : BronzeReader json.Text) where
  open json use {Text}
  open tables use {Table}

  module _ (contract : SilverTableContract) (n : ℕ) (batch_id : String)
      (state : Silver json tables spark bronze) where
    abbrev after_previous : DeltaTableState → Option ℤ → Ran json tables spark bronze
    after_previous s previous =
        after_version json tables spark bronze contract previous (pos n) batch_id s state

    -- The run at the Bronze version that the table has.
    unchanged-IsProgressed :
        (s : DeltaTableState) (t : Table) {state' : Silver json tables spark bronze}
        {r : SilverTableResult}
        → state.current ≡ some t
        → try_delta_table_state json silver_pipeline_name (some (tables.history t)) ≡ ok (some s)
        → processed_version s.progress ≡ ok (some (pos n))
        → (version : Option ℕ) → s.progress_version ≡ version
        → Returns json tables spark bronze
            (unchanged json tables spark bronze contract version state)
            state'
            r
        → IsCommittedAt json tables spark bronze n r state'
    unfolding unchanged
    unchanged-IsProgressed s t is_table read processed none version h =
        absurd (raise-ok (ap (λ x. x.1) h))
    unchanged-IsProgressed s t is_table read processed (some v) version h =
        returned json tables spark bronze n (pos v) contract state
          (record {
            table = t;
            is_table = is_table;
            state = s;
            read = read;
            processed = processed;
            commit = (v, version, refl);
          })
          h

    by_order-IsProgressed :
        (ahead at_version : Bool) (previous : ℤ) (s : DeltaTableState) (t : Table)
        {state' : Silver json tables spark bronze} {r : SilverTableResult}
        → state.current ≡ some t
        → try_delta_table_state json silver_pipeline_name (some (tables.history t)) ≡ ok (some s)
        → processed_version s.progress ≡ ok (some previous)
        → pos (s.version + 1) ≡ pos (version_after json tables state.current)
        → eq_ℤ previous (pos n) ≡ at_version
        → Returns json tables spark bronze
            (by_order json tables spark bronze contract ahead at_version previous
              (pos n)
              batch_id
              s
              state)
            state'
            r
        → IsCommittedAt json tables spark bronze n r state'
    unfolding by_order
    by_order-IsProgressed true at_version previous s t is_table read processed version same h =
        absurd (raise-ok (ap (λ x. x.1) h))
    by_order-IsProgressed false true previous s t is_table read processed version same h =
        unchanged-IsProgressed s t is_table read
          (processed ∙ ap (λ v. ok (some v)) (eq_ℤ-sound previous (pos n) same)) s.progress_version
          refl h
    by_order-IsProgressed false false previous s t is_table read processed version same h =
        extend-IsProgressed json tables spark bronze contract n batch_id state previous s version h

    after_version-IsProgressed :
        (previous : Option ℤ) (s : DeltaTableState) (t : Table)
        {state' : Silver json tables spark bronze} {r : SilverTableResult}
        → state.current ≡ some t
        → try_delta_table_state json silver_pipeline_name (some (tables.history t)) ≡ ok (some s)
        → processed_version s.progress ≡ ok previous
        → pos (s.version + 1) ≡ pos (version_after json tables state.current)
        → Returns json tables spark bronze
            (after_version json tables spark bronze contract previous (pos n) batch_id s state)
            state'
            r
        → IsCommittedAt json tables spark bronze n r state'
    unfolding after_version
    after_version-IsProgressed none s t is_table read processed version h =
        absurd (raise-ok (ap (λ x. x.1) h))
    after_version-IsProgressed (some previous) s t is_table read processed version h =
        by_order-IsProgressed (ltb_ℤ (pos n) previous) (eq_ℤ previous (pos n)) previous s t is_table
          read processed version refl h

    from_progress-IsProgressed :
        (s : DeltaTableState) (t : Table) (progress : Option (Dict Json))
        {state' : Silver json tables spark bronze} {r : SilverTableResult}
        → state.current ≡ some t
        → try_delta_table_state json silver_pipeline_name (some (tables.history t)) ≡ ok (some s)
        → s.progress ≡ progress
        → pos (s.version + 1) ≡ pos (version_after json tables state.current)
        → Returns json tables spark bronze
            (from_progress json tables spark bronze contract (pos n) batch_id s progress state)
            state'
            r
        → IsCommittedAt json tables spark bronze n r state'
    unfolding from_progress
    from_progress-IsProgressed s t none is_table read same version h =
        initialize-IsProgressed json tables spark bronze contract n batch_id state h
    from_progress-IsProgressed s t (some progress) is_table read same version h =
        let (previous, processed, h1) =
          attempt-ok (processed_version (some progress)) state (after_previous s) h in
        after_version-IsProgressed previous s t is_table read
          (ap processed_version same ∙ processed) version h1

    with_state-IsProgressed :
        (full_rebuild : Bool) (current : Option Table) (ss : Option DeltaTableState)
        {state' : Silver json tables spark bronze} {r : SilverTableResult}
        → state.current ≡ current
        → try_delta_table_state json silver_pipeline_name (history_of json tables spark current)
          ≡ ok ss
        → replaced_version json tables spark bronze ss
          ≡ pos (version_after json tables state.current)
        → Returns json tables spark bronze
            (with_state json tables spark bronze contract (pos n) batch_id full_rebuild ss state)
            state'
            r
        → IsCommittedAt json tables spark bronze n r state'
    unfolding with_state try_delta_table_state
    with_state-IsProgressed full_rebuild current none same read version h =
        replace-IsProgressed json tables spark bronze contract n batch_id state none version h
    with_state-IsProgressed true current (some s) same read version h =
        replace-IsProgressed json tables spark bronze contract n batch_id state (some s) version h
    with_state-IsProgressed false none (some s) same read version h = cc
    with_state-IsProgressed false (some t) (some s) same read version h =
        from_progress-IsProgressed s t s.progress same read refl version h

  abbrev pub on_state :
      String
      → Bool
      → Silver json tables spark bronze
      → SilverTableContract
      → ℤ
      → Option DeltaTableState
      → Ran json tables spark bronze
  on_state batch_id full_rebuild state contract version ss =
      with_state json tables spark bronze contract version batch_id full_rebuild ss state

  abbrev pub on_version :
      String
      → Bool
      → Silver json tables spark bronze
      → SilverTableContract
      → ℤ
      → Ran json tables spark bronze
  on_version batch_id full_rebuild state contract version =
      attempt
        (try_delta_table_state json silver_pipeline_name
          (history_of json tables spark state.current))
        state (on_state batch_id full_rebuild state contract version)

  abbrev pub on_contract :
      Option BronzeBatchManifest
      → String
      → String
      → Bool
      → Silver json tables spark bronze
      → SilverTableContract
      → Ran json tables spark bronze
  on_contract manifest table_name batch_id full_rebuild state contract =
      attempt (bronze_version json table_name manifest bronze.bronze_history) state
        (on_version batch_id full_rebuild state contract)

  -- A run of a table that returns at Bronze version `n` leaves a Silver table from whose history the
  -- next run reads the processed Bronze version `n`, and the committed version of the result is the
  -- version of the commit that carries this progress. This holds for a rebuild, for a missing table,
  -- for the first batch on a table that CDC has written, for the same Bronze version again and for
  -- newer ones.
  pub run_table-IsProgressed :
      (manifest : Option BronzeBatchManifest) (table_name batch_id : String) (full_rebuild : Bool)
      (n : ℕ) (state : Silver json tables spark bronze) {state' : Silver json tables spark bronze}
      {r : SilverTableResult}
      → bronze_version json table_name manifest bronze.bronze_history ≡ ok (pos n)
      → run_table json tables spark bronze manifest table_name batch_id full_rebuild state
        ≡ (state', ok r)
      → IsProgressed json tables (pos n) r.committed_version state'.current
  unfolding run_table
  run_table-IsProgressed manifest table_name batch_id full_rebuild n state version h =
      let (contract, known, h1) =
        attempt-ok (get_silver_contract table_name) state
          (on_contract manifest table_name batch_id full_rebuild state) h in
      let (v, is_v, h2) =
        attempt-ok (bronze_version json table_name manifest bronze.bronze_history) state
          (on_version batch_id full_rebuild state contract) h1 in
      let (ss, read, h3) =
        attempt-ok
          (try_delta_table_state json silver_pipeline_name
            (history_of json tables spark state.current))
          state (on_state batch_id full_rebuild state contract v) h2 in
      with_state-IsProgressed contract n batch_id state full_rebuild state.current ss refl read
        (replaced_version_lem json tables spark bronze state.current ss read)
        (ap (λ x. on_state batch_id full_rebuild state contract x ss)
            (ok-injective (sym version ∙ is_v))
          ∙ h3)
