-- ===== src/Silver/Rerun.antt =====
-- pipelines/build_silver.py: the same Bronze version again.
use azure_lakehouse_pipeline.Silver.Builder.{
  result, processed_version, silver_pipeline_name, attempt,
}
use azure_lakehouse_pipeline.Json.{JsonCodec, Json}
use azure_lakehouse_pipeline.Upsert.Plan.{DeltaTables}
use azure_lakehouse_pipeline.Silver.{SparkFunctions}
use azure_lakehouse_pipeline.Silver.Builder.{BronzeReader, bronze_version}
use azure_lakehouse_pipeline.Silver.Run.{
  with_state, from_progress, after_version, by_order, unchanged, run_table, history_of,
}
use azure_lakehouse_pipeline.Prelude.{
  Option, String, ℕ, ◌≡◌, false, some, true, arith, ap, ◌∙◌, none, sym,
}
use azure_lakehouse_pipeline.Manifest.{BronzeBatchManifest, SilverTableResult}
use azure_lakehouse_pipeline.Prelude.Int.{ℤ, pos, ltb_ℤ, eq_ℤ}
use azure_lakehouse_pipeline.Silver.Outcomes.{Silver}
use azure_lakehouse_pipeline.Contracts.Silver.{SilverTableContract, get_silver_contract}
use azure_lakehouse_pipeline.Result.{ok, Result}
use azure_lakehouse_pipeline.Silver.Consumed.{IsProgressed}
use azure_lakehouse_pipeline.Delta.{DeltaTableState, try_delta_table_state}
use azure_lakehouse_pipeline.Dict.{Dict}
use mathlib.Core.Path.{ap₂}
use azure_lakehouse_pipeline.Silver.Covers.{on_contract, on_version, on_state}

module _ (json : JsonCodec) (tables : DeltaTables json.Text) (spark : SparkFunctions)
    (bronze : BronzeReader json.Text) where
  open tables use {Table}

  abbrev Ran : Type 0
  Ran = Silver json tables spark bronze × Result SilverTableResult

  module _ (contract : SilverTableContract) (n : ℕ) (batch_id : String)
      (state : Silver json tables spark bronze) where
    order_same : (ltb_ℤ (pos n) (pos n) ≡ false) × (eq_ℤ (pos n) (pos n) ≡ true)
    order_same = (ground arith, ground arith)

    after_version-same :
        (s : DeltaTableState) (k : ℕ)
        → s.progress_version ≡ some k
        → after_version json tables spark bronze contract (some (pos n)) (pos n) batch_id s state
          ≡ (state, ok (result contract (pos k)))
    unfolding after_version by_order unchanged
    after_version-same s k version =
        ap₂
          (λ ahead same.
            by_order json tables spark bronze contract ahead same (pos n) (pos n) batch_id s state)
          order_same.0 order_same.1
        ∙ ap (λ v. unchanged json tables spark bronze contract v state) version

    from_progress-same :
        (s : DeltaTableState) (progress : Option (Dict Json)) (k : ℕ)
        → processed_version progress ≡ ok (some (pos n))
        → s.progress_version ≡ some k
        → from_progress json tables spark bronze contract (pos n) batch_id s progress state
          ≡ (state, ok (result contract (pos k)))
    unfolding from_progress processed_version
    from_progress-same s none k processed version = cc
    from_progress-same s (some p) k processed version =
        ap
          (λ (r : Result (Option ℤ)). attempt r state (λ previous.
            after_version json tables spark bronze contract previous (pos n) batch_id s state))
          processed
        ∙ after_version-same s k version

    with_state-same :
        (s : DeltaTableState) (k : ℕ)
        → processed_version s.progress ≡ ok (some (pos n))
        → s.progress_version ≡ some k
        → with_state json tables spark bronze contract (pos n) batch_id false (some s) state
          ≡ (state, ok (result contract (pos k)))
    unfolding with_state
    with_state-same s k processed version = from_progress-same s s.progress k processed version

  -- Where the progress of the Silver table is Bronze version `n` and the contract is known, a run at
  -- this version that does not rebuild changes nothing, and returns the version of the commit that
  -- carries the progress.
  pub run_table-unchanged :
      (manifest : Option BronzeBatchManifest) (table_name batch_id : String) (n : ℕ) (v : ℤ)
      (state : Silver json tables spark bronze) (contract : SilverTableContract)
      → get_silver_contract table_name ≡ ok contract
      → bronze_version json table_name manifest bronze.bronze_history ≡ ok (pos n)
      → IsProgressed json tables (pos n) v state.current
      → run_table json tables spark bronze manifest table_name batch_id false state
        ≡ (state, ok (result contract v))
  unfolding run_table
  run_table-unchanged manifest table_name batch_id n v state contract known version good =
      let (k, at_k, is_k) = good.commit in
      let read_state : try_delta_table_state json silver_pipeline_name
            (history_of json tables spark state.current)
          ≡ ok (some good.state) =
        ap (λ c. try_delta_table_state json silver_pipeline_name (history_of json tables spark c))
          good.is_table
        ∙ good.read in
      ap
        (λ r.
          attempt r state
            (on_contract json tables spark bronze manifest table_name batch_id false state))
        known
      ∙ ap
          (λ r. attempt r state (on_version json tables spark bronze batch_id false state contract))
          version
      ∙ ap
          (λ r.
            attempt r state
              (on_state json tables spark bronze batch_id false state contract (pos n)))
          read_state
      ∙ with_state-same contract n batch_id state good.state k good.processed at_k
      ∙ ap (λ x. (state, ok (result contract x))) (sym is_k)
