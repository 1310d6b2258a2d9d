-- ===== src/Jobs/RunMode.antt =====
-- `run_mode`: the stages of a batch, in their order, with what each hands to the next.
use azure_lakehouse_pipeline.Jobs.Safe.{is_safe_name}
use azure_lakehouse_pipeline.Result.{Result, raise, value_error}
use azure_lakehouse_pipeline.Jobs.Trace.{
  ◌>>=◌, ◌>>◌, with_lock, Lock, Run, RunStatus, emit, pure, silver_lock, gold_lock, perform, when,
  logged, extract, lift, silver_build, gold_build, running, preflight, validation,
  release_validation, Acquisition,
}
use azure_lakehouse_pipeline.Manifest.{
  BronzeBatchManifest, PipelineManifest, BronzeTableResult, SilverBatchManifest, silver, bronze,
  results,
}
use azure_lakehouse_pipeline.Prelude.{
  Option, Bool, true, List, String, false, some, if◌then◌else◌, [], none, ◌&&◌, not,
}
use azure_lakehouse_pipeline.Jobs.Args.{
  Mode, Args, validate, check_postgres, in_bronze, is_silver, in_silver, in_preflight, in_gold,
  in_all, in_release,
}
use azure_lakehouse_pipeline.Prelude.Int.{ℤ}
use azure_lakehouse_pipeline.Jobs.Current.{is_no_change_batch, total_record_count}

-- What `run_mode` calls: the stages, the check of the downstream tables, and the taking and
-- the release of a lock.
pub record Stages : Type 0 where
  pub check_postgres_source : Result (Unit {0})
  pub extract_all_to_bronze : Option (List String) → Result BronzeBatchManifest
  pub build_silver :
      Option (List String) → Bool → Option BronzeBatchManifest → Result SilverBatchManifest
  pub build_gold : Bool → Option SilverBatchManifest → Result (Unit {0})
  pub validate_batch_lakehouse : Result (Unit {0})
  pub validate_gold_release : Option SilverBatchManifest → Result (Unit {0})
  pub downstream : Result Bool
  pub take_lock : Lock → Acquisition
  pub release_lock : Lock → Result (Unit {0})

-- `isinstance(upstream_manifest, ...)`.
abbrev pub bronze_of : Option PipelineManifest → Option BronzeBatchManifest
bronze_of (some (bronze m)) = some m
bronze_of _ = none

abbrev pub silver_of : Option PipelineManifest → Option SilverBatchManifest
silver_of (some (silver m)) = some m
silver_of _ = none

abbrev pub results_of : Option BronzeBatchManifest → List BronzeTableResult
results_of none = []
results_of (some m) = results m

-- `_manifest_record_count`.
unfoldable pub manifest_record_count : Option PipelineManifest → Option ℤ
unfolding total_record_count
manifest_record_count (some (bronze m)) = total_record_count (results m)
manifest_record_count _ = none

-- `log_batch_run_status`, which refuses an unsafe batch id.
unfoldable pub log_batch_run_status : String → RunStatus → Option ℤ → Run (Unit {0})
unfolding is_safe_name
log_batch_run_status batch_id status total_records =
    if is_safe_name batch_id
    then emit (logged status total_records)
    else lift (raise (value_error "Unsafe batch_id"))

-- `with lock if test else nullcontext(): body`.
unfoldable pub guarded : {A : Type 0} → Bool → Stages → Lock → Run A → Run A
unfolding with_lock
guarded true stages lock body =
    with_lock (stages.take_lock lock) (stages.release_lock lock) lock body
guarded false stages lock body = body

abbrev pub is_check : Mode → Bool
is_check check_postgres = true
is_check _ = false

abbrev pub is_validate : Mode → Bool
is_validate validate = true
is_validate _ = false

-- `cloud` is `config.spark.master is None`.
module _ (stages : Stages) (cloud : Bool) (batch_id : String) (args : Args) where
  -- The first half of the Bronze branch, and whether the rest of the pipeline is skipped.
  unfoldable pub bronze_stage : Run (BronzeBatchManifest × Bool)
  unfolding log_batch_run_status total_record_count is_no_change_batch
  bronze_stage = do
    manifest ← perform extract (stages.extract_all_to_bronze args.tables)
    log_batch_run_status batch_id running (total_record_count (results manifest))
    skip ←
        (if in_all args.mode
            && (not args.full_rebuild_silver
                && (not args.full_rebuild_gold && is_no_change_batch (results manifest)))
          then lift stages.downstream
          else pure false)
    pure (manifest, skip)

  unfoldable pub silver_stage : Option BronzeBatchManifest → Run SilverBatchManifest
  unfolding guarded log_batch_run_status total_record_count
  silver_stage bronze_manifest = do
    silver_manifest ← guarded cloud stages silver_lock (
        perform silver_build (
          stages.build_silver (if is_silver args.mode then args.tables else none)
            args.full_rebuild_silver bronze_manifest))
    log_batch_run_status batch_id running (total_record_count (results_of bronze_manifest))
    pure silver_manifest

  unfoldable pub gold_stage :
      Option BronzeBatchManifest → Option SilverBatchManifest → Run (Unit {0})
  unfolding guarded log_batch_run_status total_record_count
  gold_stage bronze_manifest silver_manifest = do
    guarded cloud stages gold_lock
        (perform gold_build (stages.build_gold args.full_rebuild_gold silver_manifest))
    log_batch_run_status batch_id running (total_record_count (results_of bronze_manifest))

  abbrev pub output :
      Option BronzeBatchManifest → Option SilverBatchManifest → Option PipelineManifest
  output bronze_manifest silver_manifest =
      if in_bronze args.mode
      then elim bronze_manifest [ none ↦ none | some m ↦ some (bronze m) ]
      else if is_silver args.mode
      then elim silver_manifest [ none ↦ none | some m ↦ some (silver m) ]
      else none

  -- The branches after Bronze.
  unfoldable pub later_stages :
      Option BronzeBatchManifest → Option SilverBatchManifest → Run (Option PipelineManifest)
  unfolding silver_stage gold_stage
  later_stages bronze_manifest upstream_silver = do
    silver_manifest ←
        (if in_silver args.mode
          then (do m ← silver_stage bronze_manifest; pure (some m))
          else pure upstream_silver)
    when (in_gold args.mode) (gold_stage bronze_manifest silver_manifest)
    when (is_validate args.mode) (perform validation stages.validate_batch_lakehouse)
    when (in_release args.mode)
        (perform release_validation (stages.validate_gold_release silver_manifest))
    pure (output bronze_manifest silver_manifest)

  -- After Bronze: the rest of the pipeline, unless it is skipped.
  unfoldable pub after_bronze :
      Option SilverBatchManifest → BronzeBatchManifest × Bool → Run (Option PipelineManifest)
  unfolding later_stages
  after_bronze upstream_silver (manifest, skip) =
      if skip then pure (some (bronze manifest)) else later_stages (some manifest) upstream_silver

  unfoldable pub layers : Option PipelineManifest → Run (Option PipelineManifest)
  unfolding bronze_stage after_bronze
  layers upstream =
      if in_bronze args.mode
      then bronze_stage >>= after_bronze (silver_of upstream)
      else later_stages (bronze_of upstream) (silver_of upstream)

  unfoldable pub run_mode : Option PipelineManifest → Run (Option PipelineManifest)
  unfolding layers
  run_mode upstream = do
    when (in_preflight args.mode) (perform preflight stages.check_postgres_source)
    (if is_check args.mode then pure none else layers upstream)
