-- ===== src/Jobs/Main.antt =====
-- `main` of jobs/run_batch.py: the checks, the lock of a local run, the Spark session and the statuses.
use azure_lakehouse_pipeline.Prelude.{
  Option, Bool, none, String, if◌then◌else◌, true, List, some, false, ◌∷◌, [], not,
}
use azure_lakehouse_pipeline.Result.{Result, raise, ok, runtime_error}
use azure_lakehouse_pipeline.Json.{JsonCodec}
use azure_lakehouse_pipeline.Jobs.Args.{
  Args, is_blank, prepare_databricks_environment, check_args, upstream_manifest,
}
use azure_lakehouse_pipeline.Jobs.RunMode.{
  Stages, log_batch_run_status, run_mode, manifest_record_count, guarded,
}
use azure_lakehouse_pipeline.Manifest.{serialize_manifest, PipelineManifest}
use azure_lakehouse_pipeline.Jobs.Trace.{
  ◌>>=◌, ◌>>◌, on_error, Step, finally, Run, failed, stopped_session, lift, running, succeeded,
  local_lock, pure,
}

-- The settings of `config.spark` that `main` reads.
pub record SparkConfig : Type 0 where
  pub master : Option String
  pub stop_session : Bool

-- What `main` calls beside the stages: the configuration, the session and the Databricks secret.
pub record Environment : Type 0 where
  pub load_config : Result SparkConfig
  pub build_spark : Result (Unit {0})
  pub apply_secret : Option String → Result (Unit {0})
  -- How a call of `spark.stop()` ends.
  pub stop_spark : Result (Unit {0})
  pub new_batch_id : String

-- `args.batch_id or new_batch_id(...)`.
abbrev pub batch_id_of_run : Environment → Args → String
batch_id_of_run env args =
    if is_blank args.batch_id
    then env.new_batch_id
    else elim args.batch_id [ none ↦ env.new_batch_id | some s ↦ s ]

abbrev pub is_cloud : SparkConfig → Bool
is_cloud config = elim config.master [ none ↦ true | some s ↦ false ]

module _ (stages : Stages) (env : Environment) (args : Args) where
  abbrev pub batch_id : String
  batch_id = batch_id_of_run env args

  -- The body of `try`.
  unfoldable pub session : SparkConfig → Option PipelineManifest → Run (Option PipelineManifest)
  unfolding log_batch_run_status run_mode manifest_record_count
  session config upstream = do
    lift env.build_spark
    lift (env.apply_secret args.secret_scope)
    log_batch_run_status batch_id running none
    manifest ← run_mode stages (is_cloud config) batch_id args upstream
    log_batch_run_status batch_id succeeded (manifest_record_count manifest)
    pure manifest

  -- `if spark is not None and config.spark.stop_session: spark.stop()`.
  abbrev pub stop : SparkConfig → List Step
  stop config = elim env.build_spark [
    | ok u ↦ if config.stop_session then stopped_session ∷ [] else []
    | raise e ↦ []
  ]

  abbrev pub stop_result : SparkConfig → Result (Unit {0})
  stop_result config = elim env.build_spark [
    | ok u ↦ if config.stop_session then env.stop_spark else ok tt
    | raise e ↦ ok tt
  ]

  unfoldable pub run_session : SparkConfig → Option PipelineManifest → Run (Option PipelineManifest)
  unfolding session on_error finally log_batch_run_status
  run_session config upstream =
      finally (on_error (session config upstream) (log_batch_run_status batch_id failed none))
        (stop config) (stop_result config)

module _ (json : JsonCodec) (stages : Stages) (env : Environment) (args : Args) where
  open json use {Text}

  -- What is printed for the orchestrator.
  unfoldable pub emitted : Option PipelineManifest → Result (Option Text)
  unfolding serialize_manifest
  emitted manifest =
      if args.emit_manifest
      then elim manifest [
        | none ↦ raise (runtime_error "No output manifest was produced for mode")
        | some m ↦ ok (some (serialize_manifest json m))
      ]
      else ok none

  unfoldable pub main : Option Text → Run (Option Text)
  unfolding prepare_databricks_environment check_args upstream_manifest guarded run_session emitted
  main raw = do
    variables ← lift (prepare_databricks_environment args)
    lift (check_args args)
    config ← lift env.load_config
    upstream ← lift (upstream_manifest json args.mode raw)
    manifest ←
        guarded (not (is_blank config.master)) stages local_lock
          (run_session stages env args config upstream)
    lift (emitted manifest)
