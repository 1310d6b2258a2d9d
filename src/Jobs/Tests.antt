-- ===== src/Jobs/Tests.antt =====
-- The command in mode "all" where nothing changed, and with stages that raise.
use azure_lakehouse_pipeline.Manifest.{BronzeTableResult, BronzeBatchManifest, bronze}
use azure_lakehouse_pipeline.Jobs.Main.{Environment, SparkConfig, main, run_session, session}
use azure_lakehouse_pipeline.Jobs.Safe.{is_safe_name, name_chars}
use azure_lakehouse_pipeline.Jobs.RunMode.{
  run_mode, Stages, layers, bronze_stage, after_bronze, log_batch_run_status,
}
use azure_lakehouse_pipeline.Jobs.Locks.{held_after, same_lock}
use azure_lakehouse_pipeline.Jobs.Args.{Mode, Args, all_layers}
use azure_lakehouse_pipeline.Prelude.Int.{pos, ℤ}
use azure_lakehouse_pipeline.Prelude.{
  ◌∷◌, some, Bool, [], true, none, false, ◌≡◌, refl, ◌⊎◌, List, String, Option, All, if◌then◌else◌,
}
use azure_lakehouse_pipeline.Result.{ok, raise, value_error, runtime_error}
use azure_lakehouse_pipeline.Jobs.Statuses.{run_session-reports, IsReported}
use azure_lakehouse_pipeline.Json.Values.{value_codec, is_well_formed}
use azure_lakehouse_pipeline.Jobs.Trace.{bind, extract, silver_lock, taken, gold_lock, lost}
use azure_lakehouse_pipeline.Jobs.Current.{
  is_no_change_batch, total_record_count, sum, downstream_is_current, inspect_table,
  committed_version, is_silver_schema, is_at_version,
}
use azure_lakehouse_pipeline.Jobs.Order.{stages_of, named_stages}
use azure_lakehouse_pipeline.Jobs.Skip.{IsSkipped, run_mode-stages}
use azure_lakehouse_pipeline.Release.{GoldRelease}
use azure_lakehouse_pipeline.Delta.{
  Commit, try_latest_delta_pipeline_commit, latest_delta_pipeline_commit, metadata_for_pipelines,
  payload_for,
}
use azure_lakehouse_pipeline.Dict.{Dict, keys, get, contains, same_set}
use azure_lakehouse_pipeline.Json.{Json, dict, str, int}
use azure_lakehouse_pipeline.Contracts.Silver.{silver_tables}
use azure_lakehouse_pipeline.Jobs.Fresh.{IsConsumed, downstream_is_current-IsConsumed}
use azure_lakehouse_pipeline.Jobs.Guarded.{IsGuarded}
use azure_lakehouse_pipeline.Jobs.Closed.{fails}
use azure_lakehouse_pipeline.Jobs.Guarded.Runs.{main-IsGuarded}

abbrev idle_result : BronzeTableResult
idle_result = record {
  batch_id = "b1";
  table_name = "orders";
  record_count = pos 0;
  ingestion_type = "incremental";
  delta_version = pos 4;
  operation_counts = [];
  schema_version = pos 1;
}

abbrev idle_manifest : BronzeBatchManifest
idle_manifest = record { batch_id = "b1"; tables = ("orders", idle_result) ∷ [] }

abbrev idle_stages : Stages
idle_stages = record {
  check_postgres_source = ok tt;
  extract_all_to_bronze = λ tables. ok idle_manifest;
  build_silver = λ tables full m. ok (record { tables = [] });
  build_gold = λ full m. raise (value_error "no Silver");
  validate_batch_lakehouse = ok tt;
  validate_gold_release = λ m. ok tt;
  downstream = ok true;
  take_lock = λ l. taken;
  release_lock = λ l. ok tt;
}

abbrev arguments : Mode → Bool → Args
arguments mode full = record {
  mode = mode;
  batch_id = some "b1";
  tables = none;
  postgres_host = none;
  postgres_port = none;
  postgres_database = none;
  postgres_user = none;
  uc_catalog = none;
  bronze_schema = none;
  silver_schema = none;
  gold_schema = none;
  external_storage_root = none;
  secret_scope = none;
  emit_manifest = false;
  full_rebuild_silver = full;
  full_rebuild_gold = false;
}

abbrev local_session : SparkConfig
local_session = record { master = some "local[*]"; stop_session = true }

abbrev env : Environment
env = record {
  load_config = ok local_session;
  build_spark = ok tt;
  apply_secret = λ scope. ok tt;
  stop_spark = ok tt;
  new_batch_id = "b2";
}

run_mode-stages_example :
    (extract ∷ [] ≡ named_stages all_layers)
    ⊎ IsSkipped idle_stages
        (arguments all_layers false)
        (some (bronze idle_manifest))
        (extract ∷ [])
unfolding run_mode layers bronze_stage after_bronze bind log_batch_run_status is_safe_name
    name_chars is_no_change_batch total_record_count stages_of sum
run_mode-stages_example =
    run_mode-stages idle_stages false "b1" (arguments all_layers false) none
      {out = some (bronze idle_manifest)} refl

run_session-reports_example :
    IsReported idle_stages env
      (arguments all_layers true)
      (session idle_stages env (arguments all_layers true) local_session none).outcome
      (run_session idle_stages env (arguments all_layers true) local_session none).steps
unfolding is_safe_name name_chars
run_session-reports_example =
    run_session-reports idle_stages env (arguments all_layers true) local_session none refl

-- A run of the cloud whose Gold lock is lost while it is taken, and whose Silver lock works.
abbrev losing_stages : Stages
losing_stages = record {
  check_postgres_source = ok tt;
  extract_all_to_bronze = λ tables. ok idle_manifest;
  build_silver = λ tables full m. ok (record { tables = [] });
  build_gold = λ full m. ok tt;
  validate_batch_lakehouse = ok tt;
  validate_gold_release = λ m. ok tt;
  downstream = ok true;
  take_lock = λ l. if same_lock l gold_lock then lost (runtime_error "not read back") else taken;
  release_lock = λ l. ok tt;
}

abbrev cloud_session : SparkConfig
cloud_session = record { master = none; stop_session = false }

abbrev cloud_env : Environment
cloud_env = record {
  load_config = ok cloud_session;
  build_spark = ok tt;
  apply_secret = λ scope. ok tt;
  stop_spark = ok tt;
  new_batch_id = "b2";
}

main-IsGuarded_example :
    IsGuarded silver_lock 0
      (main value_codec losing_stages cloud_env (arguments all_layers true) none).steps
    × ((held_after silver_lock 0
            (main value_codec losing_stages cloud_env (arguments all_layers true) none).steps
          ≡ some 0)
        ⊎ (fails losing_stages silver_lock ≡ true))
main-IsGuarded_example =
    main-IsGuarded value_codec losing_stages cloud_env (arguments all_layers true) cloud_session
      silver_lock none refl refl

abbrev silver_commit : Commit Json
silver_commit = record {
  version = 3;
  user_metadata =
      some
        (dict (("pipeline", str "bronze_to_silver") ∷ ("silver_schema_version", int (pos 2)) ∷ []));
}

abbrev silver_history : String → Option (List (Commit Json))
silver_history name = some (silver_commit ∷ [])

abbrev at_three : List String → Dict ℤ
at_three [] = []
at_three (name ∷ names) = (name, pos 3) ∷ at_three names

abbrev consumed : GoldRelease
consumed = record {
  batch_id = "b1";
  silver_versions = at_three (keys silver_tables);
  gold_versions = [];
}

downstream_is_current-IsConsumed_example :
    (same_set (keys consumed.silver_versions) (keys silver_tables) ≡ true)
    × All (IsConsumed value_codec silver_history consumed) (keys silver_tables)
unfolding downstream_is_current inspect_table try_latest_delta_pipeline_commit
    latest_delta_pipeline_commit metadata_for_pipelines payload_for get committed_version
    is_silver_schema is_at_version is_well_formed contains
downstream_is_current-IsConsumed_example =
    downstream_is_current-IsConsumed value_codec silver_history consumed refl
