-- ===== src/Jobs/Args.antt =====
-- The command line of jobs/run_batch.py: its arguments and the checks that `main` makes of them.
use azure_lakehouse_pipeline.Prelude.{
  Option, Bool, String, List, true, if◌then◌else◌, some, false, ◌∷◌, str_eq, [], ◌&&◌, not, any,
  none, map, ◌++◌,
}
use azure_lakehouse_pipeline.Json.{JsonCodec}
use azure_lakehouse_pipeline.Dict.{Dict}
use azure_lakehouse_pipeline.Result.{Result, ◌>>◌, raise_if, ok, system_exit, ◌>>=◌, value_error}
use azure_lakehouse_pipeline.Manifest.{deserialize_manifest, PipelineManifest, bronze, silver}

-- The choices of `--mode`; `all_layers` is "all".
pub data Mode : Type 0 where
  check_postgres bronze_mode silver_mode gold_mode : Mode
  validate_release validate all_layers workflow : Mode

-- What `parse_args` returns. A flag that is not given is `None`.
pub record Args : Type 0 where
  pub mode : Mode
  pub batch_id : Option String
  pub tables : Option (List String)
  pub postgres_host : Option String
  pub postgres_port : Option String
  pub postgres_database : Option String
  pub postgres_user : Option String
  pub uc_catalog : Option String
  pub bronze_schema : Option String
  pub silver_schema : Option String
  pub gold_schema : Option String
  pub external_storage_root : Option String
  pub secret_scope : Option String
  pub emit_manifest : Bool
  pub full_rebuild_silver : Bool
  pub full_rebuild_gold : Bool

-- The sets of modes that the code tests `args.mode` against.
abbrev pub in_preflight : Mode → Bool
in_preflight check_postgres = true
in_preflight workflow = true
in_preflight _ = false

abbrev pub in_bronze : Mode → Bool
in_bronze bronze_mode = true
in_bronze all_layers = true
in_bronze workflow = true
in_bronze _ = false

abbrev pub in_silver : Mode → Bool
in_silver silver_mode = true
in_silver all_layers = true
in_silver workflow = true
in_silver _ = false

abbrev pub in_gold : Mode → Bool
in_gold gold_mode = true
in_gold all_layers = true
in_gold workflow = true
in_gold _ = false

abbrev pub in_all : Mode → Bool
in_all all_layers = true
in_all workflow = true
in_all _ = false

abbrev pub in_release : Mode → Bool
in_release validate_release = true
in_release workflow = true
in_release _ = false

abbrev pub in_layer : Mode → Bool
in_layer bronze_mode = true
in_layer silver_mode = true
in_layer _ = false

abbrev pub is_silver : Mode → Bool
is_silver silver_mode = true
is_silver _ = false

-- `not value` of an optional text.
abbrev pub is_blank : Option String → Bool
is_blank none = true
is_blank (some s) = str_eq s ""

abbrev environment : Args → Dict (Option String)
environment args =
    ("POSTGRES_HOST", args.postgres_host)
    ∷ ("POSTGRES_PORT", args.postgres_port)
    ∷ ("POSTGRES_DB", args.postgres_database)
    ∷ ("POSTGRES_USER", args.postgres_user)
    ∷ ("DATABRICKS_CATALOG", args.uc_catalog)
    ∷ ("DATABRICKS_BRONZE_SCHEMA", args.bronze_schema)
    ∷ ("DATABRICKS_SILVER_SCHEMA", args.silver_schema)
    ∷ ("DATABRICKS_GOLD_SCHEMA", args.gold_schema)
    ∷ ("DATABRICKS_EXTERNAL_STORAGE_ROOT", args.external_storage_root)
    ∷ []

-- `_prepare_databricks_environment`: the variables that it sets.
unfoldable pub prepare_databricks_environment : Args → Result (Dict String)
prepare_databricks_environment args = if is_blank args.secret_scope then ok [] else do
  let values = environment args
  raise_if (any (λ entry. is_blank entry.1) values)
      (system_exit "Databricks task is missing parameters")
  ok (
      map (λ entry. (entry.0, elim entry.1 [ none ↦ "" | some s ↦ s ])) values
      ++ (("POSTGRES_PASSWORD", "__DATABRICKS_SECRET__") ∷ []))

abbrev is_empty_list : Option (List String) → Bool
is_empty_list (some []) = true
is_empty_list _ = false

abbrev has_tables : Option (List String) → Bool
has_tables (some (t ∷ ts)) = true
has_tables _ = false

-- The checks of `main`, in their order.
unfoldable pub check_args : Args → Result (Unit {0})
check_args args = do
  raise_if (is_empty_list args.tables) (system_exit "--tables requires at least one table name")
  raise_if (has_tables args.tables && not (in_layer args.mode))
      (system_exit "--tables is supported only for bronze or silver mode")
  raise_if (args.full_rebuild_silver && not (in_silver args.mode))
      (system_exit "--full-rebuild-silver requires --mode silver, all, or workflow")
  raise_if (args.full_rebuild_gold && not (in_gold args.mode))
      (system_exit "--full-rebuild-gold requires --mode gold, all, or workflow")
  raise_if (args.emit_manifest && not (in_layer args.mode))
      (system_exit "--emit-manifest is supported only for bronze or silver mode")

module _ (json : JsonCodec) where
  open json use {Text}

  -- `isinstance(manifest, expected_type)`.
  abbrev pub is_expected : Mode → PipelineManifest → Bool
  is_expected silver_mode (bronze m) = true
  is_expected gold_mode (silver m) = true
  is_expected validate_release (silver m) = true
  is_expected _ m = false

  -- `_upstream_manifest`; `None` stands for an environment variable that is missing or blank.
  unfoldable pub upstream_manifest : Mode → Option Text → Result (Option PipelineManifest)
  unfolding deserialize_manifest
  upstream_manifest mode none = ok none
  upstream_manifest mode (some raw) = do
    manifest ← deserialize_manifest json raw
    raise_if (not (is_expected mode manifest)) (value_error "Unexpected upstream manifest for mode")
    ok (some manifest)
