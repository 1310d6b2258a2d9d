-- ===== src/Jobs/Skip.antt =====
-- The stages that `run_mode` enters, and those that it skips.
use azure_lakehouse_pipeline.Jobs.Trace.{bind, Run, Stage, preflight, extract, when, perform, pure}
use azure_lakehouse_pipeline.Jobs.RunMode.{
  Stages, is_check, bronze_stage, layers, after_bronze, later_stages, silver_of, run_mode,
  bronze_of,
}
use azure_lakehouse_pipeline.Jobs.Args.{
  Mode, Args, in_all, in_preflight, in_bronze, check_postgres, bronze_mode, silver_mode, gold_mode,
  validate_release, validate, all_layers, workflow,
}
use azure_lakehouse_pipeline.Prelude.{
  Bool, String, ◌≡◌, Option, false, true, ◌++◌, List, arith, Bool-cases, ◌&&◌, not, inl, ◌∙◌, ◌∷◌,
  inr, some, [], ap, ◌⊎◌, refl, sym, none,
}
use azure_lakehouse_pipeline.Manifest.{
  BronzeBatchManifest, PipelineManifest, results, bronze, SilverBatchManifest,
}
use azure_lakehouse_pipeline.Result.{ok, Result-cases}
use azure_lakehouse_pipeline.Jobs.Order.{
  entered_if, stages_of, Enters, named_stages, bind-Enters, later, perform-Enters, log-Enters,
  lift-Enters, later_stages-Enters, when-Enters, stages_of-append,
}
use azure_lakehouse_pipeline.Jobs.Current.{is_no_change_batch}
use mathlib.Core.Path.{subst, ap₂}

bind-eq-ok :
    {A B : Type 0} (r : Run A) (f : A → Run B) {b : B}
    → (bind r f).outcome ≡ ok b
    → (a : A) × (r.outcome ≡ ok a)
      × ((f a).outcome ≡ ok b)
      × ((bind r f).steps ≡ r.steps ++ (f a).steps)
unfolding bind
bind-eq-ok r f {b} h = elim (Result-cases r.outcome) [
  | inl (a, e) ↦ (a, e, rw e at h, rw e)
  | inr (x, e) ↦ absurd (ground (arith, h))
]

named_lem :
    (mode : Mode)
    → is_check mode ≡ false
    → entered_if (in_preflight mode) (preflight ∷ [])
        ++ (entered_if (in_bronze mode) (extract ∷ []) ++ later mode)
      ≡ named_stages mode
named_lem check_postgres h = absurd (ground arith)
named_lem bronze_mode h = refl
named_lem silver_mode h = refl
named_lem gold_mode h = refl
named_lem validate_release h = refl
named_lem validate h = refl
named_lem all_layers h = refl
named_lem workflow h = refl

check_lem :
    (mode : Mode)
    → is_check mode ≡ true
    → entered_if (in_preflight mode) (preflight ∷ []) ++ [] ≡ named_stages mode
check_lem check_postgres h = refl
check_lem bronze_mode h = absurd (ground arith)
check_lem silver_mode h = absurd (ground arith)
check_lem gold_mode h = absurd (ground arith)
check_lem validate_release h = absurd (ground arith)
check_lem validate h = absurd (ground arith)
check_lem all_layers h = absurd (ground arith)
check_lem workflow h = absurd (ground arith)

-- Why Silver and Gold were skipped, and what the run did instead.
pub record IsSkipped (stages : Stages) (args : Args) (out : Option PipelineManifest)
    (entered : List Stage) : Type 0 where
  pub whole : in_all args.mode ≡ true
  pub keeps_silver : args.full_rebuild_silver ≡ false
  pub keeps_gold : args.full_rebuild_gold ≡ false
  pub manifest : BronzeBatchManifest
  pub extracted : stages.extract_all_to_bronze args.tables ≡ ok manifest
  pub no_change : is_no_change_batch (results manifest) ≡ true
  pub current : stages.downstream ≡ ok true
  pub returned : out ≡ some (bronze manifest)
  pub only_bronze : entered ≡ entered_if (in_preflight args.mode) (preflight ∷ []) ++ (extract ∷ [])

module _ (stages : Stages) (cloud : Bool) (batch_id : String) (args : Args) where
  abbrev may_skip : BronzeBatchManifest → Bool
  may_skip m =
      in_all args.mode
      && (not args.full_rebuild_silver
          && (not args.full_rebuild_gold && is_no_change_batch (results m)))

  bronze_stage-Enters : Enters (bronze_stage stages cloud batch_id args) (extract ∷ [])
  unfolding bronze_stage stages_of
  bronze_stage-Enters = bind-Enters _ _ (extract ∷ []) [] (perform-Enters extract _) (λ m e.
      bind-Enters _ _ [] [] (log-Enters batch_id _) (λ u e.
        bind-Enters _ _ [] []
          (elim (Bool-cases (may_skip m)) [
            | inl b ↦ rw b (lift-Enters stages.downstream)
            | inr b ↦ rw b (lift-Enters (ok false))
          ])
          (λ skip e. lift-Enters _)))

  bronze_stage-skip :
      {m : BronzeBatchManifest}
      → (bronze_stage stages cloud batch_id args).outcome ≡ ok (m, true)
      → (stages.extract_all_to_bronze args.tables ≡ ok m)
        × (may_skip m ≡ true)
        × (stages.downstream ≡ ok true)
  unfolding bronze_stage
  bronze_stage-skip {m} h =
      let (m', em, h1, _) = bind-eq-ok _ _ h in
      let (u, eu, h2, _) = bind-eq-ok _ _ h1 in
      let (skip, es, h3, _) = bind-eq-ok _ _ h2 in
      let same : m' ≡ m = ground (arith, h3) in
      let yes : skip ≡ true = ground (arith, h3) in
      elim (Bool-cases (may_skip m')) [
        | inl b ↦
            let es' : stages.downstream ≡ ok skip = rw b at es in
            (em ∙ ap ok same, subst (λ x. may_skip x ≡ true) same b, es' ∙ ap ok yes)
        | inr b ↦ let es' : ok false ≡ ok skip = rw b at es in absurd (ground arith)
      ]

  abbrev Skips : Option PipelineManifest → List Stage → Type 0
  Skips out entered =
      (m : BronzeBatchManifest) × (stages.extract_all_to_bronze args.tables ≡ ok m)
      × (may_skip m ≡ true)
      × (stages.downstream ≡ ok true)
      × (out ≡ some (bronze m))
      × (entered ≡ extract ∷ [])

  after_bronze-Enters :
      (s : Option SilverBatchManifest) (m : BronzeBatchManifest) (skip : Bool)
      {out : Option PipelineManifest}
      → (after_bronze stages cloud batch_id args s (m, skip)).outcome ≡ ok out
      → ((skip ≡ true)
          × (out ≡ some (bronze m))
          × (stages_of (after_bronze stages cloud batch_id args s (m, skip)).steps ≡ []))
        ⊎ (stages_of (after_bronze stages cloud batch_id args s (m, skip)).steps ≡ later args.mode)
  unfolding after_bronze stages_of
  after_bronze-Enters s m true {out} h = inl (refl, ground (arith, h), refl)
  after_bronze-Enters s m false {out} h =
      inr (later_stages-Enters stages cloud batch_id args (some m) s out h)

  bronze_layers :
      (s : Option SilverBatchManifest) {out : Option PipelineManifest}
      → let r =
          bind
            (bronze_stage stages cloud batch_id args)
            (after_bronze stages cloud batch_id args s) in
        r.outcome ≡ ok out
        → (stages_of r.steps ≡ extract ∷ later args.mode) ⊎ Skips out (stages_of r.steps)
  bronze_layers s {out} h =
      let ((m, skip), e, h1, steps) = bind-eq-ok _ _ h in
      let first = bronze_stage-Enters (m, skip) e in
      let split =
        ap stages_of steps
        ∙ stages_of-append (bronze_stage stages cloud batch_id args).steps
            (after_bronze stages cloud batch_id args s (m, skip)).steps in
      elim (after_bronze-Enters s m skip h1) [
        | inl (skipped, returned, none_) ↦
            let (extracted, may, current) =
              bronze_stage-skip {m = m} (e ∙ ap (λ b. ok (m, b)) skipped) in
            inr (m, extracted, may, current, returned, split ∙ ap₂ ◌++◌ first none_)
        | inr all_ ↦ inl (split ∙ ap₂ ◌++◌ first all_)
      ]

  layers-bronze :
      (upstream : Option PipelineManifest)
      → in_bronze args.mode ≡ true
      → layers stages cloud batch_id args upstream
        ≡ bind
            (bronze_stage stages cloud batch_id args)
            (after_bronze stages cloud batch_id args (silver_of upstream))
  unfolding layers
  layers-bronze upstream b = rw b

  layers-later :
      (upstream : Option PipelineManifest)
      → in_bronze args.mode ≡ false
      → layers stages cloud batch_id args upstream
        ≡ later_stages stages cloud batch_id args (bronze_of upstream) (silver_of upstream)
  unfolding layers
  layers-later upstream b = rw b

  abbrev LayersEnter : Option PipelineManifest → List Stage → Type 0
  LayersEnter out entered =
      (entered ≡ entered_if (in_bronze args.mode) (extract ∷ []) ++ later args.mode)
      ⊎ Skips out entered

  layers-Enters :
      (upstream : Option PipelineManifest) {out : Option PipelineManifest}
      → (layers stages cloud batch_id args upstream).outcome ≡ ok out
      → LayersEnter out (stages_of (layers stages cloud batch_id args upstream).steps)
  layers-Enters upstream {out} h = elim (Bool-cases (in_bronze args.mode)) [
    | inl b ↦
        let same = layers-bronze upstream b in
        rw (same, b) (bronze_layers (silver_of upstream) (sym (ap (λ r. r.outcome) same) ∙ h))
    | inr b ↦
        let same = layers-later upstream b in
        rw (same, b)
          (inl (
            later_stages-Enters stages cloud batch_id args (bronze_of upstream) (silver_of upstream)
              out (sym (ap (λ r. r.outcome) same) ∙ h)))
  ]

  abbrev preflight_step : Run (Unit {0})
  preflight_step = when (in_preflight args.mode) (perform preflight stages.check_postgres_source)

  preflight-Enters : Enters preflight_step (entered_if (in_preflight args.mode) (preflight ∷ []))
  preflight-Enters =
      when-Enters (in_preflight args.mode) (perform preflight stages.check_postgres_source)
        (preflight ∷ []) (perform-Enters preflight stages.check_postgres_source)

  run_mode-layers :
      (upstream : Option PipelineManifest)
      → is_check args.mode ≡ false
      → run_mode stages cloud batch_id args upstream
        ≡ bind
            (when (in_preflight args.mode) (perform preflight stages.check_postgres_source))
            (λ u. layers stages cloud batch_id args upstream)
  unfolding run_mode
  run_mode-layers upstream b = rw b

  run_mode-check :
      (upstream : Option PipelineManifest)
      → is_check args.mode ≡ true
      → run_mode stages cloud batch_id args upstream
        ≡ bind
            (when (in_preflight args.mode) (perform preflight stages.check_postgres_source))
            (λ u. pure none)
  unfolding run_mode
  run_mode-check upstream b = rw b

  -- Where `run_mode` returns, it has entered exactly the stages that the mode names, in their order,
  -- or it has skipped Silver and Gold: then the mode is "all" or "workflow", neither rebuild flag is
  -- given, no table of the extracted manifest has a change, the downstream tables are current, and the
  -- Bronze manifest is what it returns.
  pub run_mode-stages :
      (upstream : Option PipelineManifest) {out : Option PipelineManifest}
      → (run_mode stages cloud batch_id args upstream).outcome ≡ ok out
      → let entered = stages_of (run_mode stages cloud batch_id args upstream).steps in
        (entered ≡ named_stages args.mode) ⊎ IsSkipped stages args out entered
  run_mode-stages upstream {out} h = elim (Bool-cases (is_check args.mode)) [
    | inl check ↦
        let same = run_mode-check upstream check in
        inl (
          ap (λ r. stages_of r.steps) same
          ∙ bind-Enters _ _ _ [] (when-Enters _ _ (preflight ∷ []) (perform-Enters preflight _))
              (λ u e. lift-Enters (ok none)) out (sym (ap (λ r. r.outcome) same) ∙ h)
          ∙ check_lem args.mode check)
    | inr whole ↦
        let same = run_mode-layers upstream whole in
        let (u, e, h1, steps) = bind-eq-ok preflight_step _ (sym (ap (λ r. r.outcome) same) ∙ h) in
        let first = preflight-Enters u e in
        let split =
          ap (λ r. stages_of r.steps) same
          ∙ ap stages_of steps
          ∙ stages_of-append preflight_step.steps (layers stages cloud batch_id args upstream).steps
          ∙ ap (λ l. l ++ stages_of (layers stages cloud batch_id args upstream).steps) first in
        elim (layers-Enters upstream h1) [
          | inl named ↦ inl (
              split
              ∙ ap (λ l. entered_if (in_preflight args.mode) (preflight ∷ []) ++ l) named
              ∙ named_lem args.mode whole)
          | inr (m, extracted, may, current, returned, only) ↦ inr (record {
            whole = ground (arith, may);
            keeps_silver = ground (arith, may);
            keeps_gold = ground (arith, may);
            manifest = m;
            extracted = extracted;
            no_change = ground (arith, may);
            current = current;
            returned = returned;
            only_bronze =
                split ∙ ap (λ l. entered_if (in_preflight args.mode) (preflight ∷ []) ++ l) only;
          })
        ]
  ]
