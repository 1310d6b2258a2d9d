-- ===== src/Jobs/Closed.antt =====
-- Properties of step lists that composition keeps, over the parts of `run_mode`.
use azure_lakehouse_pipeline.Prelude.{
  List, [], Bool, String, ◌++◌, Option, ◌∷◌, Bool-cases, inl, inr, true, false, if◌then◌else◌, some,
  ◌≡◌, ap, refl,
}
use azure_lakehouse_pipeline.Jobs.Trace.{
  Step, bind, Run, with_lock, when, Lock, acquired, running, released, Stage, enter, logged,
  extract, gold_lock, preflight, validation, silver_lock, release_validation, gold_build,
  silver_build, Acquisition, taken, refused, lost, Acquisition-cases, perform,
}
use azure_lakehouse_pipeline.Jobs.RunMode.{
  log_batch_run_status, guarded, Stages, bronze_stage, gold_stage, after_bronze, later_stages,
  layers, run_mode, silver_stage, silver_of, bronze_of, results_of,
}
use azure_lakehouse_pipeline.Result.{Result-cases, ok, raise, Result}
use azure_lakehouse_pipeline.Jobs.Args.{Args}
use azure_lakehouse_pipeline.Prelude.Int.{ℤ}
use azure_lakehouse_pipeline.Jobs.Safe.{is_safe_name}
use azure_lakehouse_pipeline.Manifest.{
  SilverBatchManifest, BronzeBatchManifest, PipelineManifest, results,
}
use azure_lakehouse_pipeline.Jobs.Current.{total_record_count}
use mathlib.Core.Path.{ap₂}

-- A lock that a `with` block may leave: its taking raises after it has the lock, or its release raises.
abbrev pub may_leave : Acquisition → Result (Unit {0}) → Bool
may_leave (refused e) release = false
may_leave (lost e) release = true
may_leave taken (ok u) = false
may_leave taken (raise e) = true

abbrev pub fails : Stages → Lock → Bool
fails stages l = may_leave (stages.take_lock l) (stages.release_lock l)

abbrev pub is_build : Stage → Bool
is_build silver_build = true
is_build gold_build = true
is_build _ = false

-- The two builds, under their locks where the run is one of the cloud.
pub record AreBuilt (stages : Stages) (cloud : Bool) (P : List Step → Type 0) : Type 0 where
  pub silver :
      (r : Result SilverBatchManifest)
      → P (guarded cloud stages silver_lock (perform silver_build r)).steps
  pub gold :
      (r : Result (Unit {0})) → P (guarded cloud stages gold_lock (perform gold_build r)).steps

-- What composition and locks keep, and single steps of a stage or a status "RUNNING" have.
pub record IsClosed (stages : Stages) (P : List Step → Type 0) : Type 0 where
  pub nothing : P []
  pub append : (xs ys : List Step) → P xs → P ys → P (xs ++ ys)
  pub locked : (l : Lock) (xs : List Step) → P xs → P (acquired l ∷ (xs ++ (released l ∷ [])))
  pub left : (l : Lock) (xs : List Step) → fails stages l ≡ true → P xs → P (acquired l ∷ xs)
  pub entered : (s : Stage) → is_build s ≡ false → P (enter s ∷ [])
  pub log : (total_records : Option ℤ) → P (logged running total_records ∷ [])

module _ (stages : Stages) (P : List Step → Type 0) (closed : IsClosed stages P) where
  pub bind-closed :
      {A B : Type 0} (r : Run A) (f : A → Run B)
      → P r.steps
      → ((a : A) → P (f a).steps)
      → P (bind r f).steps
  unfolding bind
  bind-closed r f hr hf = elim (Result-cases r.outcome) [
    | inl (a, e) ↦ rw e (closed.append r.steps (f a).steps hr (hf a))
    | inr (e, raised) ↦ rw raised hr
  ]

  pub log-closed :
      (batch_id : String) (total : Option ℤ) → P (log_batch_run_status batch_id running total).steps
  unfolding log_batch_run_status
  log-closed batch_id total = elim (Bool-cases (is_safe_name batch_id)) [
    | inl safe ↦ rw safe (closed.log total)
    | inr unsafe ↦ rw unsafe (closed.nothing)
  ]

  pub guarded-closed :
      {A : Type 0} (b : Bool) (l : Lock) (r : Run A) → P r.steps → P (guarded b stages l r).steps
  unfolding guarded with_lock
  guarded-closed true l r h = elim (Acquisition-cases (stages.take_lock l)) [
    | inl is_taken ↦ rw is_taken (elim (Result-cases (stages.release_lock l)) [
      | inl (u, returned) ↦ rw returned (closed.locked l r.steps h)
      | inr (e, raised) ↦ rw raised (closed.left l r.steps (ap₂ may_leave is_taken raised) h)
    ])
    | inr (e, inl is_refused) ↦ rw is_refused closed.nothing
    | inr (e, inr is_lost) ↦
        rw is_lost
          (closed.left l [] (ap (λ a. may_leave a (stages.release_lock l)) is_lost) closed.nothing)
  ]
  guarded-closed false l r h = h

  pub AreBuilt-entered : (cloud : Bool) → ((s : Stage) → P (enter s ∷ [])) → AreBuilt stages cloud P
  AreBuilt-entered cloud entered = record {
    silver = λ r. guarded-closed cloud silver_lock (perform silver_build r) (entered silver_build);
    gold = λ r. guarded-closed cloud gold_lock (perform gold_build r) (entered gold_build);
  }

  if-closed :
      {A : Type 0} (b : Bool) (r s : Run A) → P r.steps → P s.steps → P (if b then r else s).steps
  if-closed true r s hr hs = hr
  if-closed false r s hr hs = hs

  when-closed : (b : Bool) (r : Run (Unit {0})) → P r.steps → P (when b r).steps
  when-closed true r h = h
  when-closed false r h = closed.nothing

  module _ (cloud : Bool) (built : AreBuilt stages cloud P) (batch_id : String) (args : Args) where
    bronze_stage-closed : P (bronze_stage stages cloud batch_id args).steps
    unfolding bronze_stage
    bronze_stage-closed = bind-closed _ _ (closed.entered extract refl) (λ m.
        bind-closed _ _ (log-closed batch_id (total_record_count (results m))) (λ u.
          bind-closed _ _ (if-closed _ _ _ closed.nothing closed.nothing) (λ skip. closed.nothing)))

    silver_stage-closed :
        (b : Option BronzeBatchManifest) → P (silver_stage stages cloud batch_id args b).steps
    unfolding silver_stage
    silver_stage-closed b = bind-closed _ _ (built.silver _) (λ m.
        bind-closed _ _ (log-closed batch_id (total_record_count (results_of b)))
          (λ u. closed.nothing))

    gold_stage-closed :
        (b : Option BronzeBatchManifest) (s : Option SilverBatchManifest)
        → P (gold_stage stages cloud batch_id args b s).steps
    unfolding gold_stage
    gold_stage-closed b s =
        bind-closed _ _ (built.gold _)
          (λ u. log-closed batch_id (total_record_count (results_of b)))

    later_stages-closed :
        (b : Option BronzeBatchManifest) (s : Option SilverBatchManifest)
        → P (later_stages stages cloud batch_id args b s).steps
    unfolding later_stages
    later_stages-closed b s =
        bind-closed _ _
          (if-closed _ _ _ (bind-closed _ _ (silver_stage-closed b) (λ m. closed.nothing))
            closed.nothing)
          (λ m. bind-closed _ _ (when-closed _ _ (gold_stage-closed b m)) (λ u.
            bind-closed _ _ (when-closed _ _ (closed.entered validation refl)) (λ u.
              bind-closed _ _ (when-closed _ _ (closed.entered release_validation refl))
                (λ u. closed.nothing))))

    after_bronze-closed :
        (s : Option SilverBatchManifest) (m : BronzeBatchManifest × Bool)
        → P (after_bronze stages cloud batch_id args s m).steps
    unfolding after_bronze
    after_bronze-closed s (m, skip) =
        if-closed skip _ _ closed.nothing (later_stages-closed (some m) s)

    layers-closed :
        (upstream : Option PipelineManifest) → P (layers stages cloud batch_id args upstream).steps
    unfolding layers
    layers-closed upstream =
        if-closed _ _ _
          (bind-closed _ _ bronze_stage-closed (after_bronze-closed (silver_of upstream)))
          (later_stages-closed (bronze_of upstream) (silver_of upstream))

    pub run_mode-closed :
        (upstream : Option PipelineManifest)
        → P (run_mode stages cloud batch_id args upstream).steps
    unfolding run_mode
    run_mode-closed upstream =
        bind-closed _ _ (when-closed _ _ (closed.entered preflight refl))
          (λ u. if-closed _ _ _ closed.nothing (layers-closed upstream))
