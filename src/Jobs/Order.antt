-- ===== src/Jobs/Order.antt =====
-- Which stages a run enters, and in which order.
use azure_lakehouse_pipeline.Result.{Result, ok, Result-cases}
use azure_lakehouse_pipeline.Jobs.Trace.{
  bind, Step, Run, Stage, enter, with_lock, preflight, when, perform, lift, extract, Lock,
  silver_build, running, gold_build, release_validation, released, silver_lock, gold_lock,
  validation, Acquisition-cases,
}
use azure_lakehouse_pipeline.Jobs.RunMode.{
  log_batch_run_status, guarded, Stages, gold_stage, later_stages, silver_stage, is_validate,
}
use azure_lakehouse_pipeline.Prelude.{
  List, Bool, ◌++◌, ◌∷◌, ◌≡◌, String, [], if◌then◌else◌, ap, true, Option, false, ◌∙◌, refl, inl,
  sym, Bool-cases, inr, arith,
}
use azure_lakehouse_pipeline.Jobs.Args.{
  Mode, Args, in_silver, in_gold, check_postgres, in_release, bronze_mode, silver_mode, gold_mode,
  validate_release, validate, all_layers, workflow,
}
use azure_lakehouse_pipeline.Prelude.Int.{ℤ}
use azure_lakehouse_pipeline.Manifest.{BronzeBatchManifest, SilverBatchManifest}
use mathlib.Core.List.{append_assoc, append-nil}
use mathlib.Core.Path.{ap₂}
use azure_lakehouse_pipeline.Jobs.Safe.{is_safe_name}

abbrev pub stage_of : Step → List Stage
stage_of (enter s) = s ∷ []
stage_of _ = []

unfoldable pub stages_of : List Step → List Stage
stages_of [] = []
stages_of (s ∷ steps) = stage_of s ++ stages_of steps

-- The stages that a mode names.
abbrev pub named_stages : Mode → List Stage
named_stages check_postgres = preflight ∷ []
named_stages bronze_mode = extract ∷ []
named_stages silver_mode = silver_build ∷ []
named_stages gold_mode = gold_build ∷ []
named_stages validate_release = release_validation ∷ []
named_stages validate = validation ∷ []
named_stages all_layers = extract ∷ silver_build ∷ gold_build ∷ []
named_stages workflow = preflight ∷ extract ∷ silver_build ∷ gold_build ∷ release_validation ∷ []

pub stages_of-append : (xs ys : List Step) → stages_of (xs ++ ys) ≡ stages_of xs ++ stages_of ys
unfolding stages_of
stages_of-append [] ys = refl
stages_of-append (x ∷ xs) ys =
    ap (λ l. stage_of x ++ l) (stages_of-append xs ys)
    ∙ sym (append_assoc (stage_of x) (stages_of xs) (stages_of ys))

-- A run that returns has entered these stages.
abbrev pub Enters : {A : Type 0} → Run A → List Stage → Type 0
Enters {A} r ss = (a : A) → r.outcome ≡ ok a → stages_of r.steps ≡ ss

pub bind-Enters :
    {A B : Type 0} (r : Run A) (f : A → Run B) (xs ys : List Stage)
    → Enters r xs
    → ((a : A) → r.outcome ≡ ok a → Enters (f a) ys)
    → Enters (bind r f) (xs ++ ys)
unfolding bind
bind-Enters r f xs ys hr hf = elim (Result-cases r.outcome) [
  | inl (a, e) ↦
      rw e (λ b eb. stages_of-append r.steps (f a).steps ∙ ap₂ ◌++◌ (hr a e) (hf a e b eb))
  | inr (x, e) ↦ rw e (λ b eb. absurd (ground arith))
]

pub perform-Enters : {A : Type 0} (s : Stage) (r : Result A) → Enters (perform s r) (s ∷ [])
unfolding stages_of
perform-Enters s r = λ a e. refl

pub lift-Enters : {A : Type 0} (r : Result A) → Enters (lift r) []
unfolding stages_of
lift-Enters r = λ a e. refl

pub log-Enters :
    (batch_id : String) (total : Option ℤ) → Enters (log_batch_run_status batch_id running total) []
unfolding log_batch_run_status stages_of
log-Enters batch_id total = elim (Bool-cases (is_safe_name batch_id)) [
  | inl safe ↦ rw safe (λ a e. refl)
  | inr unsafe ↦ rw unsafe (λ a e. refl)
]

guarded-Enters :
    {A : Type 0} (b : Bool) (stages : Stages) (l : Lock) (r : Run A) (xs : List Stage)
    → Enters r xs
    → Enters (guarded b stages l r) xs
unfolding guarded with_lock stages_of
guarded-Enters true stages l r xs h = elim (Acquisition-cases (stages.take_lock l)) [
  | inl is_taken ↦ rw is_taken (elim (Result-cases (stages.release_lock l)) [
    | inl (u, returned) ↦
        rw returned (λ a e.
          stages_of-append r.steps (released l ∷ []) ∙ append-nil (stages_of r.steps) ∙ h a e)
    | inr (x, raised) ↦ rw raised (λ a e. absurd (ground arith))
  ])
  | inr (x, inl is_refused) ↦ rw is_refused (λ a e. absurd (ground arith))
  | inr (x, inr is_lost) ↦ rw is_lost (λ a e. absurd (ground arith))
]
guarded-Enters false stages l r xs h = h

abbrev pub entered_if : Bool → List Stage → List Stage
entered_if true xs = xs
entered_if false xs = []

pub when-Enters :
    (b : Bool) (r : Run (Unit {0})) (xs : List Stage)
    → Enters r xs
    → Enters (when b r) (entered_if b xs)
unfolding stages_of
when-Enters true r xs h = h
when-Enters false r xs h = λ a e. refl

if-Enters :
    {A : Type 0} (b : Bool) (r s : Run A) (xs : List Stage)
    → Enters r xs
    → Enters s []
    → Enters (if b then r else s) (entered_if b xs)
if-Enters true r s xs hr hs = hr
if-Enters false r s xs hr hs = hs

abbrev pub later : Mode → List Stage
later mode =
    entered_if (in_silver mode) (silver_build ∷ [])
    ++ (entered_if (in_gold mode) (gold_build ∷ [])
        ++ (entered_if (is_validate mode) (validation ∷ [])
            ++ (entered_if (in_release mode) (release_validation ∷ []) ++ [])))

module _ (stages : Stages) (cloud : Bool) (batch_id : String) (args : Args) where
  silver_stage-Enters :
      (b : Option BronzeBatchManifest)
      → Enters (silver_stage stages cloud batch_id args b) (silver_build ∷ [])
  unfolding silver_stage
  silver_stage-Enters b =
      bind-Enters _ _ (silver_build ∷ []) []
        (guarded-Enters cloud stages silver_lock _ (silver_build ∷ [])
          (perform-Enters silver_build _))
        (λ m e. bind-Enters _ _ [] [] (log-Enters batch_id _) (λ u e. lift-Enters (ok m)))

  gold_stage-Enters :
      (b : Option BronzeBatchManifest) (s : Option SilverBatchManifest)
      → Enters (gold_stage stages cloud batch_id args b s) (gold_build ∷ [])
  unfolding gold_stage
  gold_stage-Enters b s =
      bind-Enters _ _ (gold_build ∷ []) []
        (guarded-Enters cloud stages gold_lock _ (gold_build ∷ []) (perform-Enters gold_build _))
        (λ u e. log-Enters batch_id _)

  pub later_stages-Enters :
      (b : Option BronzeBatchManifest) (s : Option SilverBatchManifest)
      → Enters (later_stages stages cloud batch_id args b s) (later args.mode)
  unfolding later_stages
  later_stages-Enters b s =
      bind-Enters _ _ _ _
        (if-Enters _ _ _ (silver_build ∷ [])
          (bind-Enters _ _ (silver_build ∷ []) [] (silver_stage-Enters b) (λ m e. lift-Enters _))
          (lift-Enters _))
        (λ m e. bind-Enters _ _ _ _ (when-Enters _ _ _ (gold_stage-Enters b m)) (λ u e.
          bind-Enters _ _ _ _ (when-Enters _ _ _ (perform-Enters validation _)) (λ u e.
            bind-Enters _ _ _ _ (when-Enters _ _ _ (perform-Enters release_validation _))
              (λ u e. lift-Enters _))))
