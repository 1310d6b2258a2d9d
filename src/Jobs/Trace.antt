-- ===== src/Jobs/Trace.antt =====
-- What a run does to the world, as the list of its steps, which an exception keeps.
use azure_lakehouse_pipeline.Prelude.{
  [], List, Option, ◌∷◌, Bool, ◌++◌, true, false, ◌≡◌, ◌⊎◌, inl, inr, refl,
}
use azure_lakehouse_pipeline.Result.{Result, ok, raise, is_exception, Error}
use azure_lakehouse_pipeline.Prelude.Int.{ℤ}

pub data Lock : Type 0 where
  local_lock silver_lock gold_lock : Lock

pub data RunStatus : Type 0 where
  running succeeded failed : RunStatus

pub data Stage : Type 0 where
  preflight extract silver_build gold_build validation release_validation : Stage

pub data Step : Type 0 where
  enter : Stage → Step
  acquired : Lock → Step
  released : Lock → Step
  -- `log_batch_run_status` with its `total_records`.
  logged : RunStatus → Option ℤ → Step
  stopped_session : Step

pub record Run (A : Type 0) : Type 0 where
  pub steps : List Step
  pub outcome : Result A

abbrev pub pure : {A : Type 0} → A → Run A
pure a = record { steps = []; outcome = ok a }

-- A computation that leaves no step.
abbrev pub lift : {A : Type 0} → Result A → Run A
lift r = record { steps = []; outcome = r }

abbrev pub emit : Step → Run (Unit {0})
emit s = record { steps = s ∷ []; outcome = ok tt }

abbrev pub after : {A : Type 0} → List Step → Run A → Run A
after before r = record { steps = before ++ r.steps; outcome = r.outcome }

unfoldable pub bind : {A B : Type 0} → Run A → (A → Run B) → Run B
bind r f = elim r.outcome [
  | ok a ↦ after r.steps (f a)
  | raise e ↦ record { steps = r.steps; outcome = raise e }
]

infixl 5 ◌>>=◌ ◌>>◌
abbrev pub ◌>>=◌ : {A B : Type 0} → Run A → (A → Run B) → Run B
m >>= f = bind m f

abbrev pub ◌>>◌ : {B : Type 0} → Run (Unit {0}) → Run B → Run B
m >> k = bind m (λ _. k)

-- `if test: body`.
abbrev pub when : Bool → Run (Unit {0}) → Run (Unit {0})
when true body = body
when false body = pure tt

-- A step, then a part of the program that may raise.
abbrev pub perform : {A : Type 0} → Stage → Result A → Run A
perform stage r = record { steps = enter stage ∷ []; outcome = r }

-- How taking a lock ends. It may raise before it has the lock, or after: the MERGE of the cloud lock
-- can have committed before its row is read.
pub data Acquisition : Type 0 where
  taken : Acquisition
  refused lost : Error → Acquisition

pub Acquisition-cases :
    (a : Acquisition) → (a ≡ taken) ⊎ ((e : Error) × ((a ≡ refused e) ⊎ (a ≡ lost e)))
Acquisition-cases taken = inl refl
Acquisition-cases (refused e) = inr (e, inl refl)
Acquisition-cases (lost e) = inr (e, inr refl)

-- `with lock: body`: a lock that is taken is released, whether the body returns or raises; a release
-- that raises leaves the lock, and its error replaces what the body did.
unfoldable pub with_lock : {A : Type 0} → Acquisition → Result (Unit {0}) → Lock → Run A → Run A
with_lock (refused e) release lock body = record { steps = []; outcome = raise e }
with_lock (lost e) release lock body = record { steps = acquired lock ∷ []; outcome = raise e }
with_lock taken (raise e) lock body = record {
  steps = acquired lock ∷ body.steps;
  outcome = raise e;
}
with_lock taken (ok u) lock body = record {
  steps = acquired lock ∷ (body.steps ++ (released lock ∷ []));
  outcome = body.outcome;
}

-- `try: body except Exception as exc: handler; raise`: an error of the handler replaces the first, and
-- an error that is not an `Exception` passes by.
abbrev pub handled : {A : Type 0} → Bool → List Step → Error → Run (Unit {0}) → Run A
handled false steps e handler = record { steps = steps; outcome = raise e }
handled true steps e handler = record {
  steps = steps ++ handler.steps;
  outcome = elim handler.outcome [ ok u ↦ raise e | raise e' ↦ raise e' ];
}

unfoldable pub on_error : {A : Type 0} → Run A → Run (Unit {0}) → Run A
on_error body handler = elim body.outcome [
  | ok a ↦ body
  | raise e ↦ handled (is_exception e) body.steps e handler
]

-- `try: body finally: last`, with how the last part ends: its error replaces what the body did.
unfoldable pub finally : {A : Type 0} → Run A → List Step → Result (Unit {0}) → Run A
finally body last ended = record {
  steps = body.steps ++ last;
  outcome = elim ended [ ok u ↦ body.outcome | raise e ↦ raise e ];
}
