-- ===== src/Jobs/Statuses.antt =====
-- The calls of `log_batch_run_status` in one run of jobs/run_batch.py.
use azure_lakehouse_pipeline.Jobs.Closed.{IsClosed, log-closed, run_mode-closed, AreBuilt-entered}
use azure_lakehouse_pipeline.Jobs.Trace.{
  bind, Step, Run, RunStatus, logged, released, running, succeeded, on_error, finally, failed, lift,
  emit, handled,
}
use azure_lakehouse_pipeline.Prelude.{
  List, All, String, ◌∷◌, ◌≡◌, ◌++◌, inl, Option, ap, [], ◌∙◌, refl, inr, sym, true, arith,
  Bool-cases, none, Bool, false,
}
use azure_lakehouse_pipeline.Jobs.RunMode.{
  log_batch_run_status, Stages, run_mode, manifest_record_count,
}
use azure_lakehouse_pipeline.Result.{Result-cases, ok, Result, Error, raise, is_exception}
use azure_lakehouse_pipeline.Jobs.Main.{
  Environment, session, SparkConfig, run_session, stop, batch_id_of_run, is_cloud,
}
use azure_lakehouse_pipeline.Jobs.Args.{Args}
use azure_lakehouse_pipeline.Prelude.Int.{ℤ}
use mathlib.Core.List.{append-nil, append_assoc}
use azure_lakehouse_pipeline.Manifest.{PipelineManifest}
use azure_lakehouse_pipeline.Jobs.Safe.{is_safe_name}

abbrev pub status_of : Step → List RunStatus
status_of (logged status total) = status ∷ []
status_of _ = []

unfoldable pub statuses : List Step → List RunStatus
statuses [] = []
statuses (s ∷ steps) = status_of s ++ statuses steps

abbrev pub IsRunning : List Step → Type 0
IsRunning steps = All (λ s. s ≡ running) (statuses steps)

abbrev pub EndsWith : RunStatus → List Step → Type 0
EndsWith status steps =
    (before : List RunStatus) × All (λ s. s ≡ running) before
    × (statuses steps ≡ before ++ (status ∷ []))

statuses-append : (xs ys : List Step) → statuses (xs ++ ys) ≡ statuses xs ++ statuses ys
unfolding statuses
statuses-append [] ys = refl
statuses-append (x ∷ xs) ys =
    ap (λ l. status_of x ++ l) (statuses-append xs ys)
    ∙ sym (append_assoc (status_of x) (statuses xs) (statuses ys))

All-append {ℓ κ} :
    {A : Type ℓ} (P : A → Type κ) (xs ys : List A) → All P xs → All P ys → All P (xs ++ ys)
All-append P [] ys h k = k
All-append P (x ∷ xs) ys (hx, h) k = (hx, All-append P xs ys h k)

IsRunning-append : (xs ys : List Step) → IsRunning xs → IsRunning ys → IsRunning (xs ++ ys)
IsRunning-append xs ys h k =
    rw (statuses-append xs ys) (All-append (λ s. s ≡ running) (statuses xs) (statuses ys) h k)

IsRunning-IsClosed : (stages : Stages) → IsClosed stages IsRunning
unfolding statuses
IsRunning-IsClosed stages = record {
  nothing = tt;
  append = IsRunning-append;
  locked = λ l xs h. IsRunning-append xs (released l ∷ []) h tt;
  left = λ l xs f h. h;
  entered = λ s other. tt;
  log = λ total. (refl, tt);
}

EndsWith-append :
    (status : RunStatus) (xs ys : List Step)
    → IsRunning xs
    → EndsWith status ys
    → EndsWith status (xs ++ ys)
EndsWith-append status xs ys h (before, running_, e) = (
  statuses xs ++ before,
  All-append (λ s. s ≡ running) (statuses xs) before h running_,
  statuses-append xs ys
      ∙ ap (λ l. statuses xs ++ l) e
      ∙ sym (append_assoc (statuses xs) before (status ∷ [])),
)

EndsWith-stop :
    (status : RunStatus) (xs ys : List Step)
    → EndsWith status xs
    → statuses ys ≡ []
    → EndsWith status (xs ++ ys)
EndsWith-stop status xs ys (before, running_, e) nothing = (
  before,
  running_,
  statuses-append xs ys ∙ ap (λ l. statuses xs ++ l) nothing ∙ append-nil (statuses xs) ∙ e,
)

-- The body of `try`: it ends with "SUCCEEDED" where it returns, and has only "RUNNING" where it raises.
record IsSession {A : Type 0} (r : Run A) : Type 0 where
  returned : (a : A) → r.outcome ≡ ok a → EndsWith succeeded r.steps
  raised : (e : Error) → r.outcome ≡ raise e → IsRunning r.steps

bind-IsSession :
    {A B : Type 0} (r : Run A) (f : A → Run B)
    → IsRunning r.steps
    → ((a : A) → IsSession (f a))
    → IsSession (bind r f)
unfolding bind
bind-IsSession r f h hf = elim (Result-cases r.outcome) [
  | inl (a, e) ↦ rw e (record {
    returned = λ b eb. EndsWith-append succeeded r.steps (f a).steps h ((hf a).returned b eb);
    raised = λ x ex. IsRunning-append r.steps (f a).steps h ((hf a).raised x ex);
  })
  | inr (x, e) ↦ rw e (record { returned = λ b eb. absurd (ground arith); raised = λ y ey. h })
]

log-safe :
    (batch_id : String) (status : RunStatus) (total : Option ℤ)
    → is_safe_name batch_id ≡ true
    → log_batch_run_status batch_id status total ≡ emit (logged status total)
unfolding log_batch_run_status
log-safe batch_id status total safe = rw safe

module _ (stages : Stages) (env : Environment) (args : Args) where
  session-IsSession :
      (config : SparkConfig) (upstream : Option PipelineManifest)
      → is_safe_name (batch_id_of_run env args) ≡ true
      → IsSession (session stages env args config upstream)
  unfolding session bind statuses
  session-IsSession config upstream safe =
      let c = IsRunning-IsClosed stages in
      let name = batch_id_of_run env args in
      bind-IsSession (lift env.build_spark) _ tt (λ u.
        bind-IsSession (lift (env.apply_secret args.secret_scope)) _ tt (λ u.
          bind-IsSession (log_batch_run_status name running none) _
            (log-closed stages IsRunning c name none)
            (λ u.
              bind-IsSession (run_mode stages (is_cloud config) name args upstream) _
                (run_mode-closed stages IsRunning c (is_cloud config)
                  (AreBuilt-entered stages IsRunning c (is_cloud config) (λ s. tt)) name args
                  upstream)
                (λ m. rw (log-safe name succeeded (manifest_record_count m) safe) (record {
                  returned = λ b eb. ([], tt, refl);
                  raised = λ x ex. absurd (ground arith);
                })))))

  stop-quiet : (config : SparkConfig) → statuses (stop stages env args config) ≡ []
  unfolding statuses
  stop-quiet config = elim (Result-cases env.build_spark) [
    | inl (u, e) ↦ rw e (elim (Bool-cases config.stop_session) [ inl b ↦ rw b | inr b ↦ rw b ])
    | inr (x, e) ↦ rw e
  ]

  ended : EndsWith failed (logged failed none ∷ [])
  unfolding statuses
  ended = ([], tt, refl)

  abbrev pub IsFailed : Bool → List Step → Type 0
  IsFailed true steps = EndsWith failed steps
  IsFailed false steps = IsRunning steps

  abbrev pub IsReported : {A : Type 0} → Result A → List Step → Type 0
  IsReported (ok a) steps = EndsWith succeeded steps
  IsReported (raise e) steps = IsFailed (is_exception e) steps

  failure-IsFailed :
      (steps : List Step) (name : String) (config : SparkConfig) (e : Error) (b : Bool)
      → is_safe_name name ≡ true
      → is_exception e ≡ b
      → IsRunning steps
      → IsReported {A = Option PipelineManifest} (raise e) (
          (handled {A = Option PipelineManifest} b steps e
            (log_batch_run_status name failed none)).steps
          ++ stop stages env args config)
  failure-IsFailed steps name config e true safe is_b h = rw (log-safe name failed none safe) (
      rw is_b (
        EndsWith-stop failed (steps ++ (logged failed none ∷ [])) (stop stages env args config)
          (EndsWith-append failed steps (logged failed none ∷ []) h ended) (stop-quiet config)))
  failure-IsFailed steps name config e false safe is_b h =
      rw is_b (IsRunning-append steps (stop stages env args config) h (rw (stop-quiet config) tt))

  session-IsReported :
      (body : Run (Option PipelineManifest)) (name : String) (config : SparkConfig)
      → is_safe_name name ≡ true
      → IsSession body
      → IsReported body.outcome (
          (on_error body (log_batch_run_status name failed none)).steps
          ++ stop stages env args config)
  unfolding on_error
  session-IsReported body name config safe s = elim (Result-cases body.outcome) [
    | inl (a, e) ↦ rw e (
        EndsWith-stop succeeded body.steps (stop stages env args config) (s.returned a e)
          (stop-quiet config))
    | inr (x, e) ↦
        rw e (failure-IsFailed body.steps name config x (is_exception x) safe refl (s.raised x e))
  ]

  -- Where the batch id is a safe name, a session reports "RUNNING" some times and then, once and
  -- last, how its work ended: "SUCCEEDED" where it returned, and "FAILED" where it raised an `Exception`.
  -- Where it raised another error, as an interrupt, nothing is reported after "RUNNING". The stop of
  -- Spark that follows reports nothing, also where it raises.
  pub run_session-reports :
      (config : SparkConfig) (upstream : Option PipelineManifest)
      → is_safe_name (batch_id_of_run env args) ≡ true
      → IsReported
          (session stages env args config upstream).outcome
          (run_session stages env args config upstream).steps
  unfolding run_session finally
  run_session-reports config upstream safe =
      session-IsReported (session stages env args config upstream) (batch_id_of_run env args) config
        safe (session-IsSession config upstream safe)
