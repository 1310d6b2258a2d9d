-- ===== src/Jobs/Sessions.antt =====
-- Properties of step lists that a session of jobs/run_batch.py keeps.
use azure_lakehouse_pipeline.Jobs.Closed.{IsClosed, AreBuilt, bind-closed, run_mode-closed}
use azure_lakehouse_pipeline.Prelude.{List, Option, ◌∷◌, String, [], Bool-cases, inl, inr, none}
use azure_lakehouse_pipeline.Jobs.Trace.{
  Step, RunStatus, logged, on_error, Run, stopped_session, finally, running, failed, succeeded,
}
use azure_lakehouse_pipeline.Jobs.RunMode.{Stages, log_batch_run_status, manifest_record_count}
use azure_lakehouse_pipeline.Jobs.Main.{
  Environment, SparkConfig, stop, is_cloud, session, run_session, batch_id_of_run,
}
use azure_lakehouse_pipeline.Prelude.Int.{ℤ}
use azure_lakehouse_pipeline.Jobs.Args.{Args}
use azure_lakehouse_pipeline.Result.{Result-cases, is_exception}
use azure_lakehouse_pipeline.Manifest.{PipelineManifest}
use azure_lakehouse_pipeline.Jobs.Safe.{is_safe_name}

-- What a status of any kind and the end of the Spark session have.
pub record IsOpen (P : List Step → Type 0) : Type 0 where
  pub reported : (status : RunStatus) (total : Option ℤ) → P (logged status total ∷ [])
  pub stopped : P (stopped_session ∷ [])

module _ (P : List Step → Type 0) (stages : Stages) (closed : IsClosed stages P) (opened : IsOpen P)
    (env : Environment) (args : Args) where
  report-closed :
      (batch_id : String) (status : RunStatus) (total : Option ℤ)
      → P (log_batch_run_status batch_id status total).steps
  unfolding log_batch_run_status
  report-closed batch_id status total = elim (Bool-cases (is_safe_name batch_id)) [
    | inl safe ↦ rw safe (opened.reported status total)
    | inr unsafe ↦ rw unsafe closed.nothing
  ]

  on_error-closed :
      {A : Type 0} (body : Run A) (handler : Run (Unit {0}))
      → P body.steps
      → P handler.steps
      → P (on_error body handler).steps
  unfolding on_error
  on_error-closed body handler h h' = elim (Result-cases body.outcome) [
    | inl (a, e) ↦ rw e h
    | inr (e, raised) ↦ rw raised (elim (Bool-cases (is_exception e)) [
      | inl handles ↦ rw handles (closed.append body.steps handler.steps h h')
      | inr passes ↦ rw passes h
    ])
  ]

  stop-closed : (config : SparkConfig) → P (stop stages env args config)
  stop-closed config = elim (Result-cases env.build_spark) [
    | inl (u, e) ↦ rw e (elim (Bool-cases config.stop_session) [
      | inl b ↦ rw b opened.stopped
      | inr b ↦ rw b closed.nothing
    ])
    | inr (e, raised) ↦ rw raised closed.nothing
  ]

  module _ (config : SparkConfig) (built : AreBuilt stages (is_cloud config) P) where
    session-closed :
        (upstream : Option PipelineManifest) → P (session stages env args config upstream).steps
    unfolding session
    session-closed upstream =
        let name = batch_id_of_run env args in
        bind-closed stages P closed _ _ closed.nothing (λ u.
          bind-closed stages P closed _ _ closed.nothing (λ u.
            bind-closed stages P closed _ _ (report-closed name running none) (λ u.
              bind-closed stages P closed _ _
                (run_mode-closed stages P closed (is_cloud config) built name args upstream)
                (λ m.
                  bind-closed stages P closed _ _
                    (report-closed name succeeded (manifest_record_count m))
                    (λ u. closed.nothing)))))

    pub run_session-closed :
        (upstream : Option PipelineManifest) → P (run_session stages env args config upstream).steps
    unfolding run_session finally
    run_session-closed upstream =
        closed.append _ _
          (on_error-closed (session stages env args config upstream) _ (session-closed upstream)
            (report-closed (batch_id_of_run env args) failed none))
          (stop-closed config)
