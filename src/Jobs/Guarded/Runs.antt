-- ===== src/Jobs/Guarded/Runs.antt =====
-- The locks that a whole run of jobs/run_batch.py holds at its stages.
use azure_lakehouse_pipeline.Jobs.Guarded.{
  IsSafe, IsGuarded, is_used, count, Run, guarded-IsSafe, IsSafe-IsClosed, entered-IsSafe,
  held-IsSafe, no_build-is_guarded, IsSafe-append, subst, IsSafe-IsOpen,
}
use azure_lakehouse_pipeline.Jobs.Trace.{
  silver_build, gold_build, silver_lock, gold_lock, local_lock, bind, Lock, perform,
}
use azure_lakehouse_pipeline.Jobs.Locks.{held_after, main-locks, same_lock}
use azure_lakehouse_pipeline.Jobs.Main.{SparkConfig, Environment, main, run_session, is_cloud}
use azure_lakehouse_pipeline.Json.{JsonCodec}
use azure_lakehouse_pipeline.Jobs.RunMode.{Stages, guarded}
use azure_lakehouse_pipeline.Jobs.Args.{Args, is_blank}
use azure_lakehouse_pipeline.Jobs.Closed.{
  AreBuilt, guarded-closed, IsClosed, fails, AreBuilt-entered,
}
use azure_lakehouse_pipeline.Prelude.{
  ◌≡◌, true, Option, [], arith, false, some, sym, not, ◌⊎◌, inl, ◌∙◌, refl, inr, Bool-cases,
}
use azure_lakehouse_pipeline.Result.{ok, ok-injective, Result-cases}
use azure_lakehouse_pipeline.Manifest.{PipelineManifest}
use azure_lakehouse_pipeline.Jobs.Sessions.{run_session-closed}

module _ (json : JsonCodec) (stages : Stages) (env : Environment) (args : Args) where
  in_cloud : (lock : Lock) → same_lock lock local_lock ≡ false → IsClosed stages (IsSafe lock 0)
  in_cloud lock cloud =
      IsSafe-IsClosed lock stages 0
        (λ s other. entered-IsSafe lock s (no_build-is_guarded lock s cloud other))

  silver-AreBuilt : AreBuilt stages true (IsSafe silver_lock 0)
  silver-AreBuilt = record {
    silver = λ r.
        guarded-IsSafe silver_lock stages (perform silver_build r)
          (held-IsSafe silver_lock silver_build);
    gold = λ r.
        guarded-closed stages (IsSafe silver_lock 0) (in_cloud silver_lock refl) true gold_lock
          (perform gold_build r) (entered-IsSafe silver_lock gold_build refl);
  }

  gold-AreBuilt : AreBuilt stages true (IsSafe gold_lock 0)
  gold-AreBuilt = record {
    silver = λ r.
        guarded-closed stages (IsSafe gold_lock 0) (in_cloud gold_lock refl) true silver_lock
          (perform silver_build r) (entered-IsSafe gold_lock silver_build refl);
    gold = λ r.
        guarded-IsSafe gold_lock stages (perform gold_build r) (held-IsSafe gold_lock gold_build);
  }

  cloud_session-IsSafe :
      (lock : Lock) (config : SparkConfig) (upstream : Option PipelineManifest)
      → same_lock lock local_lock ≡ false
      → AreBuilt stages (is_cloud config) (IsSafe lock 0)
      → IsSafe lock 0
          (guarded
            (not (is_blank config.master))
            stages
            local_lock
            (run_session stages env args config upstream)).steps
  cloud_session-IsSafe lock config upstream cloud built =
      guarded-closed stages (IsSafe lock 0) (in_cloud lock cloud) (not (is_blank config.master))
        local_lock (run_session stages env args config upstream)
        (run_session-closed (IsSafe lock 0) stages (in_cloud lock cloud) (IsSafe-IsOpen lock 0) env
          args config built upstream)

  session-IsSafe :
      (lock : Lock) (config : SparkConfig) (upstream : Option PipelineManifest)
      → is_used config lock ≡ true
      → IsSafe lock 0
          (guarded
            (not (is_blank config.master))
            stages
            local_lock
            (run_session stages env args config upstream)).steps
  session-IsSafe local_lock config upstream used =
      let closed = IsSafe-IsClosed local_lock stages 1 (λ s other. held-IsSafe local_lock s) in
      let session =
        run_session-closed (IsSafe local_lock 1) stages closed (IsSafe-IsOpen local_lock 1) env args
          config
          (AreBuilt-entered stages (IsSafe local_lock 1) closed (is_cloud config)
            (held-IsSafe local_lock))
          upstream in
      rw used
        (guarded-IsSafe local_lock stages (run_session stages env args config upstream) session)
  session-IsSafe silver_lock config upstream used =
      cloud_session-IsSafe silver_lock config upstream refl
        (subst (λ b. AreBuilt stages b (IsSafe silver_lock 0)) (sym used) silver-AreBuilt)
  session-IsSafe gold_lock config upstream used =
      cloud_session-IsSafe gold_lock config upstream refl
        (subst (λ b. AreBuilt stages b (IsSafe gold_lock 0)) (sym used) gold-AreBuilt)

  nothing-IsSafe : (lock : Lock) → IsSafe lock 0 []
  unfolding IsGuarded count
  nothing-IsSafe lock n above = (tt, omega arith)

  bind-IsSafe :
      {A B : Type 0} (lock : Lock) (r : Run A) (f : A → Run B)
      → IsSafe lock 0 r.steps
      → ((a : A) → r.outcome ≡ ok a → IsSafe lock 0 (f a).steps)
      → IsSafe lock 0 (bind r f).steps
  unfolding bind
  bind-IsSafe lock r f hr hf = elim (Result-cases r.outcome) [
    | inl (a, e) ↦ rw e (IsSafe-append lock 0 r.steps (f a).steps hr (hf a e))
    | inr (e, raised) ↦ rw raised hr
  ]

  main-IsSafe :
      (config : SparkConfig) (lock : Lock) (raw : Option json.Text)
      → env.load_config ≡ ok config
      → is_used config lock ≡ true
      → IsSafe lock 0 (main json stages env args raw).steps
  unfolding main
  main-IsSafe config lock raw loaded used =
      let nothing = nothing-IsSafe lock in
      bind-IsSafe lock _ _ nothing (λ vars e. bind-IsSafe lock _ _ nothing (λ u e.
        bind-IsSafe lock _ _ nothing (λ config' found.
          let same : config ≡ config' = ok-injective (sym loaded ∙ found) in
          let used' = subst (λ c. is_used c lock ≡ true) same used in
          bind-IsSafe lock _ _ nothing (λ upstream e.
            bind-IsSafe lock _ _ (session-IsSafe lock config' upstream used') (λ m e. nothing)))))

  -- A run of the command enters a stage only while it holds the lock of that stage: the local lock for
  -- every stage of a run with a local master, and in the cloud the Silver and the Gold lock for the two
  -- builds. After the run the lock is not held, and it is never released while it is not held, unless its
  -- taking raises once it is held or its release raises. This is so whatever the arguments and the
  -- upstream manifest are, whichever stage raises, and whether or not other locks fail.
  pub main-IsGuarded :
      (config : SparkConfig) (lock : Lock) (raw : Option json.Text)
      → env.load_config ≡ ok config
      → is_used config lock ≡ true
      → IsGuarded lock 0 (main json stages env args raw).steps
        × ((held_after lock 0 (main json stages env args raw).steps ≡ some 0)
            ⊎ (fails stages lock ≡ true))
  main-IsGuarded config lock raw loaded used =
      let (guarded_steps, le) = main-IsSafe config lock raw loaded used 0 (omega arith) in
      (
        guarded_steps,
        elim (Bool-cases (fails stages lock)) [
          | inl broken ↦ inr broken
          | inr works ↦ inl (main-locks json stages env args lock works raw)
        ],
      )
