-- ===== src/Silver/Branches.antt =====
-- pipelines/build_silver.py: the ways in which `run_table` writes a Silver table, and the commit of each.
use azure_lakehouse_pipeline.Json.{JsonCodec}
use azure_lakehouse_pipeline.Upsert.Plan.{DeltaTables, past}
use azure_lakehouse_pipeline.Silver.{SparkFunctions}
use azure_lakehouse_pipeline.Silver.Builder.{
  BronzeReader, result, replace_from_snapshot, merge_into_silver, then_do, attempt,
  validate_schema_version,
}
use azure_lakehouse_pipeline.Prelude.{
  ℕ, String, ◌≡◌, Option, ◌+◌, ap, none, some, sym, ◌∷◌, [], ◌∙◌, refl,
}
use azure_lakehouse_pipeline.Silver.Outcomes.{
  Silver, IsCommit, attempt-ok, then_do-ok, replace_from_snapshot-IsCommit,
  merge_into_silver-IsCommit,
}
use azure_lakehouse_pipeline.Contracts.Silver.{SilverTableContract}
use azure_lakehouse_pipeline.Prelude.Int.{ℤ, pos, ◌+ℤ◌}
use azure_lakehouse_pipeline.Manifest.{SilverTableResult}
use azure_lakehouse_pipeline.Result.{Result, ok, ok-injective}
use azure_lakehouse_pipeline.Silver.Run.{extend, replace, initialize, replaced_version, Ran}
use azure_lakehouse_pipeline.Silver.Consumed.{IsProgressed, version_after, commit-IsProgressed}
use azure_lakehouse_pipeline.Delta.{
  DeltaTableState, DeltaPipelineCommit, latest_delta_pipeline_commit, Commit,
}
use mathlib.Core.Path.{subst}
use azure_lakehouse_pipeline.Silver.Progress.{progress_text}
use azure_lakehouse_pipeline.Jobs.Current.{silver_pipelines}
use azure_lakehouse_pipeline.Silver.Progress.{read_back}

module _ (json : JsonCodec) (tables : DeltaTables json.Text) (spark : SparkFunctions)
    (bronze : BronzeReader json.Text) where
  open json use {Text}
  open tables use {Table}

  abbrev pub IsCommittedAt : ℕ → SilverTableResult → Silver json tables spark bronze → Type 0
  IsCommittedAt n r state = IsProgressed json tables (pos n) r.committed_version state.current

  abbrev pub Returns :
      (Silver json tables spark bronze) × Result SilverTableResult
      → Silver json tables spark bronze
      → SilverTableResult
      → Type 0
  Returns o state' r = o ≡ (state', ok r)

  -- What a returned result and state are.
  pub returned :
      (n : ℕ) (v : ℤ) (contract : SilverTableContract) (after : Silver json tables spark bronze)
      {state' : Silver json tables spark bronze} {r : SilverTableResult}
      → IsProgressed json tables (pos n) v after.current
      → Returns (after, ok (result contract v)) state' r
      → IsCommittedAt n r state'
  returned n v contract after {state'} {r} good h =
      let same : after ≡ state' = ap (λ x. x.0) h in
      let value : result contract v ≡ r = ok-injective (ap (λ x. x.1) h) in
      subst (λ (s : Silver json tables spark bronze). IsCommittedAt n r s) same
        (subst (λ (x : SilverTableResult). IsCommittedAt n x after) value good)

  abbrev finish :
      SilverTableContract → ℤ → Silver json tables spark bronze → Ran json tables spark bronze
  finish contract v after = (after, ok (result contract v))

  abbrev finish_commit :
      SilverTableContract
      → Silver json tables spark bronze
      → DeltaPipelineCommit
      → Ran json tables spark bronze
  finish_commit contract after committed = (after, ok (result contract (pos committed.version)))

  abbrev find_commit :
      SilverTableContract → Silver json tables spark bronze → Ran json tables spark bronze
  find_commit contract after =
      attempt
        (latest_delta_pipeline_commit json silver_pipelines (past tables.history after.current))
        after (finish_commit contract after)

  abbrev extend_valid :
      SilverTableContract
      → ℤ
      → ℤ
      → String
      → DeltaTableState
      → Silver json tables spark bronze
      → Unit {0}
      → Ran json tables spark bronze
  extend_valid contract previous version batch_id s state valid =
      let start = previous +ℤ pos 1 in
      then_do json tables spark bronze
        (merge_into_silver json tables spark bronze contract (bronze.read_changes start version)
          version batch_id (some start) state)
        (finish contract (pos (s.version + 1)))

  latest-IsCommit :
      (name : String) (n : ℕ) (batch_id : String) (start : Option ℤ) (before after : Option Table)
      (c : DeltaPipelineCommit)
      → IsCommit json tables (progress_text json name (pos n) batch_id start) before after
      → latest_delta_pipeline_commit json silver_pipelines (past tables.history after) ≡ ok c
      → c.version ≡ version_after json tables before
  unfolding latest_delta_pipeline_commit
  latest-IsCommit name n batch_id start before after c made h =
      let (p, own, progress) = read_back json name (pos n) batch_id start ("cdc_to_silver" ∷ []) in
      let v = version_after json tables before in
      let head : Commit Text = record {
        version = v;
        user_metadata = some (progress_text json name (pos n) batch_id start);
      } in
      let newest : DeltaPipelineCommit = record { version = v; metadata = p } in
      let found : latest_delta_pipeline_commit json silver_pipelines (past tables.history after)
          ≡ ok newest =
        ap
          (λ (a : Option Table).
            latest_delta_pipeline_commit json silver_pipelines (past tables.history a))
          made.is_table
        ∙ ap (latest_delta_pipeline_commit json silver_pipelines) made.commit
        ∙ rw (own, latest_delta_pipeline_commit) refl in
      ap (λ (x : DeltaPipelineCommit). x.version) (ok-injective (sym h ∙ found))

  module _ (contract : SilverTableContract) (n : ℕ) (batch_id : String)
      (state : Silver json tables spark bronze) where
    pub replace-IsProgressed :
        (ss : Option DeltaTableState) {state' : Silver json tables spark bronze}
        {r : SilverTableResult}
        → replaced_version json tables spark bronze ss
          ≡ pos (version_after json tables state.current)
        → Returns (replace json tables spark bronze contract (pos n) batch_id ss state) state' r
        → IsCommittedAt n r state'
    unfolding replace
    replace-IsProgressed ss version h =
        let o = replace_from_snapshot json tables spark bronze contract (pos n) batch_id state in
        let (done, h2) =
          then_do-ok json tables spark bronze o
            (finish contract (replaced_version json tables spark bronze ss)) h in
        let made =
          replace_from_snapshot-IsCommit json tables spark bronze contract (pos n) batch_id state
            (ap (λ x. (o.0, x)) done) in
        returned n (replaced_version json tables spark bronze ss) contract o.0
          (subst (λ v. IsProgressed json tables (pos n) v o.0.current) (sym version)
            (commit-IsProgressed json tables contract.table_name n batch_id none state.current
              o.0.current made))
          h2

    pub initialize-IsProgressed :
        {state' : Silver json tables spark bronze} {r : SilverTableResult}
        → Returns (initialize json tables spark bronze contract (pos n) batch_id state) state' r
        → IsCommittedAt n r state'
    unfolding initialize
    initialize-IsProgressed h =
        let o =
          merge_into_silver json tables spark bronze contract bronze.read_snapshot (pos n) batch_id
            none state in
        let (done, h2) = then_do-ok json tables spark bronze o (find_commit contract) h in
        let made =
          merge_into_silver-IsCommit json tables spark bronze contract bronze.read_snapshot (pos n)
            batch_id none state (ap (λ x. (o.0, x)) done) in
        let (c, found, h3) =
          attempt-ok
            (latest_delta_pipeline_commit json silver_pipelines (past tables.history o.0.current))
            o.0 (finish_commit contract o.0) h2 in
        returned n (pos c.version) contract o.0
          (subst (λ v. IsProgressed json tables (pos n) (pos v) o.0.current)
            (sym (
              latest-IsCommit contract.table_name n batch_id none state.current o.0.current c made
                found))
            (commit-IsProgressed json tables contract.table_name n batch_id none state.current
              o.0.current made))
          h3

    pub extend-IsProgressed :
        (previous : ℤ) (s : DeltaTableState) {state' : Silver json tables spark bronze}
        {r : SilverTableResult}
        → pos (s.version + 1) ≡ pos (version_after json tables state.current)
        → Returns
            (extend json tables spark bronze contract previous (pos n) batch_id s state)
            state'
            r
        → IsCommittedAt n r state'
    unfolding extend
    extend-IsProgressed previous s version h =
        let start = previous +ℤ pos 1 in
        let (valid, checked, h1) =
          attempt-ok (validate_schema_version s.progress) state
            (extend_valid contract previous (pos n) batch_id s state) h in
        let o =
          merge_into_silver json tables spark bronze contract (bronze.read_changes start (pos n))
            (pos n) batch_id (some start) state in
        let (done, h2) =
          then_do-ok json tables spark bronze o (finish contract (pos (s.version + 1))) h1 in
        let made =
          merge_into_silver-IsCommit json tables spark bronze contract
            (bronze.read_changes start (pos n)) (pos n) batch_id (some start) state
            (ap (λ x. (o.0, x)) done) in
        returned n (pos (s.version + 1)) contract o.0
          (subst (λ v. IsProgressed json tables (pos n) v o.0.current) (sym version)
            (commit-IsProgressed json tables contract.table_name n batch_id (some start)
              state.current o.0.current made))
          h2
