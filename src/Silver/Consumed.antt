-- ===== src/Silver/Consumed.antt =====
-- pipelines/build_silver.py: the progress of a Silver table after a run.
use azure_lakehouse_pipeline.Silver.Progress.{progress_text, IsProgress, read_back}
use azure_lakehouse_pipeline.Silver.Run.{history_of}
use azure_lakehouse_pipeline.Json.{JsonCodec, Json}
use azure_lakehouse_pipeline.Upsert.Plan.{DeltaTables, past}
use azure_lakehouse_pipeline.Delta.{
  try_delta_table_state, state_of, DeltaTableState, delta_table_state, Commit, first_commit, take,
  progress_history_fallback_limit,
}
use azure_lakehouse_pipeline.Prelude.Int.{ℤ, pos}
use azure_lakehouse_pipeline.Silver.Builder.{processed_version, BronzeReader}
use azure_lakehouse_pipeline.Prelude.{
  Option, ◌≡◌, ℕ, some, String, List, [], ◌+◌, ◌∷◌, none, refl, ap, sym, ◌∙◌,
}
use azure_lakehouse_pipeline.Silver.Builder.{silver_pipeline_name}
use azure_lakehouse_pipeline.Delta.Log.{next_version}
use azure_lakehouse_pipeline.Dict.{Dict}
use azure_lakehouse_pipeline.Silver.Outcomes.{IsCommit, raise-ok}
use azure_lakehouse_pipeline.Result.{ok, Result, ok-injective, >>=-eq-ok}
use azure_lakehouse_pipeline.Silver.{SparkFunctions}
use azure_lakehouse_pipeline.Silver.Progress.{IsProgress, read_back}
use azure_lakehouse_pipeline.Silver.Run.{replaced_version}
use azure_lakehouse_pipeline.Delta.Progress.{delta_table_state-own, delta_table_state_lem}
use mathlib.Core.Path.{subst}

module _ (json : JsonCodec) (tables : DeltaTables json.Text) where
  open json use {Text}
  open tables use {Table}

  -- The next run reads from the history of the table that its progress is the Bronze version, and the
  -- commit of this progress is the committed version.
  pub record IsProgressed (version committed : ℤ) (current : Option Table) : Type 0 where
    pub table : Table
    pub is_table : current ≡ some table
    pub state : DeltaTableState
    pub read :
        try_delta_table_state json silver_pipeline_name (some (tables.history table))
        ≡ ok (some state)
    pub processed : processed_version state.progress ≡ ok (some version)
    pub commit : (n : ℕ) × (state.progress_version ≡ some n) × (committed ≡ pos n)

  abbrev pub version_after : Option Table → ℕ
  version_after before = next_version (past tables.history before)

  processed_version-IsProgress :
      (n : ℕ) (p : Dict Json)
      → IsProgress json (pos n) p
      → processed_version (some p) ≡ ok (some (pos n))
  unfolding processed_version
  processed_version-IsProgress n p good = rw (good.version) refl

  pub commit-IsProgressed :
      (name : String) (n : ℕ) (batch_id : String) (start : Option ℤ) (before after : Option Table)
      → IsCommit json tables (progress_text json name (pos n) batch_id start) before after
      → IsProgressed (pos n) (pos (version_after before)) after
  unfolding try_delta_table_state state_of
  commit-IsProgressed name n batch_id start before after made =
      let (p, own, progress) = read_back json name (pos n) batch_id start [] in
      let v = version_after before in
      let head : Commit Text = record {
        version = v;
        user_metadata = some (progress_text json name (pos n) batch_id start);
      } in
      record {
        table = made.table;
        is_table = made.is_table;
        state = record { version = v; progress_version = some v; progress = some p };
        read =
            rw
              (
                made.commit,
                delta_table_state-own json silver_pipeline_name head (past tables.history before)
                    own,
              )
              refl;
        processed = processed_version-IsProgress n p progress;
        commit = (v, refl, refl);
      }

  state_of-version : (v : ℕ) (found : Option (ℕ × Dict Json)) → (state_of json v found).version ≡ v
  unfolding state_of
  state_of-version v none = refl
  state_of-version v (some (n, p)) = refl

  -- The version of a table's state is that of its newest commit.
  delta_state-version :
      (history : List (Commit Text)) (s : DeltaTableState)
      → delta_table_state json silver_pipeline_name history ≡ ok s
      → s.version + 1 ≡ next_version history
  unfolding delta_table_state state_of
  delta_state-version [] s h = absurd (raise-ok h)
  delta_state-version (latest ∷ history) s h =
      let found =
        first_commit json (silver_pipeline_name ∷ [])
          (take progress_history_fallback_limit (latest ∷ history)) in
      ap (λ (x : DeltaTableState). x.version + 1)
        (ok-injective (sym h ∙ delta_table_state_lem json silver_pipeline_name latest history))
      ∙ ap (λ v. v + 1) (state_of-version latest.version found)

  abbrev some_state : DeltaTableState → Result (Option DeltaTableState)
  some_state s = ok (some s)

  module _ (spark : SparkFunctions) (bronze : BronzeReader Text) where
    pub replaced_version_lem :
        (current : Option Table) (ss : Option DeltaTableState)
        → try_delta_table_state json silver_pipeline_name (history_of json tables spark current)
          ≡ ok ss
        → replaced_version json tables spark bronze ss ≡ pos (version_after current)
    unfolding try_delta_table_state
    replaced_version_lem none ss h =
        subst (λ x. replaced_version json tables spark bronze x ≡ pos 0) (ok-injective h) refl
    replaced_version_lem (some t) ss h =
        let (s, read, is_s) =
          >>=-eq-ok (delta_table_state json silver_pipeline_name (tables.history t)) some_state h in
        subst (λ x. replaced_version json tables spark bronze x ≡ pos (version_after (some t)))
          (ok-injective is_s) (ap pos (delta_state-version (tables.history t) s read))
