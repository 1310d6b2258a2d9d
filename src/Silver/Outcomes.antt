-- ===== src/Silver/Outcomes.antt =====
-- What the parts of a Silver run did where the run returns.
use azure_lakehouse_pipeline.Result.{
  Result, Error, raise, ok, ◌>>=◌, >>=-eq-ok, ok-injective, raise_if, value_error,
}
use azure_lakehouse_pipeline.Json.{JsonCodec}
use azure_lakehouse_pipeline.Upsert.Plan.{DeltaTables, past}
use azure_lakehouse_pipeline.Silver.Builder.{
  attempt, BronzeReader, merge_current, SilverState, then_do, progress_meta, append_history_of,
  replace_from_snapshot, merge_into_silver, upsert_current, with_current, append_change_history,
  write_snapshot, history_written, written, history_appended,
}
use azure_lakehouse_pipeline.Prelude.{
  ◌≡◌, Option, List, some, String, Bool, ap, refl, ◌∷◌, true, sym, none, not, if◌then◌else◌, false,
  ◌∙◌,
}
use azure_lakehouse_pipeline.Upsert.{Frame}
use azure_lakehouse_pipeline.Delta.Log.{next_version}
use azure_lakehouse_pipeline.Upsert.Table.{upsert_table, merge_into, merge_plan, check_options}
use azure_lakehouse_pipeline.Upsert.Soft.{soft_options}
use mathlib.Core.Path.{subst}
use azure_lakehouse_pipeline.Dict.{same_set}
use azure_lakehouse_pipeline.Silver.{SparkFunctions, silver_sequence_columns}
use azure_lakehouse_pipeline.Contracts.Silver.{SilverTableContract}
use azure_lakehouse_pipeline.Prelude.Int.{ℤ}
use azure_lakehouse_pipeline.Silver.Transform.{transform, transform_history}

pub raise-ok {ℓ} : {A : Type ℓ} {e : Error} {a : A} → raise e ≡ ok a → ⊥
raise-ok h = cc

pub attempt-ok {ℓ} :
    {S A : Type 0} {B : Type ℓ} (r : Result A) (state : S) (next : A → S × Result B) {state' : S}
    {b : B}
    → attempt r state next ≡ (state', ok b)
    → (a : A) × (r ≡ ok a) × (next a ≡ (state', ok b))
attempt-ok (raise e) state next {state'} {b} h = absurd (raise-ok (ap (λ x. x.1) h))
attempt-ok (ok a) state next h = (a, refl, h)

module _ (json : JsonCodec) (tables : DeltaTables json.Text) where
  open json use {Text}
  open tables use {Table}

  -- A table after a commit with this metadata.
  pub record IsCommit (meta : Text) (before after : Option Table) : Type 0 where
    pub table : Table
    pub is_table : after ≡ some table
    pub commit :
        tables.history table
        ≡ record { version = next_version (past tables.history before); user_metadata = some meta }
          ∷ past tables.history before

  pub overwrite-IsCommit :
      (meta : Text) (df : Frame) (before : Option Table)
      → IsCommit meta before (some (tables.overwrite meta df before))
  overwrite-IsCommit meta df before = record {
    table = tables.overwrite meta df before;
    is_table = refl;
    commit = tables.history-overwrite meta df before;
  }

  module _ (keys sequence : List String) (df : Frame) (meta : Text) where
    abbrev upsert : Option Table → Result (Bool × Option Table)
    upsert = upsert_table (soft_options keys sequence) df tables meta

    abbrev wrote_merged : Table → Result (Bool × Option Table)
    wrote_merged merged = ok (true, some merged)

    merged-IsCommit :
        (target : Table) (r : Result Table) {written : Bool} {after : Option Table}
        → tables.merge meta (merge_plan (soft_options keys sequence) df) df target ≡ r
        → (r >>= wrote_merged) ≡ ok (written, after)
        → IsCommit meta (some target) after
    merged-IsCommit target (raise e) m h = absurd (raise-ok h)
    merged-IsCommit target (ok merged) m h = record {
      table = merged;
      is_table = sym (ap (λ x. x.1) (ok-injective h));
      commit =
          tables.merge-history meta (merge_plan (soft_options keys sequence) df) df target merged m;
    }

    -- A soft upsert that returns has made one commit.
    pub upsert_table-IsCommit :
        (before : Option Table) {written : Bool} {after : Option Table}
        → upsert before ≡ ok (written, after)
        → IsCommit meta before after
    unfolding upsert_table merge_into
    upsert_table-IsCommit none h =
        let (u, checked, wrote) =
          >>=-eq-ok (check_options (soft_options keys sequence) df)
            (λ u. ok (true, some (tables.overwrite meta df none))) h in
        subst (λ x. IsCommit meta none x) (ap (λ x. x.1) (ok-injective wrote))
          (overwrite-IsCommit meta df none)
    upsert_table-IsCommit (some target) h =
        let (u, checked, wrote) =
          >>=-eq-ok (check_options (soft_options keys sequence) df)
            (λ u. merge_into (soft_options keys sequence) df tables meta target) h in
        let (u', columns, merged) =
          >>=-eq-ok
            (raise_if (not (same_set df.columns (tables.columns target)))
              (value_error "Schema mismatch"))
            (λ u.
              tables.merge meta (merge_plan (soft_options keys sequence) df) df target
              >>= wrote_merged)
            wrote in
        merged-IsCommit target
          (tables.merge meta (merge_plan (soft_options keys sequence) df) df target) refl merged

module _ (json : JsonCodec) (tables : DeltaTables json.Text) (spark : SparkFunctions)
    (bronze : BronzeReader json.Text) where
  open json use {Text}
  open tables use {Table}

  abbrev pub Silver : Type 0
  Silver = SilverState json tables spark bronze

  pub then_do-ok :
      {A : Type 0} (o : Silver × Result (Unit {0})) (next : Silver → Silver × Result A)
      {state' : Silver} {a : A}
      → then_do json tables spark bronze o next ≡ (state', ok a)
      → (o.1 ≡ ok tt) × (next o.0 ≡ (state', ok a))
  then_do-ok (state, raise e) next h = absurd (raise-ok (ap (λ x. x.1) h))
  then_do-ok (state, ok u) next h = (refl, h)

  abbrev UnitOutcome : Type 0
  UnitOutcome = Silver × Result (Unit {0})

  -- The merge of the current rows makes one commit with its progress.
  pub merge_current-IsCommit :
      (contract : SilverTableContract) (source : Frame) (v : ℤ) (batch_id : String)
      (start : Option ℤ) (state : Silver) {state' : Silver} {u : Unit {0}}
      → merge_current json tables spark bronze contract source v batch_id start state
        ≡ (state', ok u)
      → IsCommit json tables
          (progress_meta json tables spark bronze contract v batch_id start)
          state.current
          state'.current
  unfolding merge_current
  merge_current-IsCommit contract source v batch_id start state h =
      let (rows, transformed, h1) =
        attempt-ok (transform spark contract source) state
          (upsert_current json tables spark bronze contract v batch_id start state) h in
      let (upserted, up, h2) =
        attempt-ok
          (upsert_table (soft_options contract.primary_keys silver_sequence_columns) rows tables
            (progress_meta json tables spark bronze contract v batch_id start) state.current)
          state (with_current json tables spark bronze state) h1 in
      subst
        (λ (s : Silver).
          IsCommit json tables (progress_meta json tables spark bronze contract v batch_id start)
            state.current s.current)
        (ap (λ x. x.0) h2)
        (upsert_table-IsCommit json tables contract.primary_keys silver_sequence_columns rows
          (progress_meta json tables spark bronze contract v batch_id start) state.current up)

  abbrev unless : Bool → UnitOutcome → UnitOutcome → UnitOutcome
  unless materialized skipped done = if not materialized then skipped else done

  appended-current :
      (contract : SilverTableContract) (v : ℤ) (batch_id : String) (start : Option ℤ)
      (state : Silver) (r : Result Frame) (materialized : Bool)
      → (unless materialized
          (state, ok tt)
          (attempt r state
            (history_appended json tables spark bronze contract v batch_id start state))).0.current
        ≡ state.current
  unfolding append_change_history
  appended-current contract v batch_id start state r false = refl
  appended-current contract v batch_id start state (raise e) true = refl
  appended-current contract v batch_id start state (ok rows) true = refl

  written-current :
      (contract : SilverTableContract) (v : ℤ) (batch_id : String) (after : Silver)
      (r : Result Frame) (materialized : Bool)
      → (unless materialized
          (after, ok tt)
          (attempt r after
            (history_written json tables spark bronze contract v batch_id after))).0.current
        ≡ after.current
  written-current contract v batch_id after r false = refl
  written-current contract v batch_id after (raise e) true = refl
  written-current contract v batch_id after (ok rows) true = refl

  -- Appending to the change history leaves the current rows.
  append_history_of-current :
      (contract : SilverTableContract) (source : Frame) (v : ℤ) (batch_id : String)
      (start : Option ℤ) (state : Silver)
      → (append_history_of json tables spark bronze contract source v batch_id start
          state).0.current
        ≡ state.current
  unfolding append_history_of
  append_history_of-current contract source v batch_id start state =
      appended-current contract v batch_id start state (transform_history spark contract source)
        contract.materialize_change_history

  pub merge_into_silver-IsCommit :
      (contract : SilverTableContract) (source : Frame) (v : ℤ) (batch_id : String)
      (start : Option ℤ) (state : Silver) {state' : Silver} {u : Unit {0}}
      → merge_into_silver json tables spark bronze contract source v batch_id start state
        ≡ (state', ok u)
      → IsCommit json tables
          (progress_meta json tables spark bronze contract v batch_id start)
          state.current
          state'.current
  unfolding merge_into_silver
  merge_into_silver-IsCommit contract source v batch_id start state {state'} h =
      let first =
        append_history_of json tables spark bronze contract source v batch_id start state in
      let (done, next) =
        then_do-ok first (merge_current json tables spark bronze contract source v batch_id start)
          h in
      subst
        (λ (before : Option Table).
          IsCommit json tables (progress_meta json tables spark bronze contract v batch_id start)
            before state'.current)
        (append_history_of-current contract source v batch_id start state)
        (merge_current-IsCommit contract source v batch_id start first.0 next)

  pub replace_from_snapshot-IsCommit :
      (contract : SilverTableContract) (v : ℤ) (batch_id : String) (state : Silver)
      {state' : Silver} {u : Unit {0}}
      → replace_from_snapshot json tables spark bronze contract v batch_id state ≡ (state', ok u)
      → IsCommit json tables
          (progress_meta json tables spark bronze contract v batch_id none)
          state.current
          state'.current
  unfolding replace_from_snapshot
  replace_from_snapshot-IsCommit contract v batch_id state h =
      let (rows, transformed, h1) =
        attempt-ok (transform spark contract bronze.read_snapshot) state
          (write_snapshot json tables spark bronze contract v batch_id state) h in
      let after =
        written json tables spark bronze
          (progress_meta json tables spark bronze contract v batch_id none) rows state in
      subst
        (λ (current : Option Table).
          IsCommit json tables (progress_meta json tables spark bronze contract v batch_id none)
            state.current current)
        (sym (
            written-current contract v batch_id after
              (transform_history spark contract bronze.read_snapshot)
              contract.materialize_change_history)
          ∙ ap (λ (x : UnitOutcome). x.0.current) h1)
        (overwrite-IsCommit json tables
          (progress_meta json tables spark bronze contract v batch_id none) rows state.current)
