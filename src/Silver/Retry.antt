-- ===== src/Silver/Retry.antt =====
-- pipelines/build_silver.py: a change history that is appended again for the same Bronze version.
use azure_lakehouse_pipeline.Json.{JsonCodec}
use azure_lakehouse_pipeline.Upsert.Plan.{DeltaTables, is_stored, stored_by}
use azure_lakehouse_pipeline.Silver.{SparkFunctions}
use azure_lakehouse_pipeline.Silver.Builder.{
  BronzeReader, append_change_history, application_id, silver_change_history_pipeline_name,
  metadata_text, history_progress_metadata,
}
use azure_lakehouse_pipeline.Prelude.{
  String, ℕ, Option, ◌≡◌, true, Bool-cases, some, inr, ap, ◌∙◌, arith, none, inl,
}
use azure_lakehouse_pipeline.Contracts.Silver.{SilverTableContract}
use azure_lakehouse_pipeline.Upsert.{Frame}
use azure_lakehouse_pipeline.Prelude.Int.{ℤ, pos_part}
use azure_lakehouse_pipeline.Silver.Outcomes.{Silver}

module _ (json : JsonCodec) (tables : DeltaTables json.Text) (spark : SparkFunctions)
    (bronze : BronzeReader json.Text) where
  open json use {Text}
  open tables use {Table, append, transaction}

  kept :
      (app : String) (n : ℕ) (meta : Text) (df : Frame) (before : Option Table)
      → is_stored (stored_by transaction app before) n ≡ true
      → is_stored (transaction (append app n meta df before) app) n ≡ true
  kept app n meta df none h = cc
  kept app n meta df (some t) h =
      ap (λ (x : Table). is_stored (transaction x app) n) (tables.append-old app n meta df t h) ∙ h

  -- An append under a transaction leaves it, or a later one, stored.
  append-is_stored :
      (app : String) (n : ℕ) (meta : Text) (df : Frame) (before : Option Table)
      → is_stored (transaction (append app n meta df before) app) n ≡ true
  append-is_stored app n meta df before =
      elim (Bool-cases (is_stored (stored_by transaction app before) n)) [
        | inr new ↦
            ap (λ t. is_stored t n) (tables.transaction-append app n meta df before new)
            ∙ ground arith
        | inl old ↦ kept app n meta df before old
      ]

  abbrev holding : Silver json tables spark bronze → Table → Silver json tables spark bronze
  holding state t = record { current = state.current; change_history = some t }

  -- Appending to the change history again for the same Bronze version, with whatever rows and batch,
  -- as a run does that is retried after an error, changes nothing.
  pub append_change_history_again :
      (contract : SilverTableContract) (rows rows' : Frame) (batch_id batch_id' : String) (v : ℤ)
      (start start' : Option ℤ) (state : Silver json tables spark bronze)
      → append_change_history json tables spark bronze contract rows' batch_id' v start'
          (append_change_history json tables spark bronze contract rows batch_id v start state)
        ≡ append_change_history json tables spark bronze contract rows batch_id v start state
  unfolding append_change_history
  append_change_history_again contract rows rows' batch_id batch_id' v start start' state =
      let app =
        application_id json tables spark bronze silver_change_history_pipeline_name
          contract.table_name in
      let text = λ (f : Frame) (b : String) (s : Option ℤ).
        metadata_text json tables spark bronze (
          history_progress_metadata contract.table_name v b s
            silver_change_history_pipeline_name) in
      let first = append app (pos_part v) (text rows batch_id start) rows state.change_history in
      ap (holding state) (
        tables.append-old app (pos_part v) (text rows' batch_id' start') rows' first
          (append-is_stored app (pos_part v) (text rows batch_id start) rows state.change_history))
