-- ===== src/Ingest/Cursor.antt =====
-- The commit of `write_append_only`, and the state that `_table_state` reads after it.
use azure_lakehouse_pipeline.Json.{JsonCodec, sorted, IsWellFormed, Json, int, str}
use azure_lakehouse_pipeline.Delta.Log.{DeltaLog, next_version}
use azure_lakehouse_pipeline.Ingest.Table.{
  BronzeRow, progress_metadata, write_append_only, table_state, read_cursor, BronzeState, is_some,
  checked_event_id,
}
use azure_lakehouse_pipeline.Delta.{
  metadata_for_pipelines, Commit, payload_for, try_delta_table_state, state_of,
}
use azure_lakehouse_pipeline.Prelude.{
  Option, String, ℕ, List, ◌≡◌, [], ◌++◌, some, refl, ◌∷◌, none, true, ap,
}
use azure_lakehouse_pipeline.Dict.Sort.{insert_key}
use azure_lakehouse_pipeline.Dict.{contains, get, Dict}
use azure_lakehouse_pipeline.Result.{ok, ◌>>=◌}
use azure_lakehouse_pipeline.Prelude.Int.{pos}
use azure_lakehouse_pipeline.Json.Sorted.{sorted-IsWellFormed}
use azure_lakehouse_pipeline.Contracts.Bronze.{bronze_schema_version, EventCursor}
use azure_lakehouse_pipeline.Delta.Progress.{delta_table_state-own}

module _ (json : JsonCodec) (delta : DeltaLog json.Text BronzeRow) where
  open json use {Text, dumps, loads}
  open delta use {Table, history}

  abbrev pub history_of : Option Table → List (Commit Text)
  history_of none = []
  history_of (some t) = history t

  abbrev pub rows_of : Option Table → List BronzeRow
  rows_of none = []
  rows_of (some t) = delta.rows t

  history-write :
      (meta : Text) (rows : List BronzeRow) (t : Option Table)
      → history (write_append_only json delta meta rows t)
        ≡ record { version = next_version (history_of t); user_metadata = some meta } ∷ history_of t
  unfolding write_append_only
  history-write meta rows none = delta.history-create meta rows
  history-write meta rows (some t) = delta.history-append meta rows t

  pub rows-write :
      (meta : Text) (rows : List BronzeRow) (t : Option Table)
      → delta.rows (write_append_only json delta meta rows t) ≡ rows_of t ++ rows
  unfolding write_append_only
  rows-write meta rows none = delta.rows-create meta rows
  rows-write meta rows (some t) = delta.rows-append meta rows t

  progress-IsWellFormed :
      (table batch_id : String) (n : ℕ) → IsWellFormed (progress_metadata table batch_id n)
  unfolding progress_metadata IsWellFormed contains
  progress-IsWellFormed table batch_id n =
      (refl, tt, (refl, tt, (refl, tt, (refl, tt, (refl, tt, tt)))))

  abbrev pub progress_text : String → String → ℕ → Text
  progress_text table batch_id n = dumps (sorted (progress_metadata table batch_id n))

  read_back :
      (table batch_id : String) (n : ℕ)
      → (p : Dict Json) × (metadata_for_pipelines json
            (some (progress_text table batch_id n))
            ("postgres_to_bronze" ∷ [])
          ≡ some p)
        × (get "last_event_id" p ≡ some (int (pos n)))
  unfolding metadata_for_pipelines progress_metadata sorted insert_key get payload_for
  read_back table batch_id n =
      let v = progress_metadata table batch_id n in
      let wf = sorted-IsWellFormed v (progress-IsWellFormed table batch_id n) in
      (
        ("batch_id", str batch_id)
            ∷ ("bronze_schema_version", int bronze_schema_version)
            ∷ ("last_event_id", int (pos n))
            ∷ ("pipeline", str "postgres_to_bronze")
            ∷ ("source_table", str table)
            ∷ [],
        rw (json.loads-dumps (sorted v) wf),
        refl,
      )

  read_cursor_lem :
      (v : ℕ) (n : ℕ) (p : Dict Json)
      → get "last_event_id" p ≡ some (int (pos n))
      → read_cursor (some (record { version = v; progress_version = some v; progress = some p }))
        ≡ ok (some (record { last_event_id = n }), pos v)
  unfolding read_cursor checked_event_id
  read_cursor_lem v n p h =
      ap
        (λ o. checked_event_id o >>= λ n.
          ok (some (let c : EventCursor = record { last_event_id = n } in c), pos v))
        h

  -- After a commit with the progress metadata of cursor `n`, to a table or to a missing one, the state
  -- that the next run reads has this cursor, the version of that commit, and an existing table.
  pub table_state-write :
      (name batch_id : String) (n : ℕ) (rows : List BronzeRow) (t : Option Table)
      → (s : BronzeState) × (table_state json delta name
            (some (write_append_only json delta (progress_text name batch_id n) rows t))
          ≡ ok s)
        × (s.cursor ≡ some (record { last_event_id = n }))
        × (s.processed_version ≡ pos (next_version (history_of t)))
        × (is_some s.delta_state ≡ true)
  unfolding table_state try_delta_table_state state_of
  table_state-write name batch_id n rows t =
      let v = next_version (history_of t) in
      let (p, own, cursor) = read_back name batch_id n in
      let head : Commit Text = record {
        version = v;
        user_metadata = some (progress_text name batch_id n);
      } in
      (
        record {
          table_name = name;
          delta_state = some (record { version = v; progress_version = some v; progress = some p });
          cursor = some (record { last_event_id = n });
          processed_version = pos v;
        },
        rw (
          history-write (progress_text name batch_id n) rows t,
          delta_table_state-own json "postgres_to_bronze" head (history_of t) own,
          read_cursor_lem v n p cursor,
        ),
        refl,
        refl,
        refl,
      )
