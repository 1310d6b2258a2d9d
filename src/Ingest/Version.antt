-- ===== src/Ingest/Version.antt =====
-- `_result` of ingestion/batch/extract_to_bronze.py, and the version of the commit of a run.
use azure_lakehouse_pipeline.Prelude.{
  ℕ, List, All, ◌∷◌, String, suc, ◌≤◌, [], zero, ◌≡◌, some, Option, arith, Option-cases, inr, inl,
  none, sym, ◌+◌, refl, ◌∙◌, ap, ltb, ◌||◌, not, true,
}
use azure_lakehouse_pipeline.Json.{JsonCodec, Json}
use azure_lakehouse_pipeline.Delta.{
  first_commit, Commit, take, try_delta_table_state, metadata_for_pipelines, delta_table_state,
  state_of, DeltaTableState, progress_history_fallback_limit,
}
use azure_lakehouse_pipeline.Delta.Log.{DeltaLog, next_version}
use azure_lakehouse_pipeline.Ingest.Table.{
  BronzeRow, physical_version, table_state, BronzeState, read_cursor, max_ℤ, checked_event_id,
  store_events, result, ChangeEventStats, is_some,
}
use azure_lakehouse_pipeline.Dict.{Dict, get}
use azure_lakehouse_pipeline.Prelude.Int.{◌+ℤ◌, pos, ℤ}
use azure_lakehouse_pipeline.Ingest.Cursor.{history_of}
use azure_lakehouse_pipeline.Result.{ok, ok-injective, >>=-eq-ok}
use mathlib.Core.Path.{subst}
use azure_lakehouse_pipeline.Contracts.Bronze.{EventCursor}
use azure_lakehouse_pipeline.Delta.Progress.{delta_table_state_lem}
use azure_lakehouse_pipeline.Ingest.Query.{ChangeEvent}

-- The newest commit has the greatest version.
abbrev pub IsNewestFirst : {Text : Type 0} → List (Commit Text) → Type 0
IsNewestFirst [] = Unit
IsNewestFirst (c ∷ history) = All (λ d. d.version ≤ c.version) history

All-take : {A : Type 0} (P : A → Type 0) (n : ℕ) (xs : List A) → All P xs → All P (take n xs)
All-take P zero xs h = tt
All-take P (suc n) [] h = tt
All-take P (suc n) (x ∷ xs) (h, hs) = (h, All-take P n xs hs)

module _ (json : JsonCodec) where
  open json use {Text}

  first_commit-version :
      (pipelines : List String) (bound : ℕ) (history : List (Commit Text)) {v : ℕ} {p : Dict Json}
      → All (λ c. c.version ≤ bound) history
      → first_commit json pipelines history ≡ some (v, p)
      → v ≤ bound
  unfolding first_commit
  first_commit-version pipelines bound [] h e = absurd (ground arith)
  first_commit-version pipelines bound (c ∷ history) {v} {p} (h, hs) e =
      elim (Option-cases (metadata_for_pipelines json c.user_metadata pipelines)) [
        | inr (q, own) ↦
            let e' : some (c.version, q) ≡ some (v, p) = rw (own, first_commit) at e in
            let same : c.version ≡ v = cc e' in omega arith
        | inl other ↦
            first_commit-version pipelines bound history {v = v} {p = p} hs
              (rw (other, first_commit) at e)
      ]

  -- The versions of a state that was read from a history that is newest first.
  known_version :
      (version v : ℕ) (p : Dict Json) (cursor : Option EventCursor) (processed : ℤ)
      → v ≤ version
      → read_cursor (some (state_of json version (some (v, p)))) ≡ ok (cursor, processed)
      → max_ℤ (pos version) processed +ℤ pos 1 ≡ pos (version + 1)
  unfolding read_cursor state_of ◌+ℤ◌
  known_version version v p cursor processed le h =
      let (n, hn, k) = >>=-eq-ok (checked_event_id (get "last_event_id" p)) _ h in
      let e : pos v ≡ processed = ap (λ x. x.1) (ok-injective k) in
      subst (λ x. max_ℤ (pos version) x +ℤ pos 1 ≡ pos (version + 1)) e (ground arith)

  state_version :
      (history : List (Commit Text)) (cursor : Option EventCursor) (processed : ℤ)
      {d : DeltaTableState}
      → IsNewestFirst history
      → delta_table_state json "postgres_to_bronze" history ≡ ok d
      → read_cursor (some d) ≡ ok (cursor, processed)
      → max_ℤ (pos d.version) processed +ℤ pos 1 ≡ pos (next_version history)
  unfolding delta_table_state read_cursor state_of
  state_version [] cursor processed h e k = absurd (ground arith)
  state_version (c ∷ history) cursor processed {d} h e k =
      let recent : List (Commit Text) = take progress_history_fallback_limit (c ∷ history) in
      let own : List String = "postgres_to_bronze" ∷ [] in
      let is_state : state_of json c.version (first_commit json own recent) ≡ d =
        ok-injective (sym (delta_table_state_lem json "postgres_to_bronze" c history) ∙ e) in
      let k' : read_cursor (some (state_of json c.version (first_commit json own recent)))
          ≡ ok (cursor, processed) =
        subst (λ x. read_cursor (some x) ≡ ok (cursor, processed)) (sym is_state) k in
      subst (λ x. max_ℤ (pos x.version) processed +ℤ pos 1 ≡ pos (c.version + 1)) is_state
        (elim (Option-cases (first_commit json own recent)) [
          | inl missing ↦
              let bad : read_cursor (some (state_of json c.version none)) ≡ ok (cursor, processed) =
                subst (λ o. read_cursor (some (state_of json c.version o)) ≡ ok (cursor, processed))
                  missing k' in
              absurd (ground arith)
          | inr ((v, p), found) ↦
              let le =
                first_commit-version own c.version recent {v = v} {p = p}
                  (All-take (λ x. x.version ≤ c.version) progress_history_fallback_limit
                    (c ∷ history) (omega arith, h))
                  found in
              subst
                (λ o.
                  max_ℤ (pos (state_of json c.version o).version) processed +ℤ pos 1
                  ≡ pos (c.version + 1))
                (sym found)
                (known_version c.version v p cursor processed le (
                  subst
                    (λ o. read_cursor (some (state_of json c.version o)) ≡ ok (cursor, processed))
                    found k'))
        ])

module _ (json : JsonCodec) (delta : DeltaLog json.Text BronzeRow) where
  open delta use {Table}

  physical_version-next :
      (name : String) (t : Option Table) {s : BronzeState}
      → IsNewestFirst (history_of json delta t)
      → table_state json delta name t ≡ ok s
      → physical_version s +ℤ pos 1 ≡ pos (next_version (history_of json delta t))
  unfolding physical_version ◌+ℤ◌ table_state try_delta_table_state read_cursor
  physical_version-next name none {s} h e =
      subst (λ x. physical_version x +ℤ pos 1 ≡ pos 0) (ok-injective e) refl
  physical_version-next name (some t) {s} h e =
      let (st, e1, k) =
        >>=-eq-ok (try_delta_table_state json "postgres_to_bronze" (some (delta.history t))) _ e in
      let (d, ed, kd) =
        >>=-eq-ok (delta_table_state json "postgres_to_bronze" (delta.history t)) _ e1 in
      let ((cursor, processed), ec, kc) = >>=-eq-ok (read_cursor st) _ k in
      let ec' : read_cursor (some d) ≡ ok (cursor, processed) =
        subst (λ x. read_cursor x ≡ ok (cursor, processed)) (sym (ok-injective kd)) ec in
      let version = state_version json (delta.history t) cursor processed {d = d} h ed ec' in
      subst (λ x. physical_version x +ℤ pos 1 ≡ pos (next_version (delta.history t)))
        (ok-injective kc)
        (subst
          (λ x.
            physical_version (record {
              table_name = name;
              delta_state = x;
              cursor = cursor;
              processed_version = processed;
            })
              +ℤ pos 1
            ≡ pos (next_version (delta.history t)))
          (ok-injective kd) version)

  -- Where a commit is made of the events of a run, the result that the run returns reports the version
  -- of that commit. The state was read from the table, whose history is newest first.
  pub store_events-version :
      (batch_id name : String) (t : Option Table) (s : BronzeState) (events : List ChangeEvent)
      (stats : ChangeEventStats)
      → IsNewestFirst (history_of json delta t)
      → table_state json delta name t ≡ ok s
      → (ltb 0 stats.record_count || not (is_some s.delta_state)) ≡ true
      → (store_events json delta batch_id s events stats t).0.delta_version
        ≡ pos (next_version (history_of json delta t))
  unfolding store_events result
  store_events-version batch_id name t s events stats h e written =
      rw written (physical_version-next name t h e)
