-- ===== src/Delta/Log.antt =====
-- What the pipeline relies on of a Delta table: its rows, and a history that every write extends by
-- one commit with the user metadata of the write.
use azure_lakehouse_pipeline.Prelude.{List, ◌≡◌, some, ◌∷◌, [], ◌++◌, ℕ, ◌+◌}
use azure_lakehouse_pipeline.Delta.{Commit}

abbrev pub next_version : {Text : Type 0} → List (Commit Text) → ℕ
next_version [] = 0
next_version (c ∷ history) = c.version + 1

pub record DeltaLog (Text Row : Type 0) : Type 1 where
  pub Table : Type 0
  pub history : Table → List (Commit Text)
  pub rows : Table → List Row
  -- A write in mode "overwrite" to a table that does not exist.
  pub create : Text → List Row → Table
  -- A write in mode "append".
  pub append : Text → List Row → Table → Table
  pub history-create :
      (meta : Text) (rs : List Row)
      → history (create meta rs) ≡ record { version = 0; user_metadata = some meta } ∷ []
  pub rows-create : (meta : Text) (rs : List Row) → rows (create meta rs) ≡ rs
  pub history-append :
      (meta : Text) (rs : List Row) (t : Table)
      → history (append meta rs t)
        ≡ record { version = next_version (history t); user_metadata = some meta } ∷ history t
  pub rows-append :
      (meta : Text) (rs : List Row) (t : Table) → rows (append meta rs t) ≡ rows t ++ rs
