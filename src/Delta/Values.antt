-- ===== src/Delta/Values.antt =====
-- A Delta table as the list of its commits and the list of its rows.
use azure_lakehouse_pipeline.Delta.Log.{DeltaLog, next_version}
use azure_lakehouse_pipeline.Prelude.{List, some, ◌∷◌, refl, ◌++◌, []}
use azure_lakehouse_pipeline.Delta.{Commit}

pub record TableValue (Text Row : Type 0) : Type 0 where
  pub table_history : List (Commit Text)
  pub table_rows : List Row

abbrev create_value : {Text Row : Type 0} → Text → List Row → TableValue Text Row
create_value meta rs = record {
  table_history = record { version = 0; user_metadata = some meta } ∷ [];
  table_rows = rs;
}

abbrev append_value :
    {Text Row : Type 0} → Text → List Row → TableValue Text Row → TableValue Text Row
append_value meta rs t = record {
  table_history =
      record { version = next_version t.table_history; user_metadata = some meta }
      ∷ t.table_history;
  table_rows = t.table_rows ++ rs;
}

abbrev pub value_log : (Text Row : Type 0) → DeltaLog Text Row
value_log Text Row = record {
  Table = TableValue Text Row;
  history = λ t. t.table_history;
  rows = λ t. t.table_rows;
  create = create_value;
  append = append_value;
  history-create = λ meta rs. refl;
  rows-create = λ meta rs. refl;
  history-append = λ meta rs t. refl;
  rows-append = λ meta rs t. refl;
}
