-- ===== src/Release/Delta.antt =====
-- What `GoldReleaseStore` relies on of a Delta table, its version and its table properties, and
-- `set_delta_table_property` of adapters/lakehouse.py.
use azure_lakehouse_pipeline.Prelude.Int.{ℤ, ◌+ℤ◌, pos}
use azure_lakehouse_pipeline.Dict.{Dict, get}
use azure_lakehouse_pipeline.Json.{JsonCodec, Json}
use azure_lakehouse_pipeline.Json.Plain.{is_plain}
use azure_lakehouse_pipeline.Prelude.{String, Bool, false, true, ◌≡◌, some}
use azure_lakehouse_pipeline.Result.{Result, ok}

-- `ALTER TABLE ... SET TBLPROPERTIES (key = 'literal')`, with the characters between the quotes. Where it
-- does not raise it is one commit, with the first text as user metadata: the version grows by one. The
-- property reads back as the literal where that has no quote and no backslash, which the SQL parser reads
-- as ends and escapes. `double_quotes` is Python's `replace("'", "''")`.
pub record DeltaProperties (json : JsonCodec) : Type 1 where
  pub has_quote : json.Text → Bool
  pub has_backslash : json.Text → Bool
  pub double_quotes : json.Text → json.Text
  pub double_quotes-plain : (t : json.Text) → has_quote t ≡ false → double_quotes t ≡ t
  -- `json.dumps` adds double quotes and punctuation, and a backslash only where it escapes a character.
  pub dumps-plain :
      (v : Json)
      → is_plain v ≡ true
      → (has_quote (json.dumps v) ≡ false) × (has_backslash (json.dumps v) ≡ false)
  pub Table : Type 0
  pub version : Table → ℤ
  pub properties : Table → Dict json.Text
  pub set_property : json.Text → String → json.Text → Table → Result Table
  pub version-set_property :
      (meta : json.Text) (key : String) (literal : json.Text) (t t' : Table)
      → set_property meta key literal t ≡ ok t'
      → version t' ≡ version t +ℤ pos 1
  pub get-set_property :
      (meta : json.Text) (key : String) (literal : json.Text) (t t' : Table)
      → set_property meta key literal t ≡ ok t'
      → has_quote literal ≡ false
      → has_backslash literal ≡ false
      → get key (properties t') ≡ some literal

module _ (json : JsonCodec) (delta : DeltaProperties json) where
  open json use {Text}

  -- `_sql_literal`, without the quotes around it.
  unfoldable pub sql_literal : Text → Text
  sql_literal value = delta.double_quotes value

  unfoldable pub set_delta_table_property : Text → String → Text → delta.Table → Result delta.Table
  unfolding sql_literal
  set_delta_table_property meta key value t = delta.set_property meta key (sql_literal value) t
