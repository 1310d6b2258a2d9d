-- ===== src/Silver/Columns.antt =====
-- transformations/silver/common.py: the cleaning and the types of columns.
use Prim.Native.String.{◌++◌ as append_text}
use azure_lakehouse_pipeline.Prelude.{
  String, ◌++◌, if◌then◌else◌, Option, List, ◌∷◌, str_eq, leb, [], some, none, map, ◌&&◌, ◌==◌,
  ◌||◌, not,
}
use azure_lakehouse_pipeline.Silver.{
  SparkFunctions, decimal_columns, integer_columns, timestamp_columns,
}
use azure_lakehouse_pipeline.Upsert.{Frame, Row, Cell, number_value, text_value, flag_value}
use Prim.Native.Char.{code}
use azure_lakehouse_pipeline.Dict.{member}
use azure_lakehouse_pipeline.Contracts.Cdc.{ends_with, starts_with}

-- `df.withColumn(name, ...)`: the column is replaced, or added after the others.
abbrev pub set_cell : String → Cell → Row → Row
set_cell name value r = λ column. if str_eq column name then value else r column

abbrev pub with_column : String → (Row → Cell) → Frame → Frame
with_column name value df = record {
  columns = if member name df.columns then df.columns else df.columns ++ name ∷ [];
  rows = map (λ r. set_cell name (value r) r) df.rows;
}

-- A loop over the columns that the frame has.
unfoldable pub each_column : (String → Row → Cell) → List String → Frame → Frame
each_column value [] df = df
each_column value (name ∷ names) df =
    each_column value names
      (if member name df.columns then with_column name (value name) df else df)

-- A function of a text; NULL stays NULL.
abbrev pub on_text : (String → Cell) → Cell → Cell
on_text f none = none
on_text f (some (text_value s)) = f s
on_text f (some (number_value n)) = some (number_value n)
on_text f (some (flag_value b)) = some (flag_value b)

-- `[^0-9]` removed, and a leading plus kept.
unfoldable pub only_digits : String → String
only_digits String.[] = ""
only_digits (String.◌∷◌ c s) =
    let rest = only_digits s in
    if leb 48 (code c) && leb (code c) 57 then String.◌∷◌ c rest else rest

abbrev pub phone_prefix : String → String
phone_prefix String.[] = ""
phone_prefix (String.◌∷◌ c s) = if code c == 43 then "+" else ""

unfoldable pub phone_text : String → String
unfolding only_digits
phone_text s = append_text (phone_prefix s) (only_digits s)

unfoldable pub normalize_phone : Frame → Frame
unfolding phone_text
normalize_phone df =
    if member "phone_number" df.columns
    then with_column "phone_number"
        (λ r. on_text (λ s. some (text_value (phone_text s))) (r "phone_number")) df
    else df

-- The type that a column is cast to, by its name.
abbrev pub cast_type : String → Option String
cast_type name =
    if member name decimal_columns
    then some "decimal(12,2)"
    else if str_eq name "weight_kg"
    then some "decimal(8,3)"
    else if member name integer_columns
        || (ends_with name "_id" && not (starts_with name "public_" || starts_with name "_"))
    then some "int"
    else if member name timestamp_columns
    then some "timestamp"
    else if starts_with name "is_"
    then some "boolean"
    else none

module _ (spark : SparkFunctions) where
  open spark use {cast, trim, lower, upper, sha2, current_timestamp}

  abbrev pub cleaned : String → Cell
  cleaned s = let value = trim s in if str_eq value "" then none else some (text_value value)

  unfoldable pub clean_text : List String → Frame → Frame
  unfolding each_column
  clean_text names df = each_column (λ name r. on_text cleaned (r name)) names df

  unfoldable pub normalize_lower : List String → Frame → Frame
  unfolding each_column
  normalize_lower names df =
      each_column (λ name r. on_text (λ s. some (text_value (lower s))) (r name)) names df

  unfoldable pub normalize_upper : List String → Frame → Frame
  unfolding each_column
  normalize_upper names df =
      each_column (λ name r. on_text (λ s. some (text_value (upper s))) (r name)) names df

  abbrev pub typed_cell : String → Row → Cell
  typed_cell name r = elim (cast_type name) [ none ↦ r name | some type ↦ cast type (r name) ]

  unfoldable pub enforce_types : Frame → Frame
  unfolding each_column
  enforce_types df = each_column typed_cell df.columns df
