-- ===== src/Upsert/Table.antt =====
-- adapters/lakehouse.py: `upsert_table`, its checks, the clauses that it adds and its two ways to write.
use azure_lakehouse_pipeline.Prelude.{
  Option, Bool, String, List, str_eq, ◌++◌, if◌then◌else◌, none, [], all, ◌&&◌, ◌∷◌, true, any,
  some, map, false, not,
}
use azure_lakehouse_pipeline.Upsert.{
  Frame, null_safe_eq, Row, Scalar, text_value, conjunction, lexicographic_newer_condition,
  Condition, null_safe_equals, eval, equals, equals_value, negated, after_prefix, flag_value,
  of_target, is_flag, all_hold, coalesce_false, of_source, eq_scalar, joined,
}
use azure_lakehouse_pipeline.Result.{Result, ◌>>◌, raise_if, ok, value_error, ◌>>=◌}
use azure_lakehouse_pipeline.Upsert.Plan.{
  DeltaTables, filter, Clause, when_matched_update, MergePlan, when_matched_delete,
  when_not_matched_insert, when_not_matched_by_source_delete,
}
use azure_lakehouse_pipeline.Contracts.Cdc.{starts_with}
use text.Mathlib.Text.{is_le}
use Prim.Native.String.{compare}
use azure_lakehouse_pipeline.Dict.{member, same_set}

pub record UpsertOptions : Type 0 where
  pub layer : String
  pub merge_keys : List String
  pub delete_mode : String
  pub delete_not_matched_by_source : Bool
  pub delete_keys : Option Frame
  pub sequence_columns : List String
  pub source_is_nonempty : Bool
  pub preserve_target_on_soft_delete : Bool

-- `sorted(set(xs) - set(ys))`.
unfoldable pub insert_name : String → List String → List String
insert_name x [] = x ∷ []
insert_name x (y ∷ ys) =
    let rest = insert_name x ys in
    if str_eq x y then y ∷ ys else if is_le (compare x y) then x ∷ y ∷ ys else y ∷ rest

unfoldable pub difference : List String → List String → List String
unfolding insert_name
difference [] ys = []
difference (x ∷ xs) ys =
    let rest = difference xs ys in if member x ys then rest else insert_name x rest

abbrev pub is_nil {ℓ} : {A : Type ℓ} → List A → Bool
is_nil [] = true
is_nil (x ∷ xs) = false

abbrev delete_text : Scalar
delete_text = text_value "DELETE"

abbrev is_not_delete : Row → Bool
is_not_delete r = elim (r "_operation") [ none ↦ true | some v ↦ not (eq_scalar v delete_text) ]

abbrev pub filter_frame : (Row → Bool) → Frame → Frame
filter_frame p f = record { columns = f.columns; rows = filter p f.rows }

-- The rows of `delete_keys`, once for each key, as rows of the frame that have no other value.
abbrev pub select_keys : List String → Row → Row
select_keys names r = λ name. if member name names then r name else none

abbrev pub with_delete : Bool → Row → Row
with_delete b r = λ name. if str_eq name "_delete" then some (flag_value b) else r name

abbrev pub same_cells : List String → Row → Row → Bool
same_cells names r s = all (λ name. null_safe_eq (r name) (s name)) names

unfoldable pub drop_duplicates : List String → List Row → List Row
unfolding null_safe_eq
drop_duplicates names [] = []
drop_duplicates names (r ∷ rs) =
    let rest = drop_duplicates names rs in if any (same_cells names r) rest then rest else r ∷ rest

unfoldable pub with_delete_rows : List String → Frame → Frame → Frame
unfolding drop_duplicates
with_delete_rows merge_keys df delete_keys = record {
  columns = df.columns ++ "_delete" ∷ [];
  rows =
      map (with_delete false) df.rows
      ++ map (with_delete true)
          (drop_duplicates merge_keys (map (select_keys merge_keys) delete_keys.rows));
}

abbrev guarded : Option Condition → Condition → Condition
guarded none p = p
guarded (some newer) p = all_hold newer p

abbrev pub join_on : List String → Condition
join_on [] = equals (of_target "") (of_source "")
join_on (key ∷ keys) =
    conjunction (equals (of_target key) (of_source key))
      (map (λ k. equals (of_target k) (of_source k)) keys)

abbrev pub if_some {ℓ} : {A B : Type ℓ} → Option A → (A → B) → List B
if_some none f = []
if_some (some a) f = f a ∷ []

abbrev negated_option : Option Condition → Option Condition
negated_option none = none
negated_option (some p) = some (negated p)

abbrev when : Bool → Clause → List Clause
when b clause = if b then clause ∷ [] else []

abbrev is_metadata_name : String → Bool
is_metadata_name name = starts_with name "_"

unfoldable pub filter_names : (String → Bool) → List String → List String
filter_names p [] = []
filter_names p (x ∷ xs) = let rest = filter_names p xs in if p x then x ∷ rest else rest

module _ (options : UpsertOptions) (df : Frame) where
  abbrev pub uses_operation_delete : Bool
  uses_operation_delete = str_eq options.delete_mode "hard" && member "_operation" df.columns

  abbrev pub preserves_soft_delete : Bool
  preserves_soft_delete =
      options.preserve_target_on_soft_delete
      && str_eq options.delete_mode "soft"
      && member "_is_deleted" df.columns

  abbrev pub compared_names : List String
  compared_names = difference df.columns (
      options.merge_keys
      ++ "created_at"
        ∷ "_silver_updated_at"
        ∷ (if str_eq options.layer "gold" then "updated_at" ∷ [] else []))

  abbrev pub update_names : List String
  update_names = difference df.columns ("created_at" ∷ [])

  abbrev pub delete_condition : Option Condition
  delete_condition = elim options.delete_keys [
    | some keys ↦ some (is_flag (of_source "_delete"))
    | none ↦
        if uses_operation_delete
        then some (equals_value (of_source "_operation") delete_text)
        else none
  ]

  abbrev pub not_delete : Option Condition
  not_delete =
      let active = negated (coalesce_false (of_source "_is_deleted")) in
      let kept = negated_option delete_condition in
      if preserves_soft_delete then some (after_prefix kept active) else kept

  abbrev pub equality : String → Condition
  equality name = null_safe_equals (of_target name) (of_source name)

  abbrev pub update_clause : Option Condition → Condition → Clause
  update_clause newer equal =
      when_matched_update (after_prefix not_delete (guarded newer (negated equal))) update_names

  unfoldable pub merge_clauses : Option Condition → List Clause
  unfolding difference filter_names conjunction
  merge_clauses newer =
      if_some delete_condition (λ p. when_matched_delete (guarded newer p))
      ++ (when preserves_soft_delete (
            when_matched_update
              (guarded newer (equals_value (of_source "_is_deleted") (flag_value true)))
              (filter_names is_metadata_name update_names))
          ++ (if_some (joined conjunction (map equality compared_names)) (update_clause newer)
              ++ (elim options.delete_keys [
                | none ↦ when_not_matched_insert not_delete df.columns
                | some keys ↦
                    when_not_matched_insert (some (negated (is_flag (of_source "_delete"))))
                      df.columns
              ]
                  ∷ when options.delete_not_matched_by_source when_not_matched_by_source_delete)))

  unfoldable pub merge_plan : MergePlan
  unfolding merge_clauses lexicographic_newer_condition
  merge_plan = record {
    join_condition = join_on options.merge_keys;
    clauses = merge_clauses (lexicographic_newer_condition options.sequence_columns);
  }

  abbrev pub changes : Frame
  changes = elim options.delete_keys [
    | none ↦ df
    | some keys ↦ with_delete_rows options.merge_keys df keys
  ]

  unfoldable pub check_options : Result (Unit {0})
  unfolding difference
  check_options = do
    raise_if (is_nil options.merge_keys) (value_error "merge_keys must not be empty")
    raise_if (not (member options.delete_mode ("soft" ∷ "hard" ∷ [])))
        (value_error "delete_mode must be either 'soft' or 'hard'")
    raise_if
        (elim options.delete_keys [
          | none ↦ false
          | some keys ↦ not (is_nil (difference options.merge_keys keys.columns))
        ])
        (value_error "Missing delete keys")
    raise_if (not (is_nil (difference options.sequence_columns df.columns)))
        (value_error "Missing sequence columns")

  module _ {Text : Type 0} (tables : DeltaTables Text) (meta : Text) where
    open tables use {Table}

    abbrev pub write_new : Frame
    write_new = if uses_operation_delete then filter_frame is_not_delete df else df

    -- `_validate_schema_match`, the empty frame, and the MERGE.
    unfoldable pub merge_into : Table → Result (Bool × Option Table)
    unfolding merge_plan
    merge_into target = do
      raise_if (not (same_set df.columns (tables.columns target))) (value_error "Schema mismatch")
      if not options.source_is_nonempty && is_nil changes.rows
          then ok (false, some target)
          else do merged ← tables.merge meta merge_plan changes target; ok (true, some merged)

    -- `target` is the table where it exists; whether rows were written comes with the table after.
    unfoldable pub upsert_table : Option Table → Result (Bool × Option Table)
    unfolding check_options merge_into eval
    upsert_table none = do check_options; ok (true, some (tables.overwrite meta write_new none))
    upsert_table (some target) = do check_options; merge_into target
