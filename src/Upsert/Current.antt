-- ===== src/Upsert/Current.antt =====
-- adapters/lakehouse.py: `upsert_table` with soft deletes and sequence columns, from one table to the next.
use azure_lakehouse_pipeline.Prelude.{
  List, String, All, ◌∷◌, [], ◌≡◌, true, length, ◌≤◌, refl, arith, length-map, some, sym, ◌++◌, ◌∙◌,
  All-of, All-map,
}
use azure_lakehouse_pipeline.Upsert.Plan.{
  DeltaTables, MergePlan, IsUnambiguous, assign, null_row, filter, joins, merged_rows,
}
use azure_lakehouse_pipeline.Upsert.Table.{
  difference, check_options, merge_plan, upsert_table, merge_into, compared_names,
}
use azure_lakehouse_pipeline.Dict.{member, same_set}
use azure_lakehouse_pipeline.Upsert.{Frame, Row}
use azure_lakehouse_pipeline.Upsert.Soft.{soft_options, IsSequence}
use azure_lakehouse_pipeline.Upsert.Keys.{rows_at, IsKeyed, same_key, holds-join_on, same_key_comm}
use azure_lakehouse_pipeline.Result.{ok}
use azure_lakehouse_pipeline.Upsert.Newest.{newest, rows_at-merged_rows}
use mathlib.Core.Path.{subst}
use azure_lakehouse_pipeline.Upsert.Names.{member-difference}
use azure_lakehouse_pipeline.Upsert.Rows.{filter-cong}

difference-nil : (xs ys : List String) → All (λ x. member x ys ≡ true) xs → difference xs ys ≡ []
unfolding difference
difference-nil [] ys h = refl
difference-nil (x ∷ xs) ys (first, rest) = rw (first, difference-nil xs ys rest) refl

-- A frame that a soft upsert takes: its keys and its sequence are columns of their own, and no key is
-- there twice.
pub record IsSoftFrame (keys sequence : List String) (df : Frame) : Type 0 where
  pub key_columns : All (λ n. member n df.columns ≡ true) keys
  pub sequence_columns : IsSequence keys df sequence
  pub keyed : IsKeyed keys df.rows

length-newest :
    (sequence : List String) (df : Frame) (targets sources : List Row)
    → length targets ≤ 1
    → length sources ≤ 1
    → length (newest sequence df targets sources) ≤ 1
length-newest sequence df [] sources h k =
    omega (arith, length-map (λ s. assign df.columns s null_row) sources)
length-newest sequence df (t ∷ targets) sources h k = omega (arith, h)

module _ {Text : Type 0} (tables : DeltaTables Text) where
  open tables use {Table}

  -- What the rows of each key become.
  abbrev pub IsUpserted : List String → List String → Frame → Table → Table → Type 0
  IsUpserted keys sequence df target target' =
      (k : Row)
      → rows_at keys k (tables.rows target')
        ≡ newest sequence df (rows_at keys k (tables.rows target)) (rows_at keys k df.rows)

module _ {Text : Type 0} (tables : DeltaTables Text) (meta : Text) where
  open tables use {Table}

  module _ (key : String) (keys : List String) (name : String) (names : List String) (df : Frame)
      (soft : IsSoftFrame (key ∷ keys) (name ∷ names) df) where
    abbrev plan : MergePlan
    plan = merge_plan (soft_options (key ∷ keys) (name ∷ names)) df

    member_of_compared :
        (n : String)
        → member n (compared_names (soft_options (key ∷ keys) (name ∷ names)) df) ≡ true
        → member n df.columns ≡ true
    member_of_compared n h = ground (
      arith,
      h,
      member-difference n df.columns ((key ∷ keys) ++ "created_at" ∷ "_silver_updated_at" ∷ []),
    )

    check_options-soft : check_options (soft_options (key ∷ keys) (name ∷ names)) df ≡ ok tt
    unfolding check_options
    check_options-soft =
        let in_columns =
          All-map (λ n h. member_of_compared n h) (name ∷ names) soft.sequence_columns in
        rw (difference-nil (name ∷ names) df.columns in_columns) refl

    filter-joins : (t : Row) → filter (joins plan t) df.rows ≡ rows_at (key ∷ keys) t df.rows
    unfolding merge_plan
    filter-joins t =
        filter-cong (joins plan t) (λ s. same_key (key ∷ keys) s t) df.rows
          (λ s. holds-join_on t s key keys ∙ same_key_comm (key ∷ keys) t s)

    length-joins : (t : Row) → length (filter (joins plan t) df.rows) ≤ 1
    length-joins t = subst (λ rs. length rs ≤ 1) (sym (filter-joins t)) (soft.keyed t)

    plan-IsUnambiguous : (targets : List Row) → IsUnambiguous plan targets df.rows
    unfolding merge_plan
    plan-IsUnambiguous targets = All-of targets (λ t. length-joins t)

    rows_at_merged :
        (k : Row) (targets : List Row)
        → IsKeyed (key ∷ keys) targets
        → rows_at (key ∷ keys) k (merged_rows plan targets df.rows)
          ≡ newest
              (name ∷ names)
              df
              (rows_at (key ∷ keys) k targets)
              (rows_at (key ∷ keys) k df.rows)
    rows_at_merged k targets keyed =
        rows_at-merged_rows key keys name names df soft.sequence_columns soft.key_columns k targets
          df.rows (keyed k)

    rows_at-IsUpserted :
        (target target' : Table)
        → IsKeyed (key ∷ keys) (tables.rows target)
        → tables.merge meta plan df target ≡ ok target'
        → IsUpserted tables (key ∷ keys) (name ∷ names) df target target'
    rows_at-IsUpserted target target' keyed merged k =
        let as_merged = rows_at_merged k (tables.rows target) keyed in
        tables.merge-rows meta plan df target target' merged (λ r. same_key (key ∷ keys) r k)
          (subst (λ rs. length rs ≤ 1) (sym as_merged)
            (length-newest (name ∷ names) df (rows_at (key ∷ keys) k (tables.rows target))
              (rows_at (key ∷ keys) k df.rows) (keyed k) (soft.keyed k)))
        ∙ as_merged

    -- On a table with the columns of the frame and no key twice, a soft upsert of a frame that has the
    -- keys, the sequence columns and no key twice succeeds. For every key the table then has what it
    -- had before, where the frame has no row of the key or none that is newer; the row of the frame
    -- with the `created_at` of the old row, where it is newer; and the row of the frame, where the key
    -- is new. No key is there twice, and the columns are the same.
    pub upsert_table-newest :
        (target : Table)
        → same_set df.columns (tables.columns target) ≡ true
        → IsKeyed (key ∷ keys) (tables.rows target)
        → (target' : Table) × (upsert_table
              (soft_options (key ∷ keys) (name ∷ names))
              df
              tables
              meta
              (some target)
            ≡ ok (true, some target'))
          × (tables.columns target' ≡ tables.columns target)
          × IsUpserted tables (key ∷ keys) (name ∷ names) df target target'
          × IsKeyed (key ∷ keys) (tables.rows target')
    unfolding upsert_table merge_into
    upsert_table-newest target columns keyed =
        let (target', merged) =
          tables.merge-ok meta plan df target (plan-IsUnambiguous (tables.rows target)) in
        let upserted = rows_at-IsUpserted target target' keyed merged in
        (
          target',
          rw (check_options-soft, columns, merged) refl,
          tables.merge-columns meta plan df target target' merged,
          upserted,
          λ k.
              subst (λ rs. length rs ≤ 1) (sym (upserted k))
                (length-newest (name ∷ names) df (rows_at (key ∷ keys) k (tables.rows target))
                  (rows_at (key ∷ keys) k df.rows) (keyed k) (soft.keyed k)),
        )
