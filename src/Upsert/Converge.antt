-- ===== src/Upsert/Converge.antt =====
-- adapters/lakehouse.py: soft upserts of two frames into one table, in either order.
use azure_lakehouse_pipeline.Upsert.Plan.{DeltaTables}
use azure_lakehouse_pipeline.Prelude.{
  String, List, ◌∷◌, ◌≡◌, All, true, Bool, Option, sym, All-map, some, arith, [], ◌++◌,
}
use azure_lakehouse_pipeline.Upsert.{Row, Frame}
use azure_lakehouse_pipeline.Dict.{same_set, member}
use azure_lakehouse_pipeline.Upsert.Soft.{IsSequence, soft_options}
use azure_lakehouse_pipeline.Result.{Result, ok}
use azure_lakehouse_pipeline.Upsert.Current.{IsSoftFrame, IsUpserted, upsert_table-newest}
use azure_lakehouse_pipeline.Upsert.Agree.{
  AreComparable, updated, AllAgree-trans, newest-choose, All-filter, AllAgree-refl, AllAgree-sym,
}
use mathlib.Core.Path.{subst}
use azure_lakehouse_pipeline.Upsert.Keys.{IsKeyed, rows_at, same_key}
use azure_lakehouse_pipeline.Upsert.Table.{upsert_table}
use azure_lakehouse_pipeline.Upsert.Order.{IsNumeric}
use azure_lakehouse_pipeline.Upsert.Later.{AllAgree, choose, choose_converge}
use azure_lakehouse_pipeline.Upsert.Names.{member-difference, member-append}

module _ {Text : Type 0} (tables : DeltaTables Text) (key : String) (keys : List String)
    (name : String) (names columns : List String) where
  open tables use {Table}

  abbrev frame : List Row → Frame
  frame rows = record { columns = columns; rows = rows }

  abbrev all_keys : List String
  all_keys = key ∷ keys

  abbrev sequence : List String
  sequence = name ∷ names

  abbrev upsert : List Row → Text → Table → Result (Bool × Option Table)
  upsert rows meta target =
      upsert_table (soft_options all_keys sequence) (frame rows) tables meta (some target)

  -- The rows of a key after two upserts agree with the later of the rows of the key.
  twice-choose :
      (k : Row) (first second : List Row) (target middle target' : Table)
      → All (λ n. member n (updated columns) ≡ true) sequence
      → IsUpserted tables all_keys sequence (frame first) target middle
      → IsUpserted tables all_keys sequence (frame second) middle target'
      → AllAgree (updated columns) (rows_at all_keys k (tables.rows target')) (
          choose sequence
            (choose sequence (rows_at all_keys k (tables.rows target)) (rows_at all_keys k first))
            (rows_at all_keys k second))
  twice-choose k first second target middle target' inside h h' =
      let once =
        newest-choose sequence columns inside first (rows_at all_keys k (tables.rows target))
          (rows_at all_keys k (tables.rows target)) (rows_at all_keys k first)
          (AllAgree-refl (updated columns) (rows_at all_keys k (tables.rows target))) in
      subst
        (λ rs. AllAgree (updated columns) rs (
          choose sequence
            (choose sequence (rows_at all_keys k (tables.rows target)) (rows_at all_keys k first))
            (rows_at all_keys k second)))
        (sym (h' k))
        (newest-choose sequence columns inside second (rows_at all_keys k (tables.rows middle))
          (choose sequence (rows_at all_keys k (tables.rows target)) (rows_at all_keys k first))
          (rows_at all_keys k second)
          (subst
            (λ rs. AllAgree (updated columns) rs (
              choose sequence (rows_at all_keys k (tables.rows target)) (rows_at all_keys k first)))
            (sym (h k)) once))

  step :
      (meta : Text) (rows : List Row)
      → IsSoftFrame all_keys sequence (frame rows)
      → (target : Table) → same_set columns (tables.columns target) ≡ true
      → IsKeyed all_keys (tables.rows target)
      → (target' : Table) × (upsert rows meta target ≡ ok (true, some target'))
        × (tables.columns target' ≡ tables.columns target)
        × IsUpserted tables all_keys sequence (frame rows) target target'
        × IsKeyed all_keys (tables.rows target')
  step meta rows f target columns_of keyed =
      upsert_table-newest tables meta key keys name names (frame rows) f target columns_of keyed

  same_columns :
      (target target' : Table)
      → tables.columns target' ≡ tables.columns target
      → same_set columns (tables.columns target) ≡ true
      → same_set columns (tables.columns target') ≡ true
  same_columns target target' e h = subst (λ cs. same_set columns cs ≡ true) (sym e) h

  -- A sequence column is one that an update assigns.
  sequence-updated :
      (rows : List Row)
      → IsSequence all_keys (frame rows) sequence
      → All (λ n. member n (updated columns) ≡ true) sequence
  sequence-updated rows h =
      All-map
        (λ n compared_n. ground (
          arith,
          compared_n,
          member-difference n columns ("created_at" ∷ []),
          member-difference n columns (all_keys ++ "created_at" ∷ "_silver_updated_at" ∷ []),
          member-append n all_keys ("created_at" ∷ "_silver_updated_at" ∷ []),
        ))
        sequence h

  converge_at :
      (k : Row) (first second : List Row) (target : Table)
      → IsSoftFrame all_keys sequence (frame first)
      → IsSoftFrame all_keys sequence (frame second)
      → AreComparable all_keys sequence columns first second
      → IsKeyed all_keys (tables.rows target)
      → All (IsNumeric sequence) (tables.rows target)
      → AllAgree
          (updated columns)
          (choose sequence
            (choose sequence (rows_at all_keys k (tables.rows target)) (rows_at all_keys k first))
            (rows_at all_keys k second))
          (choose sequence
            (choose sequence (rows_at all_keys k (tables.rows target)) (rows_at all_keys k second))
            (rows_at all_keys k first))
  converge_at k first second target f s both keyed numeric =
      choose_converge sequence (updated columns) (rows_at all_keys k (tables.rows target))
        (rows_at all_keys k first) (rows_at all_keys k second) (keyed k) (f.keyed k) (s.keyed k)
        (All-filter (IsNumeric sequence) (λ r. same_key all_keys r k) (tables.rows target) numeric)
        (All-filter (IsNumeric sequence) (λ r. same_key all_keys r k) first both.first_numeric)
        (All-filter (IsNumeric sequence) (λ r. same_key all_keys r k) second both.second_numeric)
        (both.consistent k)

  agree_at :
      (k : Row) (first second : List Row) (target t1 t12 t2 t21 : Table)
      → All (λ n. member n (updated columns) ≡ true) sequence
      → IsUpserted tables all_keys sequence (frame first) target t1
      → IsUpserted tables all_keys sequence (frame second) t1 t12
      → IsUpserted tables all_keys sequence (frame second) target t2
      → IsUpserted tables all_keys sequence (frame first) t2 t21
      → AllAgree
          (updated columns)
          (choose sequence
            (choose sequence (rows_at all_keys k (tables.rows target)) (rows_at all_keys k first))
            (rows_at all_keys k second))
          (choose sequence
            (choose sequence (rows_at all_keys k (tables.rows target)) (rows_at all_keys k second))
            (rows_at all_keys k first))
      → AllAgree
          (updated columns)
          (rows_at all_keys k (tables.rows t12))
          (rows_at all_keys k (tables.rows t21))
  agree_at k first second target t1 t12 t2 t21 inside up1 up12 up2 up21 same =
      let one = twice-choose k first second target t1 t12 inside up1 up12 in
      let two = twice-choose k second first target t2 t21 inside up2 up21 in
      AllAgree-trans (updated columns) _ _ _ one
        (AllAgree-trans (updated columns) _ _ _ same (AllAgree-sym (updated columns) _ _ two))

  -- Two frames with the same columns are upserted into a table, as the Silver builder of the batch
  -- upserts: with soft deletes that do not preserve the target. (The change feed of
  -- ingestion/streaming/unified_silver.py preserves it, and is not meant here.) The frames have the
  -- keys, the sequence columns and no key twice; the table has the columns of the frames and no key
  -- twice; the sequence columns hold numbers or NULL; and a row of the one frame and a row of the other
  -- with the same key that the order of the sequences does not tell apart agree in the columns other
  -- than `created_at`. Then both orders of the two upserts succeed, and for every key the rows of the
  -- key in the two final tables agree in the columns other than `created_at`.
  pub upsert_table_converge :
      (meta meta' : Text) (first second : List Row) (target : Table)
      → IsSoftFrame all_keys sequence (frame first)
      → IsSoftFrame all_keys sequence (frame second)
      → AreComparable all_keys sequence columns first second
      → same_set columns (tables.columns target) ≡ true
      → IsKeyed all_keys (tables.rows target)
      → All (IsNumeric sequence) (tables.rows target)
      → (t1 : Table) × (t12 : Table) × (t2 : Table) × (t21 : Table) × (upsert first meta target
          ≡ ok (true, some t1))
        × (upsert second meta' t1 ≡ ok (true, some t12))
        × (upsert second meta' target ≡ ok (true, some t2))
        × (upsert first meta t2 ≡ ok (true, some t21))
        × ((k : Row)
            → AllAgree
                (updated columns)
                (rows_at all_keys k (tables.rows t12))
                (rows_at all_keys k (tables.rows t21)))
  upsert_table_converge meta meta' first second target f s both columns_of keyed numeric =
      let inside = sequence-updated first f.sequence_columns in
      let (t1, u1, c1, up1, k1) = step meta first f target columns_of keyed in
      let (t12, u12, c12, up12, k12) =
        step meta' second s t1 (same_columns target t1 c1 columns_of) k1 in
      let (t2, u2, c2, up2, k2) = step meta' second s target columns_of keyed in
      let (t21, u21, c21, up21, k21) =
        step meta first f t2 (same_columns target t2 c2 columns_of) k2 in
      (
        t1,
        t12,
        t2,
        t21,
        u1,
        u12,
        u2,
        u21,
        λ k.
            agree_at k first second target t1 t12 t2 t21 inside up1 up12 up2 up21
              (converge_at k first second target f s both keyed numeric),
      )
