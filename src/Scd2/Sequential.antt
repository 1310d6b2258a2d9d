-- ===== src/Scd2/Sequential.antt =====
-- transformations/gold/scd2.py: the rows that the windows select against one pass over the events.
use azure_lakehouse_pipeline.Scd2.{
  DimensionOptions, versioned, is_delete, DimensionRow, attribute_hash, operation,
}
use azure_lakehouse_pipeline.Prelude.{
  ℕ, Option, ◌≡◌, List, false, some, [], All, ◌<◌, none, true, ap, ◌∷◌, refl, suc, inl, ◌∙◌, sym,
  inr, arith, Bool-cases, not,
}
use azure_lakehouse_pipeline.Upsert.{Row, Cell, null_safe_eq, Scalar}
use azure_lakehouse_pipeline.Dict.{member}
use azure_lakehouse_pipeline.Scd2.Steps.{
  IsEvent, IsClosed, IsOpen, IsEvent-cases, type2_start-closed, type2_start-open,
}
use azure_lakehouse_pipeline.Scd2.Replay.{sequential, row_of, refresh}
use azure_lakehouse_pipeline.Scd2.Local.{local_rows, local_rows-other, local_rows-start}
use azure_lakehouse_pipeline.Scd2.Windowed.{
  windowed, refreshed-above, continued, started, deleted_here, continued_here, changed_here,
}
use azure_lakehouse_pipeline.Scd2.Numbers.{
  as_number, versioned-deleted, versioned-started, above_dropped, not_typed, versioned-closed,
  versioned-continued, above_started,
}
use azure_lakehouse_pipeline.Upsert.Order.{null_safe_eq_sound}

module _ (options : DimensionOptions) where
  open options use {type1_columns}

  module _ (n : ℕ) (e : Row) (es : List Row) where
    sequential-skip :
        is_delete e ≡ some true → sequential options none n (e ∷ es) ≡ sequential options none n es
    unfolding sequential
    sequential-skip h = rw h refl

    sequential-first :
        is_delete e ≡ some false
        → sequential options none n (e ∷ es) ≡ sequential options (some e) (suc n) es
    unfolding sequential
    sequential-first h = rw h refl

    sequential-delete :
        (r : Row)
        → is_delete e ≡ some true
        → sequential options (some r) n (e ∷ es)
          ≡ row_of options (some n) r (some e) ∷ sequential options none n es
    unfolding sequential
    sequential-delete r h = rw h refl

    sequential-same :
        (r : Row)
        → is_delete e ≡ some false
        → null_safe_eq (attribute_hash e) (attribute_hash r) ≡ true
        → sequential options (some r) n (e ∷ es)
          ≡ sequential options (some (refresh options e r)) n es
    unfolding sequential
    sequential-same r h same = rw (h, same) refl

    sequential-change :
        (r : Row)
        → is_delete e ≡ some false
        → null_safe_eq (attribute_hash e) (attribute_hash r) ≡ false
        → sequential options (some r) n (e ∷ es)
          ≡ row_of options (some n) r (some e) ∷ sequential options (some e) (suc n) es
    unfolding sequential
    sequential-change r h other = rw (h, other) refl

  abbrev IsState : Option Row → ℕ → Cell → Cell → Type 0
  IsState none n previous_hash previous_operation = IsClosed previous_hash previous_operation
  IsState (some r) n previous_hash previous_operation =
      (0 < n) × IsOpen r previous_hash previous_operation

  abbrev rows_from : Option Row → Cell → Cell → Option ℕ → List Row → List DimensionRow
  rows_from version previous_hash previous_operation number es =
      windowed options version (as_number number)
        (versioned previous_hash previous_operation number es)

  opened :
      (e : Row) → IsEvent e → is_delete e ≡ some false → IsOpen e (attribute_hash e) (operation e)
  opened e valid kept = record { open_hash = refl; some_hash = valid.has_hash; not_deleted = kept }

  nil-closed :
      (ph po : Cell) (number : Option ℕ)
      → local_rows options (versioned ph po number [])
        ≡ sequential options none (as_number number) []
  unfolding versioned sequential local_rows
  nil-closed ph po number = refl

  nil-open :
      (r : Row) (ph po : Cell) (number : Option ℕ)
      → rows_from (some r) ph po number [] ≡ sequential options (some r) (as_number number) []
  unfolding versioned sequential local_rows
  nil-open r ph po number =
      ap (λ x. row_of options (some (as_number number)) x none ∷ [])
        (refreshed-above options (as_number number) r [] tt)

  refresh-IsOpen :
      (r e : Row)
      → member "attribute_hash" type1_columns ≡ false
      → IsEvent e
      → is_delete e ≡ some false
      → null_safe_eq (attribute_hash e) (attribute_hash r) ≡ true
      → (h : Scalar) × (attribute_hash r ≡ some h)
      → IsOpen (refresh options e r) (attribute_hash e) (operation e)
  refresh-IsOpen r e type2 valid kept same (h, is_h) =
      let hash : attribute_hash (refresh options e r) ≡ attribute_hash r = rw type2 refl in
      record {
        open_hash = null_safe_eq_sound (attribute_hash e) (attribute_hash r) same ∙ sym hash;
        some_hash = (h, hash ∙ is_h);
        not_deleted = kept;
      }

  pub windowed_sequential :
      member "attribute_hash" type1_columns ≡ false
      → (version : Option Row) (previous_hash previous_operation : Cell) (number : Option ℕ)
        (es : List Row)
      → All IsEvent es
      → IsState version (as_number number) previous_hash previous_operation
      → rows_from version previous_hash previous_operation number es
        ≡ sequential options version (as_number number) es
  windowed_sequential type2 none ph po number [] valid state = nil-closed ph po number
  windowed_sequential type2 (some r) ph po number [] valid state = nil-open r ph po number
  windowed_sequential type2 none ph po number (e ∷ es) (first, valid) state =
      let n = as_number number in
      elim (IsEvent-cases e first) [
        | inl deleted ↦
            ap (local_rows options) (versioned-deleted ph po number e es deleted)
            ∙ local_rows-other options (continued options n e)
                (versioned ph (operation e) (some n) es) refl
            ∙ windowed_sequential type2 none ph (operation e) (some n) es valid (inr deleted)
            ∙ sym (sequential-skip n e es deleted)
        | inr kept ↦
            ap (local_rows options) (
              versioned-started ph po number e es first kept
                (type2_start-closed ph po e state kept))
            ∙ local_rows-start options (started options n e)
                (versioned (attribute_hash e) (operation e) (some (suc n)) es) refl
            ∙ windowed_sequential type2 (some e) (attribute_hash e) (operation e) (some (suc n)) es
                valid (omega arith, opened e first kept)
            ∙ sym (sequential-first n e es kept)
      ]
  windowed_sequential type2 (some r) ph po number (e ∷ es) (first, valid) (positive, state) =
      let n = as_number number in
      elim (IsEvent-cases e first) [
        | inl deleted ↦
            ap (windowed options (some r) n) (versioned-deleted ph po number e es deleted)
            ∙ deleted_here options r n e (versioned ph (operation e) (some n) es) deleted (
                above_dropped n (continued options n e) (versioned ph (operation e) (some n) es)
                  (not_typed e (some false) (some n) deleted)
                  (versioned-closed ph (operation e) (some n) es valid (inr deleted)))
            ∙ ap (λ rows. row_of options (some n) r (some e) ∷ rows)
                (windowed_sequential type2 none ph (operation e) (some n) es valid (inr deleted))
            ∙ sym (sequential-delete n e es r deleted)
        | inr kept ↦ elim (Bool-cases (null_safe_eq (attribute_hash e) (attribute_hash r))) [
          | inl same ↦
              ap (windowed options (some r) n) (
                versioned-continued ph po number e es first kept
                  (type2_start-open ph po e r state kept ∙ ap (λ b. some (not b)) same))
              ∙ continued_here options r n e
                  (versioned (attribute_hash e) (operation e) (some n) es) kept positive
              ∙ windowed_sequential type2 (some (refresh options e r)) (attribute_hash e)
                  (operation e) (some n) es valid
                  (positive, refresh-IsOpen r e type2 first kept same state.some_hash)
              ∙ sym (sequential-same n e es r kept same)
          | inr changed ↦
              ap (windowed options (some r) n) (
                versioned-started ph po number e es first kept
                  (type2_start-open ph po e r state kept ∙ ap (λ b. some (not b)) changed))
              ∙ changed_here options r n e
                  (versioned (attribute_hash e) (operation e) (some (suc n)) es)
                  (above_started n e es)
              ∙ ap (λ rows. row_of options (some n) r (some e) ∷ rows)
                  (windowed_sequential type2 (some e) (attribute_hash e) (operation e)
                    (some (suc n)) es valid (omega arith, opened e first kept))
              ∙ sym (sequential-change n e es r kept changed)
        ]
      ]
