-- ===== src/Upsert/Soft.antt =====
-- adapters/lakehouse.py: the clauses of `upsert_table` for the soft deletes and the sequence columns of
-- the Silver tables, on one target row and its source row.

use azure_lakehouse_pipeline.Upsert.{
  null_safe_eq, Row, Frame, Condition, eval, all_hold, negated, conjunction, joined,
  lexicographic_newer_condition,
}
use azure_lakehouse_pipeline.Upsert.Newer.{
  is_newer, eval-all_hold, eval-conjunction, lexicographic_newer_condition_lem,
}
use azure_lakehouse_pipeline.Upsert.Table.{
  UpsertOptions, same_cells, compared_names, equality, merge_plan, update_names, if_some,
  merge_clauses, update_clause,
}
use azure_lakehouse_pipeline.Prelude.{
  String, List, Bool, ◌≡◌, false, ◌++◌, All, none, ◌&&◌, true, ◌∷◌, arith, some, not, Bool-cases,
  [], refl, inl, ◌∙◌, inr, map, if◌then◌else◌, Option,
}
use azure_lakehouse_pipeline.Dict.{member}
use azure_lakehouse_pipeline.Upsert.Plan.{
  matched, assign, inserted, null_row, when_not_matched_insert, kept_without_source,
}
use azure_lakehouse_pipeline.Upsert.Names.{all-subset, is_newer-same_cells}

-- The options of `upsert_table` in both of its calls in pipelines/build_silver.py: soft deletes that do
-- not preserve the target.
abbrev pub soft_options : List String → List String → UpsertOptions
soft_options keys sequence = record {
  layer = "silver";
  merge_keys = keys;
  delete_mode = "soft";
  delete_not_matched_by_source = false;
  delete_keys = none;
  sequence_columns = sequence;
  source_is_nonempty = true;
  preserve_target_on_soft_delete = false;
}

-- The frame of a soft upsert has its sequence columns, which are neither keys nor left out of updates.
abbrev pub IsSequence : List String → Frame → List String → Type 0
IsSequence keys df sequence =
    All (λ name. member name (compared_names (soft_options keys sequence) df) ≡ true) sequence

module _ (key : String) (keys : List String) (name : String) (names : List String) (df : Frame)
    (good : IsSequence (key ∷ keys) df (name ∷ names)) (target source : Row) where
  abbrev options : UpsertOptions
  options = soft_options (key ∷ keys) (name ∷ names)

  -- A newer row differs in a compared column.
  differ :
      is_newer (name ∷ names) source target ≡ true
      → same_cells (compared_names options df) target source ≡ false
  differ newer = elim (Bool-cases (same_cells (compared_names options df) target source)) [
    | inr other ↦ other
    | inl same ↦
        let agree =
          all-subset (λ n. null_safe_eq (target n) (source n)) (name ∷ names)
            (compared_names options df) good same in
        let apart = is_newer-same_cells (name ∷ names) target source newer in
        absurd (ground (arith, agree, apart))
  ]

  eval-not :
      (p : Condition) {b : Bool}
      → eval target source p ≡ some b
      → eval target source (negated p) ≡ some (not b)
  unfolding eval
  eval-not p h = rw h refl

  eval-equality :
      (n : String)
      → eval target source (equality options df n) ≡ some (null_safe_eq (target n) (source n))
  unfolding eval
  eval-equality n = refl

  eval-update :
      (c : String) (cs : List String) (newer : Condition)
      → eval target source newer ≡ some (is_newer (name ∷ names) source target)
      → eval target source (
          all_hold newer
            (negated (conjunction (equality options df c) (map (equality options df) cs))))
        ≡ some (is_newer (name ∷ names) source target && not (same_cells (c ∷ cs) target source))
  eval-update c cs newer h =
      let equal = conjunction (equality options df c) (map (equality options df) cs) in
      eval-all_hold target source newer (negated equal) h (
        eval-not equal (
          eval-conjunction target source (equality options df)
            (λ n. null_safe_eq (target n) (source n)) eval-equality (equality options df c) cs
            (eval-equality c)))

  abbrev update : Row
  update = assign (update_names options df) source target

  matched-update :
      (cs : List String) (newer : Condition)
      → eval target source newer ≡ some (is_newer (name ∷ names) source target)
      → matched
          (if_some
              (joined conjunction (map (equality options df) cs))
              (update_clause options df (some newer))
            ++ when_not_matched_insert none df.columns ∷ [])
          target
          source
        ≡ (if is_newer (name ∷ names) source target && not (same_cells cs target source)
            then some update
            else some target)
  unfolding matched
  matched-update [] newer h = ground arith
  matched-update (c ∷ cs) newer h = rw (eval-update c cs newer h) refl

  pick :
      (if is_newer (name ∷ names) source target
          && not (same_cells (compared_names options df) target source)
        then some update
        else some target)
      ≡ (if is_newer (name ∷ names) source target then some update else some target)
  pick = elim (Bool-cases (is_newer (name ∷ names) source target)) [
    | inl later ↦ rw (later, differ later) refl
    | inr other ↦ rw other refl
  ]

  -- The source row replaces the target row where it is newer, and only then.
  pub matched-soft :
      matched (merge_plan options df).clauses target source
      ≡ (if is_newer (name ∷ names) source target then some update else some target)
  unfolding merge_plan merge_clauses
  matched-soft =
      let (p, e, newer) = lexicographic_newer_condition_lem target source name names in
      rw e (matched-update (compared_names options df) p newer ∙ pick)

module _ (keys : List String) (name : String) (names : List String) (df : Frame) where
  abbrev soft : UpsertOptions
  soft = soft_options keys (name ∷ names)

  inserted-update :
      (cs : List String) (newer : Option Condition) (source : Row)
      → inserted
          (if_some (joined conjunction (map (equality soft df) cs)) (update_clause soft df newer)
            ++ when_not_matched_insert none df.columns ∷ [])
          source
        ≡ some (assign df.columns source null_row)
  unfolding inserted
  inserted-update [] newer source = refl
  inserted-update (c ∷ cs) newer source = refl

  -- A source row without a target row is inserted.
  pub inserted-soft :
      (source : Row)
      → inserted (merge_plan soft df).clauses source ≡ some (assign df.columns source null_row)
  unfolding merge_plan merge_clauses
  inserted-soft source =
      inserted-update (compared_names soft df) (lexicographic_newer_condition (name ∷ names)) source

  kept-update :
      (cs : List String) (newer : Option Condition)
      → kept_without_source (
          if_some (joined conjunction (map (equality soft df) cs)) (update_clause soft df newer)
          ++ when_not_matched_insert none df.columns ∷ [])
        ≡ true
  unfolding kept_without_source
  kept-update [] newer = refl
  kept-update (c ∷ cs) newer = refl

  -- A target row without a source row is kept.
  pub kept-soft : kept_without_source (merge_plan soft df).clauses ≡ true
  unfolding merge_plan merge_clauses
  kept-soft = kept-update (compared_names soft df) (lexicographic_newer_condition (name ∷ names))
