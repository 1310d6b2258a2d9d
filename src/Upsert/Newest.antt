-- ===== src/Upsert/Newest.antt =====
-- adapters/lakehouse.py: what a soft upsert does to the rows of one key.
use azure_lakehouse_pipeline.Prelude.{
  String, List, ◌∷◌, ◌≡◌, All, Bool, if◌then◌else◌, any, [], map, true, not, arith, inl, Bool-cases,
  refl, length, inr, ap, some, ◌≤◌, sym, ◌∙◌, false, ◌++◌,
}
use azure_lakehouse_pipeline.Upsert.{Row, Frame}
use azure_lakehouse_pipeline.Dict.{member}
use azure_lakehouse_pipeline.Upsert.Plan.{
  assign, filter, null_row, merged_rows, merged_row, MergePlan, merged_inserts, merged_targets,
  joins, listed, inserted,
}
use azure_lakehouse_pipeline.Upsert.Soft.{
  IsSequence, soft_options, kept-soft, matched-soft, inserted-soft,
}
use azure_lakehouse_pipeline.Upsert.Newer.{is_newer}
use azure_lakehouse_pipeline.Upsert.Table.{difference, is_nil, merge_plan}
use mathlib.Core.Path.{ap₂}
use azure_lakehouse_pipeline.Upsert.Rows.{
  any-cong, filter-found, filter-append, filter-other, filter-cong, filter-head, any-filter,
}
use azure_lakehouse_pipeline.Upsert.Keys.{
  Agree-same_key, rows_at, same_key, same_key-Agree, holds-join_on, same_key_comm, same_key-via,
}

-- The assigned columns of keys on which the rows agree.
assign-Agree :
    (names keys : List String) (source target : Row)
    → All (λ n. target n ≡ source n) keys
    → All (λ n. assign names source target n ≡ target n) keys
assign-Agree names [] source target h = tt
assign-Agree names (key ∷ keys) source target (first, rest) =
    (ground (arith, first), assign-Agree names keys source target rest)

assign-columns :
    (columns keys : List String) (source : Row)
    → All (λ n. member n columns ≡ true) keys
    → All (λ n. assign columns source null_row n ≡ source n) keys
assign-columns columns [] source h = tt
assign-columns columns (key ∷ keys) source (first, rest) =
    (rw first refl, assign-columns columns keys source rest)

-- The later of a target row and the first source row, and the rows of one key after an upsert.
abbrev pub later : List String → List String → Row → List Row → Row
later sequence names target [] = target
later sequence names target (source ∷ more) =
    if is_newer sequence source target then assign names source target else target

abbrev pub newest : List String → Frame → List Row → List Row → List Row
newest sequence df [] sources = map (λ s. assign df.columns s null_row) sources
newest sequence df (target ∷ targets) sources =
    later sequence (difference df.columns ("created_at" ∷ [])) target sources ∷ targets

module _ (key : String) (keys : List String) (name : String) (names : List String) (df : Frame)
    (good : IsSequence (key ∷ keys) df (name ∷ names))
    (columns : All (λ n. member n df.columns ≡ true) (key ∷ keys)) where
  abbrev all_keys : List String
  all_keys = key ∷ keys

  abbrev plan : MergePlan
  plan = merge_plan (soft_options all_keys (name ∷ names)) df

  abbrev best : Row → List Row → Row
  best = later (name ∷ names) (difference df.columns ("created_at" ∷ []))

  joins-same_key : (t s : Row) → joins plan t s ≡ same_key all_keys t s
  unfolding merge_plan
  joins-same_key t s = holds-join_on t s key keys

  merged_row-best :
      (t : Row) (sources : List Row) → merged_row plan t sources ≡ some (best t sources)
  unfolding merged_row
  merged_row-best t [] = rw (kept-soft all_keys name names df) refl
  merged_row-best t (s ∷ sources) = matched-soft key keys name names df good t s ∙ ground arith

  same_key-pick :
      (t s k : Row) (b : Bool)
      → same_key all_keys t s ≡ true
      → same_key all_keys
          (if b then assign (difference df.columns ("created_at" ∷ [])) s t else t)
          k
        ≡ same_key all_keys t k
  same_key-pick t s k false h = refl
  same_key-pick t s k true h =
      Agree-same_key all_keys (assign (difference df.columns ("created_at" ∷ [])) s t) t k (
        assign-Agree (difference df.columns ("created_at" ∷ [])) all_keys s t
          (same_key-Agree all_keys t s h))

  same_key-later :
      (t k : Row) (sources : List Row)
      → ((s : Row) (more : List Row) → sources ≡ s ∷ more → same_key all_keys t s ≡ true)
      → same_key all_keys (best t sources) k ≡ same_key all_keys t k
  same_key-later t k [] h = refl
  same_key-later t k (s ∷ more) h =
      same_key-pick t s k (is_newer (name ∷ names) s t) (h s more refl)

  same_key-best :
      (t k : Row) (sources : List Row)
      → same_key all_keys (best t (filter (λ s. same_key all_keys t s) sources)) k
        ≡ same_key all_keys t k
  same_key-best t k sources =
      same_key-later t k (filter (λ s. same_key all_keys t s) sources)
        (λ s more e. filter-head (λ x. same_key all_keys t x) sources e)

  merged_row-joins :
      (t : Row) (sources : List Row)
      → merged_row plan t (filter (joins plan t) sources)
        ≡ some (best t (filter (λ s. same_key all_keys t s) sources))
  merged_row-joins t sources =
      ap (merged_row plan t)
        (filter-cong (joins plan t) (λ s. same_key all_keys t s) sources (joins-same_key t))
      ∙ merged_row-best t (filter (λ s. same_key all_keys t s) sources)

  -- At most one target row: the later of it and its source row, or the inserted rows.
  newest_of :
      (targets sources : List Row)
      → length targets ≤ 1
      → map (λ t. best t sources) targets
          ++ (if is_nil targets then map (λ s. assign df.columns s null_row) sources else [])
        ≡ newest (name ∷ names) df targets sources
  newest_of [] sources h = refl
  newest_of (t ∷ []) sources h = refl
  newest_of (t ∷ u ∷ targets) sources h = absurd (omega (arith, h))

  module _ (k : Row) where
    abbrev at_k : List Row → List Row
    at_k = rows_at all_keys k

    abbrev is_at : Row → Bool
    is_at r = same_key all_keys r k

    -- The source rows of a target row of this key are those of the key.
    filter-same_key :
        (t : Row) (sources : List Row)
        → is_at t ≡ true
        → filter (λ s. same_key all_keys t s) sources ≡ at_k sources
    filter-same_key t sources h =
        filter-cong (λ s. same_key all_keys t s) is_at sources (λ s. same_key-via all_keys t s k h)

    rows_at-target :
        (t : Row) (targets sources : List Row)
        → at_k (merged_targets plan (t ∷ targets) sources)
          ≡ at_k (
              best t (filter (λ s. same_key all_keys t s) sources)
              ∷ merged_targets plan targets sources)
    unfolding merged_targets
    rows_at-target t targets sources =
        ap (λ r. at_k (listed r ++ merged_targets plan targets sources))
          (merged_row-joins t sources)

    rows_at-targets :
        (targets sources : List Row)
        → at_k (merged_targets plan targets sources)
          ≡ map (λ t. best t (at_k sources)) (at_k targets)
    unfolding merged_targets
    rows_at-targets [] sources = refl
    rows_at-targets (t ∷ targets) sources =
        let found = best t (filter (λ s. same_key all_keys t s) sources) in
        rows_at-target t targets sources ∙ elim (Bool-cases (is_at t)) [
          | inl here ↦
              filter-found is_at found (merged_targets plan targets sources)
                (same_key-best t k sources ∙ here)
              ∙ ap₂ (λ r rs. r ∷ rs) (ap (best t) (filter-same_key t sources here))
                  (rows_at-targets targets sources)
              ∙ sym (ap (map (λ u. best u (at_k sources))) (filter-found is_at t targets here))
          | inr away ↦
              filter-other is_at found (merged_targets plan targets sources)
                (same_key-best t k sources ∙ away)
              ∙ rows_at-targets targets sources
              ∙ sym (ap (map (λ u. best u (at_k sources))) (filter-other is_at t targets away))
        ]

    abbrev insert_row : Row → Row
    insert_row s = assign df.columns s null_row

    is_at-insert_row : (s : Row) → is_at (insert_row s) ≡ is_at s
    is_at-insert_row s =
        Agree-same_key all_keys (insert_row s) s k (assign-columns df.columns all_keys s columns)

    any-joins :
        (s : Row) (targets : List Row)
        → is_at s ≡ true
        → any (λ t. joins plan t s) targets ≡ not (is_nil (at_k targets))
    any-joins s targets h =
        any-cong (λ t. joins plan t s) is_at targets
          (λ t. joins-same_key t s ∙ same_key_comm all_keys t s ∙ same_key-via all_keys s t k h)
        ∙ any-filter is_at targets

    abbrev insert_step : Row → List Row → Bool → List Row
    insert_step s rest is_matched =
        if is_matched then rest else listed (inserted plan.clauses s) ++ rest

    insert_away :
        (s : Row) (rest : List Row) (is_matched : Bool)
        → is_at s ≡ false
        → at_k (insert_step s rest is_matched) ≡ at_k rest
    insert_away s rest true h = refl
    insert_away s rest false h =
        ap (λ r. at_k (listed r ++ rest)) (inserted-soft all_keys name names df s)
        ∙ filter-other is_at (insert_row s) rest (is_at-insert_row s ∙ h)

    insert_here :
        (s : Row) (rest : List Row) (is_matched none_there : Bool) (inserts : List Row)
        → is_at s ≡ true
        → is_matched ≡ not none_there
        → at_k rest ≡ (if none_there then inserts else [])
        → at_k (insert_step s rest is_matched) ≡ (if none_there then insert_row s ∷ inserts else [])
    insert_here s rest true true inserts h m e = cc
    insert_here s rest true false inserts h m e = e
    insert_here s rest false false inserts h m e = cc
    insert_here s rest false true inserts h m e =
        ap (λ r. at_k (listed r ++ rest)) (inserted-soft all_keys name names df s)
        ∙ filter-found is_at (insert_row s) rest (is_at-insert_row s ∙ h)
        ∙ ap (λ l. insert_row s ∷ l) e

    rows_at-inserts :
        (targets sources : List Row)
        → at_k (merged_inserts plan targets sources)
          ≡ (if is_nil (at_k targets) then map insert_row (at_k sources) else [])
    unfolding merged_inserts
    rows_at-inserts targets [] = ground arith
    rows_at-inserts targets (s ∷ sources) =
        let rest = merged_inserts plan targets sources in
        let matched_s = any (λ t. joins plan t s) targets in
        elim (Bool-cases (is_at s)) [
          | inl here ↦
              insert_here s rest matched_s (is_nil (at_k targets)) (map insert_row (at_k sources))
                here (any-joins s targets here) (rows_at-inserts targets sources)
              ∙ sym (
                  ap (λ l. if is_nil (at_k targets) then map insert_row l else [])
                    (filter-found is_at s sources here))
          | inr away ↦
              insert_away s rest matched_s away
              ∙ rows_at-inserts targets sources
              ∙ sym (
                  ap (λ l. if is_nil (at_k targets) then map insert_row l else [])
                    (filter-other is_at s sources away))
        ]

    pub rows_at-merged_rows :
        (targets sources : List Row)
        → length (at_k targets) ≤ 1
        → at_k (merged_rows plan targets sources)
          ≡ newest (name ∷ names) df (at_k targets) (at_k sources)
    unfolding merged_rows
    rows_at-merged_rows targets sources h =
        filter-append is_at (merged_targets plan targets sources)
          (merged_inserts plan targets sources)
        ∙ ap₂ ◌++◌ (rows_at-targets targets sources) (rows_at-inserts targets sources)
        ∙ newest_of (at_k targets) (at_k sources) h
