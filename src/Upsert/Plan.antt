-- ===== src/Upsert/Plan.antt =====
-- adapters/lakehouse.py: the MERGE that `upsert_table` builds, the Delta tables it runs on, and the
-- operation itself with its checks.
use azure_lakehouse_pipeline.Prelude.{
  List, Option, String, ◌∷◌, Bool, if◌then◌else◌, some, ◌++◌, [], All, ℕ, none, false, true, any,
  length, leb, ◌≤◌, ◌≡◌,
}
use azure_lakehouse_pipeline.Upsert.{eval, Condition, Row, holds, Frame}
use azure_lakehouse_pipeline.Delta.{Commit}
use azure_lakehouse_pipeline.Dict.{member}
use azure_lakehouse_pipeline.Result.{Result, ok}
use azure_lakehouse_pipeline.Delta.Log.{next_version}

-- The clauses of a MERGE, in the order in which they were added. A set of updates is the names of the
-- columns that take the value of the source.
pub data Clause : Type 0 where
  when_matched_delete : Condition → Clause
  when_matched_update : Condition → List String → Clause
  when_not_matched_insert : Option Condition → List String → Clause
  when_not_matched_by_source_delete : Clause

pub record MergePlan : Type 0 where
  pub join_condition : Condition
  pub clauses : List Clause

-- What a MERGE documents: the first clause whose condition is true decides.
abbrev pub null_row : Row
null_row name = none

abbrev pub assign : List String → Row → Row → Row
assign names source target = λ name. if member name names then source name else target name

unfoldable pub matched : List Clause → Row → Row → Option Row
unfolding eval
matched [] target source = some target
matched (when_matched_delete p ∷ clauses) target source =
    let rest = matched clauses target source in if holds target source p then none else rest
matched (when_matched_update p names ∷ clauses) target source =
    let rest = matched clauses target source in
    if holds target source p then some (assign names source target) else rest
matched (_ ∷ clauses) target source = matched clauses target source

abbrev pub holds_or_none : Option Condition → Row → Row → Bool
holds_or_none none target source = true
holds_or_none (some p) target source = holds target source p

unfoldable pub inserted : List Clause → Row → Option Row
unfolding eval
inserted [] source = none
inserted (when_not_matched_insert p names ∷ clauses) source =
    let rest = inserted clauses source in
    if holds_or_none p null_row source then some (assign names source null_row) else rest
inserted (_ ∷ clauses) source = inserted clauses source

unfoldable pub kept_without_source : List Clause → Bool
kept_without_source [] = true
kept_without_source (when_not_matched_by_source_delete ∷ clauses) = false
kept_without_source (_ ∷ clauses) = kept_without_source clauses

abbrev pub filter : (Row → Bool) → List Row → List Row
filter p [] = []
filter p (r ∷ rs) = let rest = filter p rs in if p r then r ∷ rest else rest

abbrev pub listed : Option Row → List Row
listed none = []
listed (some r) = r ∷ []

module _ (plan : MergePlan) where
  abbrev pub joins : Row → Row → Bool
  joins target source = holds target source plan.join_condition

  -- A target row with the source rows that it matches.
  unfoldable pub merged_row : Row → List Row → Option Row
  unfolding matched kept_without_source
  merged_row target [] = if kept_without_source plan.clauses then some target else none
  merged_row target (source ∷ more) = matched plan.clauses target source

  unfoldable pub merged_targets : List Row → List Row → List Row
  unfolding merged_row eval
  merged_targets [] sources = []
  merged_targets (t ∷ targets) sources =
      listed (merged_row t (filter (joins t) sources)) ++ merged_targets targets sources

  unfoldable pub merged_inserts : List Row → List Row → List Row
  unfolding inserted eval
  merged_inserts targets [] = []
  merged_inserts targets (s ∷ sources) =
      let rest = merged_inserts targets sources in
      if any (λ t. joins t s) targets then rest else listed (inserted plan.clauses s) ++ rest

  unfoldable pub merged_rows : List Row → List Row → List Row
  unfolding merged_targets merged_inserts
  merged_rows targets sources = merged_targets targets sources ++ merged_inserts targets sources

  -- No target row matches two source rows, which a MERGE refuses.
  abbrev pub IsUnambiguous : List Row → List Row → Type 0
  IsUnambiguous targets sources = All (λ t. length (filter (joins t) sources) ≤ 1) targets

-- The list of a table that may be missing, and the transaction version it has stored.
abbrev pub past {ℓ} : {A : Type 0} {B : Type ℓ} → (A → List B) → Option A → List B
past f none = []
past f (some t) = f t

abbrev pub stored_by : {A : Type 0} → (A → String → Option ℕ) → String → Option A → Option ℕ
stored_by f app none = none
stored_by f app (some t) = f t app

abbrev pub is_stored : Option ℕ → ℕ → Bool
is_stored none n = false
is_stored (some v) n = leb n v

-- What the adapter relies on of Delta tables: a table has columns, rows in no particular order, and a
-- history that every write extends by one commit. A row that only one row of the result could be is
-- found in it. An append under a transaction of an application is ignored where the table has stored
-- one of this or a later version.
pub record DeltaTables (Text : Type 0) : Type 1 where
  pub Table : Type 0
  pub columns : Table → List String
  pub rows : Table → List Row
  pub history : Table → List (Commit Text)
  pub transaction : Table → String → Option ℕ
  pub overwrite : Text → Frame → Option Table → Table
  pub append : String → ℕ → Text → Frame → Option Table → Table
  pub merge : Text → MergePlan → Frame → Table → Result Table
  pub columns-overwrite :
      (m : Text) (f : Frame) (t : Option Table) → columns (overwrite m f t) ≡ f.columns
  pub rows-overwrite : (m : Text) (f : Frame) (t : Option Table) → rows (overwrite m f t) ≡ f.rows
  pub history-overwrite :
      (m : Text) (f : Frame) (t : Option Table)
      → history (overwrite m f t)
        ≡ record { version = next_version (past history t); user_metadata = some m }
          ∷ past history t
  pub append-old :
      (app : String) (n : ℕ) (m : Text) (f : Frame) (t : Table)
      → is_stored (transaction t app) n ≡ true
      → append app n m f (some t) ≡ t
  pub rows-append :
      (app : String) (n : ℕ) (m : Text) (f : Frame) (t : Option Table)
      → is_stored (stored_by transaction app t) n ≡ false
      → rows (append app n m f t) ≡ past rows t ++ f.rows
  pub transaction-append :
      (app : String) (n : ℕ) (m : Text) (f : Frame) (t : Option Table)
      → is_stored (stored_by transaction app t) n ≡ false
      → transaction (append app n m f t) app ≡ some n
  pub merge-ok :
      (m : Text) (plan : MergePlan) (f : Frame) (t : Table)
      → IsUnambiguous plan (rows t) f.rows
      → (t' : Table) × (merge m plan f t ≡ ok t')
  pub merge-history :
      (m : Text) (plan : MergePlan) (f : Frame) (t t' : Table)
      → merge m plan f t ≡ ok t'
      → history t'
        ≡ record { version = next_version (history t); user_metadata = some m } ∷ history t
  pub merge-columns :
      (m : Text) (plan : MergePlan) (f : Frame) (t t' : Table)
      → merge m plan f t ≡ ok t'
      → columns t' ≡ columns t
  pub merge-rows :
      (m : Text) (plan : MergePlan) (f : Frame) (t t' : Table)
      → merge m plan f t ≡ ok t'
      → (p : Row → Bool) → length (filter p (merged_rows plan (rows t) f.rows)) ≤ 1
      → filter p (rows t') ≡ filter p (merged_rows plan (rows t) f.rows)
