-- ===== src/Upsert/Values.antt =====
-- Delta tables as the lists of their columns, rows and commits, for the runs at concrete inputs.
use azure_lakehouse_pipeline.Upsert.Plan.{
  MergePlan, DeltaTables, merged_rows, stored_by, past, is_stored, filter,
}
use azure_lakehouse_pipeline.Prelude.{
  String, Option, List, ℕ, ap, some, ◌∙◌, ◌++◌, ◌∷◌, ◌≡◌, if◌then◌else◌, str_eq, eq_refl, true,
  false, none, sym, refl,
}
use azure_lakehouse_pipeline.Upsert.{Frame, Row}
use azure_lakehouse_pipeline.Delta.{Commit}
use azure_lakehouse_pipeline.Result.{ok, ok-injective}
use azure_lakehouse_pipeline.Delta.Log.{next_version}

pub record StoredTable (Text : Type 0) : Type 0 where
  pub stored_columns : List String
  pub stored_rows : List Row
  pub stored_history : List (Commit Text)
  pub stored_transaction : String → Option ℕ

module _ (Text : Type 0) where
  abbrev Stored : Type 0
  Stored = StoredTable Text

  abbrev history_of : Option Stored → List (Commit Text)
  history_of = past (λ (t : Stored). t.stored_history)

  abbrev transaction_of : Option Stored → String → Option ℕ
  transaction_of t app = stored_by (λ (x : Stored). x.stored_transaction) app t

  abbrev with_commit : Text → Option Stored → List (Commit Text)
  with_commit meta t =
      record { version = next_version (history_of t); user_metadata = some meta } ∷ history_of t

  abbrev overwrite_stored : Text → Frame → Option Stored → Stored
  overwrite_stored meta df t = record {
    stored_columns = df.columns;
    stored_rows = df.rows;
    stored_history = with_commit meta t;
    stored_transaction = transaction_of t;
  }

  abbrev appended_stored : String → ℕ → Text → Frame → Option Stored → Stored
  appended_stored app n meta df t = record {
    stored_columns = df.columns;
    stored_rows = past (λ (x : Stored). x.stored_rows) t ++ df.rows;
    stored_history = with_commit meta t;
    stored_transaction = λ other. if str_eq other app then some n else transaction_of t other;
  }

  abbrev append_stored : String → ℕ → Text → Frame → Option Stored → Stored
  append_stored app n meta df none = appended_stored app n meta df none
  append_stored app n meta df (some t) =
      if is_stored (t.stored_transaction app) n then t else appended_stored app n meta df (some t)

  pub append_stored-new :
      (app : String) (n : ℕ) (meta : Text) (df : Frame) (t : Option Stored)
      → is_stored (transaction_of t app) n ≡ false
      → append_stored app n meta df t ≡ appended_stored app n meta df t
  append_stored-new app n meta df none h = refl
  append_stored-new app n meta df (some t) h = rw h refl

  pub append_stored-old :
      (app : String) (n : ℕ) (meta : Text) (df : Frame) (t : Stored)
      → is_stored (t.stored_transaction app) n ≡ true
      → append_stored app n meta df (some t) ≡ t
  append_stored-old app n meta df t h = rw h refl

  abbrev merge_stored : Text → MergePlan → Frame → Stored → Stored
  merge_stored meta plan df t = record {
    stored_columns = t.stored_columns;
    stored_rows = merged_rows plan t.stored_rows df.rows;
    stored_history = with_commit meta (some t);
    stored_transaction = t.stored_transaction;
  }

  abbrev pub value_tables : DeltaTables Text
  value_tables = record {
    Table = Stored;
    columns = λ t. t.stored_columns;
    rows = λ t. t.stored_rows;
    history = λ t. t.stored_history;
    transaction = λ t. t.stored_transaction;
    overwrite = overwrite_stored;
    append = append_stored;
    merge = λ meta plan df t. ok (merge_stored meta plan df t);
    columns-overwrite = λ m f t. refl;
    rows-overwrite = λ m f t. refl;
    history-overwrite = λ m f t. refl;
    append-old = append_stored-old;
    rows-append =
        λ app n m f t h. ap (λ (x : Stored). x.stored_rows) (append_stored-new app n m f t h);
    transaction-append = λ app n m f t h.
        ap (λ (x : Stored). x.stored_transaction app) (append_stored-new app n m f t h)
        ∙ rw (eq_refl app) refl;
    merge-ok = λ m plan f t h. (merge_stored m plan f t, refl);
    merge-history = λ m plan f t t' h. ap (λ (x : Stored). x.stored_history) (sym (ok-injective h));
    merge-columns = λ m plan f t t' h. ap (λ (x : Stored). x.stored_columns) (sym (ok-injective h));
    merge-rows = λ m plan f t t' h p short.
        ap (λ (x : Stored). filter p x.stored_rows) (sym (ok-injective h));
  }
