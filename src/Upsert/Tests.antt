-- ===== src/Upsert/Tests.antt =====
-- Soft upserts of a small table of shops, by a batch and by a change feed.
use azure_lakehouse_pipeline.Prelude.{
  refl, ℕ, List, String, ◌∷◌, if◌then◌else◌, ◌≡◌, [], str_eq, none, Bool-cases, Bool, some, Option,
  All, true, inl, arith, inr,
}
use azure_lakehouse_pipeline.Upsert.{
  number_value, text_value, Condition, Row, gt_scalar, Frame, lexicographic_newer_condition, eval,
}
use azure_lakehouse_pipeline.Upsert.Values.{StoredTable, value_tables}
use azure_lakehouse_pipeline.Upsert.Table.{difference, upsert_table}
use azure_lakehouse_pipeline.Upsert.Newer.{is_newer, lexicographic_newer_condition_lem}
use azure_lakehouse_pipeline.Upsert.Keys.{IsKeyed, same_key, rows_at}
use azure_lakehouse_pipeline.Upsert.Current.{IsSoftFrame, IsUpserted, upsert_table-newest}
use azure_lakehouse_pipeline.Upsert.Agree.{AreComparable, All-filter, updated}
use azure_lakehouse_pipeline.Result.{Result, ok}
use azure_lakehouse_pipeline.Prelude.Int.{pos}
use azure_lakehouse_pipeline.Upsert.Later.{AllAgree, IsConsistent}
use azure_lakehouse_pipeline.Upsert.Soft.{soft_options}
use azure_lakehouse_pipeline.Upsert.Converge.{upsert_table_converge}

abbrev shop : ℕ → String → ℕ → Row
shop id shop_name seq = λ name.
    if str_eq name "shop_id"
    then some (number_value (pos id))
    else if str_eq name "shop_name"
    then some (text_value shop_name)
    else if str_eq name "_seq"
    then some (number_value (pos seq))
    else none

abbrev shop_columns : List String
shop_columns = "shop_id" ∷ "shop_name" ∷ "created_at" ∷ "_seq" ∷ []

abbrev frame_of : List Row → Frame
frame_of rows = record { columns = shop_columns; rows = rows }

abbrev old_rows : List Row
old_rows = shop 7 "old" 1 ∷ []

abbrev batch_rows : List Row
batch_rows = shop 7 "batch" 2 ∷ []

abbrev cdc_rows : List Row
cdc_rows = shop 7 "cdc" 3 ∷ []

abbrev shops : StoredTable String
shops = record {
  stored_columns = shop_columns;
  stored_rows = old_rows;
  stored_history = [];
  stored_transaction = λ app. none;
}

one_row-IsKeyed : (r : Row) → IsKeyed ("shop_id" ∷ []) (r ∷ [])
one_row-IsKeyed r k = elim (Bool-cases (same_key ("shop_id" ∷ []) r k)) [
  | inl here ↦ rw here (omega arith)
  | inr away ↦ rw away (omega arith)
]

soft_frame : (r : Row) → IsSoftFrame ("shop_id" ∷ []) ("_seq" ∷ []) (frame_of (r ∷ []))
unfolding difference
soft_frame r = record {
  key_columns = (refl, tt);
  sequence_columns = (refl, tt);
  keyed = one_row-IsKeyed r;
}

comparable : AreComparable ("shop_id" ∷ []) ("_seq" ∷ []) shop_columns batch_rows cdc_rows
unfolding is_newer gt_scalar
comparable = record {
  first_numeric = ((refl, tt), tt);
  second_numeric = ((refl, tt), tt);
  consistent = λ k.
      All-filter
        (λ a.
          All (IsConsistent ("_seq" ∷ []) (updated shop_columns) a)
            (rows_at ("shop_id" ∷ []) k cdc_rows))
        (λ r. same_key ("shop_id" ∷ []) r k) batch_rows
        (
          All-filter (IsConsistent ("_seq" ∷ []) (updated shop_columns) (shop 7 "batch" 2))
              (λ r. same_key ("shop_id" ∷ []) r k) cdc_rows ((λ older newer. cc), tt),
          tt,
        );
}

abbrev upsert_shops :
    List Row → String → StoredTable String → Result (Bool × Option (StoredTable String))
upsert_shops rows meta target =
    upsert_table (soft_options ("shop_id" ∷ []) ("_seq" ∷ [])) (frame_of rows) (value_tables String)
      meta (some target)

upsert_table_converge_example :
    (t1 : StoredTable String) × (t12 : StoredTable String) × (t2 : StoredTable String)
    × (t21 : StoredTable String) × (upsert_shops batch_rows "batch" shops ≡ ok (true, some t1))
    × (upsert_shops cdc_rows "cdc" t1 ≡ ok (true, some t12))
    × (upsert_shops cdc_rows "cdc" shops ≡ ok (true, some t2))
    × (upsert_shops batch_rows "batch" t2 ≡ ok (true, some t21))
    × ((k : Row)
        → AllAgree
            (updated shop_columns)
            (rows_at ("shop_id" ∷ []) k t12.stored_rows)
            (rows_at ("shop_id" ∷ []) k t21.stored_rows))
upsert_table_converge_example =
    upsert_table_converge (value_tables String) "shop_id" [] "_seq" [] shop_columns "batch" "cdc"
      batch_rows cdc_rows shops (soft_frame (shop 7 "batch" 2)) (soft_frame (shop 7 "cdc" 3))
      comparable refl (one_row-IsKeyed (shop 7 "old" 1)) ((refl, tt), tt)

upsert_table-newest_example :
    (target' : StoredTable String) × (upsert_shops batch_rows "batch" shops
      ≡ ok (true, some target'))
    × (target'.stored_columns ≡ shop_columns)
    × IsUpserted
        (value_tables String)
        ("shop_id" ∷ [])
        ("_seq" ∷ [])
        (frame_of batch_rows)
        shops
        target'
    × IsKeyed ("shop_id" ∷ []) target'.stored_rows
upsert_table-newest_example =
    upsert_table-newest (value_tables String) "batch" "shop_id" [] "_seq" [] (frame_of batch_rows)
      (soft_frame (shop 7 "batch" 2)) shops refl (one_row-IsKeyed (shop 7 "old" 1))

lexicographic_newer_condition_lem_example :
    (p : Condition) × (lexicographic_newer_condition ("_seq" ∷ "shop_id" ∷ []) ≡ some p)
    × (eval (shop 7 "batch" 2) (shop 7 "cdc" 3) p
        ≡ some (is_newer ("_seq" ∷ "shop_id" ∷ []) (shop 7 "cdc" 3) (shop 7 "batch" 2)))
lexicographic_newer_condition_lem_example =
    lexicographic_newer_condition_lem (shop 7 "batch" 2) (shop 7 "cdc" 3) "_seq" ("shop_id" ∷ [])
