-- ===== src/Manifest/Build.antt =====
-- `BronzeBatchManifest.from_results`.
use azure_lakehouse_pipeline.Prelude.{
  suc, ◌≡◌, refl, ap, String, false, not, List, [], ◌∷◌, str_eq, eq_iff, length, any, All, arith,
}
use azure_lakehouse_pipeline.Result.{ok}
use azure_lakehouse_pipeline.Dict.{IsDistinct, of_entries}
use azure_lakehouse_pipeline.Dict.Laws.{of_entries-distinct, of_entries-length}
use azure_lakehouse_pipeline.Manifest.{
  BronzeTableResult, BronzeBatchManifest, by_table_name, from_results,
}

length-by_table_name : (rs : List BronzeTableResult) → length (by_table_name rs) ≡ length rs
length-by_table_name [] = refl
length-by_table_name (r ∷ rs) = ap suc (length-by_table_name rs)

abbrev pub IsOfBatch : String → List BronzeTableResult → Type 0
IsOfBatch batch_id rs = All (λ (r : BronzeTableResult). r.batch_id ≡ batch_id) rs

no_mismatch :
    (batch_id : String) (rs : List BronzeTableResult)
    → any (λ (r : BronzeTableResult). not (str_eq r.batch_id batch_id)) rs ≡ false
    → IsOfBatch batch_id rs
no_mismatch batch_id [] h = tt
no_mismatch batch_id (r ∷ rs) h =
    (ground (arith, eq_iff r.batch_id batch_id), no_mismatch batch_id rs (ground arith))

of_batch :
    (batch_id : String) (rs : List BronzeTableResult)
    → IsOfBatch batch_id rs
    → any (λ (r : BronzeTableResult). not (str_eq r.batch_id batch_id)) rs ≡ false
of_batch batch_id [] h = refl
of_batch batch_id (r ∷ rs) h = ground (arith, eq_iff r.batch_id batch_id, of_batch batch_id rs)

-- Results with distinct table names, all of this batch, are accepted, and every one is kept, in order.
pub from_results_complete :
    (batch_id : String) (rs : List BronzeTableResult)
    → IsDistinct (by_table_name rs)
    → IsOfBatch batch_id rs
    → from_results batch_id rs ≡ ok (record { batch_id = batch_id; tables = by_table_name rs })
unfolding from_results
from_results_complete batch_id rs distinct own = ground (
  arith,
  of_entries-distinct (by_table_name rs) distinct,
  length-by_table_name rs,
  of_batch batch_id rs own,
)

-- Results that are accepted are kept in order, have distinct table names, and are all of this batch.
pub from_results_sound :
    (batch_id : String) (rs : List BronzeTableResult) {m : BronzeBatchManifest}
    → from_results batch_id rs ≡ ok m
    → (m ≡ record { batch_id = batch_id; tables = by_table_name rs })
      × IsDistinct (by_table_name rs)
      × IsOfBatch batch_id rs
unfolding from_results
from_results_sound batch_id rs {m} h =
    let size : length (of_entries (by_table_name rs)) ≡ length (by_table_name rs) =
      ground (arith, length-by_table_name rs) in
    let distinct = of_entries-length (by_table_name rs) size in
    let own = no_mismatch batch_id rs (ground arith) in
    (ground (arith, of_entries-distinct (by_table_name rs) distinct), distinct, own)
