-- ===== src/Queue.antt =====
-- control/gold_reconcile_queue.py: the hand-off of changed orders from Silver to Gold.
pub mod Covers
pub mod Complete
mod Tests
use azure_lakehouse_pipeline.Prelude.{
  ℕ, Bool, Option, String, List, some, none, ◌∷◌, any, true, str_eq, [], map, ◌&&◌, if◌then◌else◌,
  ◌++◌, ◌+◌, ◌||◌, false, not, ltb, length, suc,
}
use azure_lakehouse_pipeline.Prelude.Int.{ℤ, ltb_ℤ, pos, eq_ℤ}
use azure_lakehouse_pipeline.Delta.{take}
use azure_lakehouse_pipeline.Result.{Result, ok, raise, runtime_error}

-- The texts of `scope_key`: "all-orders", "metadata-only", and `order:<id>`, which differ for
-- different ids.
pub data ScopeKey : Type 0 where
  all_orders : ScopeKey
  order : ℤ → ScopeKey
  metadata_only : ScopeKey

abbrev pub same_scope : ScopeKey → ScopeKey → Bool
same_scope all_orders all_orders = true
same_scope (order i) (order j) = eq_ℤ i j
same_scope metadata_only metadata_only = true
same_scope _ _ = false

pub data QueueStatus : Type 0 where
  pending_row published_row : QueueStatus

pub record QueueRow : Type 0 where
  pub request_id : String
  pub scope_key : ScopeKey
  pub order_id : Option ℤ
  pub requires_fact_readiness : Bool
  pub status : QueueStatus
  pub created_at : ℕ
  pub updated_at : ℕ

-- A set of order ids is the list of its members.
pub record PendingGoldScope : Type 0 where
  pub scope_keys : List (String × ScopeKey)
  pub affected_order_ids : Option (List ℤ)
  pub requires_readiness : Bool

abbrev pub is_positive : ℤ → Bool
is_positive i = ltb_ℤ (pos 0) i

insert_order : ℤ → List ℤ → List ℤ
insert_order i [] = i ∷ []
insert_order i (j ∷ js) = if ltb_ℤ j i then j ∷ insert_order i js else i ∷ j ∷ js

-- `sorted(ids)`.
unfoldable pub sort_orders : List ℤ → List ℤ
unfolding insert_order
sort_orders [] = []
sort_orders (i ∷ is) = insert_order i (sort_orders is)

-- The scopes of `enqueue`.
unfoldable pub scopes : Option (List ℤ) → List (ScopeKey × Option ℤ)
unfolding sort_orders
scopes none = (all_orders, none) ∷ []
scopes (some []) = (metadata_only, none) ∷ []
scopes (some (i ∷ is)) =
    if any (λ j. not (is_positive j)) (i ∷ is)
    then (all_orders, none) ∷ []
    else map (λ j. (order j, some j)) (sort_orders (i ∷ is))

-- The rows of one request.
abbrev pub queue_rows : String → Bool → ℕ → List (ScopeKey × Option ℤ) → List QueueRow
queue_rows request readiness now scopes =
    map
      (λ (s : ScopeKey × Option ℤ).
        let row : QueueRow = record {
          request_id = request;
          scope_key = s.0;
          order_id = s.1;
          requires_fact_readiness = readiness;
          status = pending_row;
          created_at = now;
          updated_at = now;
        } in
        row)
      scopes

-- The join condition of the merge.
abbrev pub same_row : QueueRow → QueueRow → Bool
same_row a b = str_eq a.request_id b.request_id && same_scope a.scope_key b.scope_key

-- `upsert_table` on the keys of the queue: a matched row takes the source's values but for
-- `created_at`, and other source rows are inserted. The keys of the source rows differ, as a Delta
-- merge wants.
unfoldable pub merge_row : QueueRow → List QueueRow → List QueueRow
merge_row source [] = source ∷ []
merge_row source (target ∷ rows) =
    if same_row target source
    then record source { created_at = target.created_at } ∷ rows
    else target ∷ merge_row source rows

unfoldable pub upsert : List QueueRow → List QueueRow → List QueueRow
unfolding merge_row
upsert [] rows = rows
upsert (source ∷ sources) rows = upsert sources (merge_row source rows)

-- `None` stands for a missing table.
unfoldable pub enqueue :
    String → Option (List ℤ) → Bool → ℕ → Option (List QueueRow) → Option (List QueueRow)
unfolding scopes upsert
enqueue request affected readiness now none =
    some (queue_rows request readiness now (scopes affected))
enqueue request affected readiness now (some rows) =
    some (upsert (queue_rows request readiness now (scopes affected)) rows)

-- `where(status == "pending")`.
unfoldable pub pending_rows : List QueueRow → List QueueRow
pending_rows [] = []
pending_rows (row ∷ rows) = elim row.status [
  | pending_row ↦ row ∷ pending_rows rows
  | published_row ↦ pending_rows rows
]

abbrev pub is_full : QueueRow → Bool
is_full row = same_scope row.scope_key all_orders

abbrev pub positive_id : Option ℤ → List ℤ
positive_id none = []
positive_id (some i) = if is_positive i then i ∷ [] else []

unfoldable pub positive_ids : List QueueRow → List ℤ
positive_ids [] = []
positive_ids (row ∷ rows) = positive_id row.order_id ++ positive_ids rows

-- `pending` from the rows that `limit` lets through.
unfoldable pub scope_of : ℕ → List QueueRow → Option PendingGoldScope
unfolding positive_ids
scope_of max_order_ids [] = none
scope_of max_order_ids (row ∷ rows) = some (record {
  scope_keys = map (λ (r : QueueRow). (r.request_id, r.scope_key)) (row ∷ rows);
  affected_order_ids =
      if any is_full (row ∷ rows) || ltb max_order_ids (length (row ∷ rows))
      then none
      else some (positive_ids (row ∷ rows));
  requires_readiness = any (λ (r : QueueRow). r.requires_fact_readiness) (row ∷ rows);
})

unfoldable pub pending : ℕ → Option (List QueueRow) → Option PendingGoldScope
unfolding pending_rows scope_of
pending max_order_ids none = none
pending max_order_ids (some rows) =
    scope_of max_order_ids (take (suc max_order_ids) (pending_rows rows))

abbrev pub is_key_of : QueueRow → String × ScopeKey → Bool
is_key_of row key = str_eq row.request_id key.0 && same_scope row.scope_key key.1

abbrev pub published : ℕ → QueueRow → QueueRow
published now row = record row { status = published_row; updated_at = now }

-- The join of the keys with one row of the table, with the new status: a row for each key of its own.
unfoldable pub joined : ℕ → QueueRow → List (String × ScopeKey) → List QueueRow
joined now row [] = []
joined now row (key ∷ scope_keys) =
    let rest = joined now row scope_keys in
    if is_key_of row key then published now row ∷ rest else rest

unfoldable pub completed : ℕ → List (String × ScopeKey) → List QueueRow → List QueueRow
unfolding joined
completed now scope_keys [] = []
completed now scope_keys (row ∷ rows) = joined now row scope_keys ++ completed now scope_keys rows

-- A MERGE raises where two source rows match one target row. The rows of the join all match one.
unfoldable pub is_ambiguous : List QueueRow → Bool
is_ambiguous [] = false
is_ambiguous (source ∷ sources) = any (same_row source) sources || is_ambiguous sources

unfoldable pub complete : ℕ → List (String × ScopeKey) → List QueueRow → Result (List QueueRow)
unfolding completed upsert is_ambiguous
complete now [] rows = ok rows
complete now (key ∷ scope_keys) rows =
    let sources = completed now (key ∷ scope_keys) rows in
    if is_ambiguous sources
    then raise (runtime_error "DELTA_MULTIPLE_SOURCE_ROW_MATCHING_TARGET_ROW_IN_MERGE")
    else ok (upsert sources rows)
