-- ===== src/Queue/Tests.antt =====
-- A queue with two orders of one request, of which at most five are handed out.
use azure_lakehouse_pipeline.Prelude.Int.{ℤ, pos}
use azure_lakehouse_pipeline.Prelude.{List, some, true, ◌∷◌, [], ◌≡◌, map, refl}
use azure_lakehouse_pipeline.Queue.{
  pending, complete, PendingGoldScope, order, scope_of, QueueRow, pending_rows, positive_ids,
  pending_row, completed, joined, is_ambiguous,
}
use azure_lakehouse_pipeline.Queue.Covers.{IsCovered, pending-IsCovered}
use azure_lakehouse_pipeline.Queue.Complete.{mark, complete-mark}
use azure_lakehouse_pipeline.Result.{ok, raise, runtime_error}

abbrev row : ℤ → QueueRow
row i = record {
  request_id = "r1";
  scope_key = order i;
  order_id = some i;
  requires_fact_readiness = true;
  status = pending_row;
  created_at = 1;
  updated_at = 1;
}

abbrev queue : List QueueRow
queue = row (pos 7) ∷ row (pos 9) ∷ []

abbrev scope : PendingGoldScope
scope = record {
  scope_keys = ("r1", order (pos 7)) ∷ ("r1", order (pos 9)) ∷ [];
  affected_order_ids = some (pos 7 ∷ pos 9 ∷ []);
  requires_readiness = true;
}

pending-IsCovered_example : IsCovered scope (pending_rows queue)
unfolding pending scope_of pending_rows positive_ids
pending-IsCovered_example = pending-IsCovered 5 queue {p = scope} refl

complete-mark_example :
    complete 2 (("r1", order (pos 7)) ∷ []) queue
    ≡ ok (map (mark 2 (("r1", order (pos 7)) ∷ [])) queue)
complete-mark_example =
    complete-mark 2 (("r1", order (pos 7)) ∷ []) queue (tt, tt) ((refl, tt), (tt, tt))

-- A key that is given twice makes the MERGE raise.
repeated_key :
    complete 2 (("r1", order (pos 7)) ∷ ("r1", order (pos 7)) ∷ []) queue
    ≡ raise (runtime_error "DELTA_MULTIPLE_SOURCE_ROW_MATCHING_TARGET_ROW_IN_MERGE")
unfolding complete completed joined is_ambiguous
repeated_key = refl
