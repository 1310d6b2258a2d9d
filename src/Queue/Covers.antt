-- ===== src/Queue/Covers.antt =====
-- `pending` of control/gold_reconcile_queue.py, and the rows that are pending.
use azure_lakehouse_pipeline.Queue.{
  pending, PendingGoldScope, positive_ids, QueueRow, scope_of, is_positive, pending_rows,
  positive_id, is_full,
}
use azure_lakehouse_pipeline.Prelude.{
  Bool, List, ℕ, any, length, All, some, ◌≡◌, ◌++◌, true, none, ◌||◌, ◌∷◌, ◌≤◌, ◌⊎◌, arith, suc, [],
  ap, refl, Option, zero, ltb, Bool-cases, if◌then◌else◌, inl, sym, inr,
}
use azure_lakehouse_pipeline.Prelude.Int.{ℤ, eq_ℤ}
use azure_lakehouse_pipeline.Delta.{take}
use mathlib.Core.Path.{subst}

abbrev pub member_ℤ : ℤ → List ℤ → Bool
member_ℤ i js = any (λ j. eq_ℤ i j) js

-- A row's order is among the ids of a scope.
abbrev pub HasOrder : List ℤ → QueueRow → Type 0
HasOrder ids row = (i : ℤ) → row.order_id ≡ some i → is_positive i ≡ true → member_ℤ i ids ≡ true

-- The scope is all the orders, or it has the order of each of the rows.
abbrev pub IsCovered : PendingGoldScope → List QueueRow → Type 0
IsCovered p rows =
    (p.affected_order_ids ≡ none)
    ⊎ ((ids : List ℤ) × (p.affected_order_ids ≡ some ids) × All (HasOrder ids) rows)

eq_ℤ_refl : (i : ℤ) → eq_ℤ i i ≡ true
eq_ℤ_refl i = ground arith

any-append : {A : Type 0} (p : A → Bool) (xs ys : List A) → any p (xs ++ ys) ≡ any p xs || any p ys
any-append p [] ys = refl
any-append p (x ∷ xs) ys = ground (arith, any-append p xs ys)

HasOrder-append :
    (xs ids : List ℤ) (rows : List QueueRow)
    → All (HasOrder ids) rows
    → All (HasOrder (xs ++ ids)) rows
HasOrder-append xs ids [] h = tt
HasOrder-append xs ids (row ∷ rows) (h, hs) = (
  λ i e p. let old = h i e p in ground (arith, any-append (λ j. eq_ℤ i j) xs ids),
  HasOrder-append xs ids rows hs,
)

positive_ids-HasOrder : (rows : List QueueRow) → All (HasOrder (positive_ids rows)) rows
unfolding positive_ids
positive_ids-HasOrder [] = tt
positive_ids-HasOrder (row ∷ rows) = (
  λ i e p. rw (e, p, eq_ℤ_refl i),
  HasOrder-append (positive_id row.order_id) (positive_ids rows) rows (positive_ids-HasOrder rows),
)

take-all {ℓ} :
    {A : Type ℓ} (n : ℕ) (xs : List A) → length (take (suc n) xs) ≤ n → take (suc n) xs ≡ xs
take-all n [] h = refl
take-all zero (x ∷ xs) h = absurd (omega arith)
take-all (suc n) (x ∷ xs) h = ap (λ l. x ∷ l) (take-all n xs (omega arith))

affected_of : Option PendingGoldScope → Option (List ℤ)
affected_of none = none
affected_of (some p) = p.affected_order_ids

scope_of-IsCovered :
    (n : ℕ) (some_rows rows : List QueueRow) {p : PendingGoldScope}
    → (length some_rows ≤ n → some_rows ≡ rows)
    → scope_of n some_rows ≡ some p
    → IsCovered p rows
unfolding scope_of affected_of
scope_of-IsCovered n [] rows whole h = absurd (ground arith)
scope_of-IsCovered n (r ∷ rs) rows {p} whole h =
    let full = any is_full (r ∷ rs) || ltb n (length (r ∷ rs)) in
    let affected : p.affected_order_ids ≡ (if full then none else some (positive_ids (r ∷ rs))) =
      ap affected_of (sym h) in
    elim (Bool-cases full) [
      | inl b ↦ inl (rw b at affected)
      | inr b ↦
          let all_rows : r ∷ rs ≡ rows = whole (ground arith) in
          inr (
            positive_ids (r ∷ rs),
            rw b at affected,
            subst (λ l. All (HasOrder (positive_ids (r ∷ rs))) l) all_rows
                (positive_ids-HasOrder (r ∷ rs)),
          )
    ]

-- Every pending row of the table is covered by the scope that `pending` returns: the scope is all the
-- orders, or it has the valid order id of each of the pending rows.
pub pending-IsCovered :
    (max_order_ids : ℕ) (rows : List QueueRow) {p : PendingGoldScope}
    → pending max_order_ids (some rows) ≡ some p
    → IsCovered p (pending_rows rows)
unfolding pending
pending-IsCovered n rows {p} h =
    scope_of-IsCovered n (take (suc n) (pending_rows rows)) (pending_rows rows)
      (take-all n (pending_rows rows)) h
