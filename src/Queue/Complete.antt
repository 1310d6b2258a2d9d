-- ===== src/Queue/Complete.antt =====
-- `complete` of control/gold_reconcile_queue.py, row by row.
use azure_lakehouse_pipeline.Queue.{
  completed, complete, merge_row, ScopeKey, same_scope, QueueRow, upsert, same_row, order,
  all_orders, metadata_only, joined, published, is_ambiguous, is_key_of,
}
use azure_lakehouse_pipeline.Prelude.{
  ℕ, List, String, All, ◌≡◌, ◌∷◌, if◌then◌else◌, ◌++◌, [], eq_refl, map, true, false, ap,
  Bool-cases, inl, arith, refl, ◌∙◌, sym, inr, Bool, any, All-map, str_eq, eq_iff, ◌&&◌,
}
use mathlib.Core.List.{append_assoc}
use azure_lakehouse_pipeline.Result.{ok}
use mathlib.Core.Path.{ap₂}

-- No two rows of the queue have the same request and scope.
abbrev pub IsDistinctRows : List QueueRow → Type 0
IsDistinctRows [] = Unit
IsDistinctRows (r ∷ rs) = All (λ q. same_row r q ≡ false) rs × IsDistinctRows rs

abbrev pub has_key : List (String × ScopeKey) → QueueRow → Bool
has_key scope_keys row = any (is_key_of row) scope_keys

abbrev pub mark : ℕ → List (String × ScopeKey) → QueueRow → QueueRow
mark now scope_keys row = if has_key scope_keys row then published now row else row

-- The rows of the given keys, each once.
unfoldable marked_rows : ℕ → List (String × ScopeKey) → List QueueRow → List QueueRow
marked_rows now scope_keys [] = []
marked_rows now scope_keys (row ∷ rows) =
    let rest = marked_rows now scope_keys rows in
    if has_key scope_keys row then published now row ∷ rest else rest

abbrev pub same_key : String × ScopeKey → String × ScopeKey → Bool
same_key a b = str_eq a.0 b.0 && same_scope a.1 b.1

-- No key is given twice.
abbrev pub AreDistinctKeys : List (String × ScopeKey) → Type 0
AreDistinctKeys [] = Unit
AreDistinctKeys (k ∷ ks) = All (λ j. same_key k j ≡ false) ks × AreDistinctKeys ks

same_scope_refl : (k : ScopeKey) → same_scope k k ≡ true
same_scope_refl all_orders = refl
same_scope_refl (order i) = ground arith
same_scope_refl metadata_only = refl

merge_row-skip :
    (source : QueueRow) (ms rs : List QueueRow)
    → All (λ m. same_row m source ≡ false) ms
    → merge_row source (ms ++ rs) ≡ ms ++ merge_row source rs
unfolding merge_row
merge_row-skip source [] rs h = refl
merge_row-skip source (m ∷ ms) rs (h, hs) = rw h (ap (λ l. m ∷ l) (merge_row-skip source ms rs hs))

merge_row-published :
    (now : ℕ) (r : QueueRow) (rs : List QueueRow)
    → merge_row (published now r) (r ∷ rs) ≡ published now r ∷ rs
unfolding merge_row
merge_row-published now r rs = rw (eq_refl r.request_id, same_scope_refl r.scope_key)

-- No row of the first list has the key of a row of the second.
abbrev Apart : List QueueRow → List QueueRow → Type 0
Apart ms rs = All (λ r. All (λ m. same_row m r ≡ false) ms) rs

All-snoc :
    {A : Type 0} (P : A → Type 0) (xs : List A) (x : A) → All P xs → P x → All P (xs ++ (x ∷ []))
All-snoc P [] x h hx = (hx, tt)
All-snoc P (y ∷ xs) x (h, hs) hx = (h, All-snoc P xs x hs hx)

Apart-snoc :
    (ms rs : List QueueRow) (x : QueueRow)
    → Apart ms rs
    → All (λ r. same_row x r ≡ false) rs
    → Apart (ms ++ (x ∷ [])) rs
Apart-snoc ms [] x h hx = tt
Apart-snoc ms (r ∷ rs) x (h, hs) (hx, hxs) =
    (All-snoc (λ m. same_row m r ≡ false) ms x h hx, Apart-snoc ms rs x hs hxs)

upsert-marked_rows :
    (now : ℕ) (scope_keys : List (String × ScopeKey)) (ms rs : List QueueRow)
    → Apart ms rs
    → IsDistinctRows rs
    → upsert (marked_rows now scope_keys rs) (ms ++ rs) ≡ ms ++ map (mark now scope_keys) rs
unfolding marked_rows upsert
upsert-marked_rows now scope_keys ms [] apart d = refl
upsert-marked_rows now scope_keys ms (r ∷ rs) (h, hs) (new, d) =
    elim (Bool-cases (has_key scope_keys r)) [
      | inl key ↦
          let ih =
            upsert-marked_rows now scope_keys (ms ++ (published now r ∷ [])) rs
              (Apart-snoc ms rs (published now r) hs new) d in
          let merged : merge_row (published now r) (ms ++ (r ∷ rs))
              ≡ (ms ++ (published now r ∷ [])) ++ rs =
            merge_row-skip (published now r) ms (r ∷ rs) h
            ∙ ap (λ l. ms ++ l) (merge_row-published now r rs)
            ∙ sym (append_assoc ms (published now r ∷ []) rs) in
          rw key (
            ap (upsert (marked_rows now scope_keys rs)) merged
            ∙ ih
            ∙ append_assoc ms (published now r ∷ []) (map (mark now scope_keys) rs))
      | inr other ↦
          let ih =
            upsert-marked_rows now scope_keys (ms ++ (r ∷ [])) rs (Apart-snoc ms rs r hs new) d in
          rw other (
            ap (upsert (marked_rows now scope_keys rs)) (sym (append_assoc ms (r ∷ []) rs))
            ∙ ih
            ∙ append_assoc ms (r ∷ []) (map (mark now scope_keys) rs))
    ]

Apart-nil : (rs : List QueueRow) → Apart [] rs
Apart-nil [] = tt
Apart-nil (r ∷ rs) = (tt, Apart-nil rs)

map-mark_nil : (now : ℕ) (rows : List QueueRow) → rows ≡ map (mark now []) rows
map-mark_nil now [] = refl
map-mark_nil now (r ∷ rows) = ap (λ l. r ∷ l) (map-mark_nil now rows)

same_scope_sound : (a b : ScopeKey) → same_scope a b ≡ true → a ≡ b
same_scope_sound all_orders all_orders h = refl
same_scope_sound (order i) (order j) h = ap order (ground arith)
same_scope_sound metadata_only metadata_only h = refl
same_scope_sound all_orders (order j) h = absurd (ground arith)
same_scope_sound all_orders metadata_only h = absurd (ground arith)
same_scope_sound (order i) all_orders h = absurd (ground arith)
same_scope_sound (order i) metadata_only h = absurd (ground arith)
same_scope_sound metadata_only all_orders h = absurd (ground arith)
same_scope_sound metadata_only (order j) h = absurd (ground arith)

-- A row has one key.
other_key :
    (row : QueueRow) (k j : String × ScopeKey)
    → is_key_of row k ≡ true
    → same_key k j ≡ false
    → is_key_of row j ≡ false
other_key row k j own other =
    let request : row.request_id ≡ k.0 = ground (arith, own, eq_iff row.request_id k.0) in
    let scope : row.scope_key ≡ k.1 = same_scope_sound row.scope_key k.1 (ground (arith, own)) in
    ap₂ (λ r s. str_eq r j.0 && same_scope s j.1) request scope ∙ other

joined-none :
    (now : ℕ) (row : QueueRow) (ks : List (String × ScopeKey))
    → All (λ k. is_key_of row k ≡ false) ks
    → joined now row ks ≡ []
unfolding joined
joined-none now row [] h = refl
joined-none now row (k ∷ ks) (h, hs) = rw h (joined-none now row ks hs)

joined-distinct :
    (now : ℕ) (row : QueueRow) (ks : List (String × ScopeKey))
    → AreDistinctKeys ks
    → joined now row ks ≡ (if has_key ks row then published now row ∷ [] else [])
unfolding joined
joined-distinct now row [] d = refl
joined-distinct now row (k ∷ ks) (new, d) = elim (Bool-cases (is_key_of row k)) [
  | inl own ↦ rw own (
      ap (λ l. published now row ∷ l)
        (joined-none now row ks (All-map (λ j other. other_key row k j own other) ks new)))
  | inr other ↦ rw other (joined-distinct now row ks d)
]

completed-marked_rows :
    (now : ℕ) (ks : List (String × ScopeKey)) (rows : List QueueRow)
    → AreDistinctKeys ks
    → completed now ks rows ≡ marked_rows now ks rows
unfolding completed marked_rows
completed-marked_rows now ks [] d = refl
completed-marked_rows now ks (row ∷ rows) d =
    ap (λ l. l ++ completed now ks rows) (joined-distinct now row ks d)
    ∙ elim (Bool-cases (has_key ks row)) [
      | inl key ↦ rw key (ap (λ l. published now row ∷ l) (completed-marked_rows now ks rows d))
      | inr other ↦ rw other (completed-marked_rows now ks rows d)
    ]

unmatched :
    (now : ℕ) (ks : List (String × ScopeKey)) (row : QueueRow) (rows : List QueueRow)
    → All (λ q. same_row row q ≡ false) rows
    → any (same_row (published now row)) (marked_rows now ks rows) ≡ false
unfolding marked_rows
unmatched now ks row [] h = refl
unmatched now ks row (q ∷ rows) (h, hs) = elim (Bool-cases (has_key ks q)) [
  | inl key ↦ rw key (rw h (unmatched now ks row rows hs))
  | inr other ↦ rw other (unmatched now ks row rows hs)
]

is_ambiguous-marked_rows :
    (now : ℕ) (ks : List (String × ScopeKey)) (rows : List QueueRow)
    → IsDistinctRows rows
    → is_ambiguous (marked_rows now ks rows) ≡ false
unfolding is_ambiguous marked_rows
is_ambiguous-marked_rows now ks [] d = refl
is_ambiguous-marked_rows now ks (row ∷ rows) (new, d) = elim (Bool-cases (has_key ks row)) [
  | inl key ↦ rw key (rw (unmatched now ks row rows new) (is_ambiguous-marked_rows now ks rows d))
  | inr other ↦ rw other (is_ambiguous-marked_rows now ks rows d)
]

-- Where no two rows of the queue have the same key and no key is given twice, `complete` does not raise,
-- and publishes exactly the rows whose key is given, in place, and leaves every other row as it is.
pub complete-mark :
    (now : ℕ) (scope_keys : List (String × ScopeKey)) (rows : List QueueRow)
    → AreDistinctKeys scope_keys
    → IsDistinctRows rows
    → complete now scope_keys rows ≡ ok (map (mark now scope_keys) rows)
unfolding complete
complete-mark now [] rows keys_differ d = ap ok (map-mark_nil now rows)
complete-mark now (k ∷ scope_keys) rows keys_differ d =
    rw
      (
        completed-marked_rows now (k ∷ scope_keys) rows keys_differ,
        is_ambiguous-marked_rows now (k ∷ scope_keys) rows d,
      )
      (ap ok (upsert-marked_rows now (k ∷ scope_keys) [] rows (Apart-nil rows) d))
