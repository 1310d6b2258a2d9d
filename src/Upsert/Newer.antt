-- ===== src/Upsert/Newer.antt =====
-- adapters/lakehouse.py: `_lexicographic_newer_condition` against the order of sequences, column by column.
use azure_lakehouse_pipeline.Prelude.{
  List, String, Bool, false, ◌≡◌, some, ◌++◌, ◌∷◌, ◌||◌, map, [], true, ◌∙◌, ◌&&◌, refl, ap, none,
  arith, sym, all,
}
use azure_lakehouse_pipeline.Upsert.{
  Row, Cell, and_sql, lexicographic_newer_condition, conjunction, eval, disjunction, greater,
  newer_clauses, Condition, same_column, not_sql, one_holds, is_none, after_prefix, all_hold,
  null_safe_eq, gt_scalar, joined, or_sql, compared,
}
use azure_lakehouse_pipeline.Upsert.Table.{same_cells}
use mathlib.Core.List.{map-append}

-- A NULL is older than every value.
abbrev pub newer_cell : Cell → Cell → Bool
newer_cell none target = false
newer_cell (some a) none = true
newer_cell (some a) (some b) = gt_scalar a b

-- The lexicographic order of the named columns: is the first row newer?
unfoldable pub is_newer : List String → Row → Row → Bool
is_newer [] source target = false
is_newer (name ∷ names) source target =
    newer_cell (source name) (target name)
    || (null_safe_eq (source name) (target name) && is_newer names source target)

eval_greater :
    (a b : Cell)
    → and_sql (not_sql (some (is_none a))) (or_sql (some (is_none b)) (compared gt_scalar a b))
      ≡ some (newer_cell a b)
eval_greater none none = refl
eval_greater none (some b) = refl
eval_greater (some a) none = refl
eval_greater (some a) (some b) = refl

module _ (target source : Row) where
  eval-greater :
      (name : String)
      → eval target source (greater name) ≡ some (newer_cell (source name) (target name))
  unfolding eval
  eval-greater name = eval_greater (source name) (target name)

  eval-same_column :
      (name : String)
      → eval target source (same_column name) ≡ some (null_safe_eq (source name) (target name))
  unfolding eval
  eval-same_column name = refl

  pub eval-all_hold :
      (p q : Condition) {a b : Bool}
      → eval target source p ≡ some a
      → eval target source q ≡ some b
      → eval target source (all_hold p q) ≡ some (a && b)
  unfolding eval
  eval-all_hold p q {a = true} h k = rw (h, k) refl
  eval-all_hold p q {a = false} h k = rw h refl

  eval-one_holds :
      (p q : Condition) {a b : Bool}
      → eval target source p ≡ some a
      → eval target source q ≡ some b
      → eval target source (one_holds p q) ≡ some (a || b)
  unfolding eval
  eval-one_holds p q {a = true} h k = rw h refl
  eval-one_holds p q {a = false} h k = rw (h, k) refl

  pub eval-conjunction :
      (f : String → Condition) (g : String → Bool)
      → ((name : String) → eval target source (f name) ≡ some (g name))
      → (p : Condition) (names : List String) {a : Bool} → eval target source p ≡ some a
      → eval target source (conjunction p (map f names)) ≡ some (a && all g names)
  unfolding conjunction
  eval-conjunction f g fg p [] {a} h = h ∙ ap some (ground arith)
  eval-conjunction f g fg p (name ∷ names) {a} h =
      eval-conjunction f g fg (all_hold p (f name)) names (eval-all_hold p (f name) h (fg name))
      ∙ ap some (ground arith)

  eval-after_prefix :
      (done : List String) (p : Condition) {a : Bool}
      → eval target source p ≡ some a
      → eval target source (after_prefix (joined conjunction (map same_column done)) p)
        ≡ some (same_cells done source target && a)
  eval-after_prefix [] p h = h
  eval-after_prefix (name ∷ done) p h =
      eval-all_hold (conjunction (same_column name) (map same_column done)) p
        (eval-conjunction same_column (λ n. null_safe_eq (source n) (target n)) eval-same_column
          (same_column name) done (eval-same_column name))
        h

  same_cells-snoc :
      (done : List String) (name : String)
      → same_cells (done ++ name ∷ []) source target
        ≡ same_cells done source target && null_safe_eq (source name) (target name)
  same_cells-snoc [] name = ground arith
  same_cells-snoc (n ∷ done) name = ground (arith, same_cells-snoc done name)

  eval-disjunction :
      (p : Condition) (done names : List String) {a : Bool}
      → eval target source p ≡ some a
      → eval target source (disjunction p (newer_clauses (map same_column done) names))
        ≡ some (a || (same_cells done source target && is_newer names source target))
  unfolding disjunction newer_clauses is_newer
  eval-disjunction p done [] {a} h = h ∙ ap some (ground arith)
  eval-disjunction p done (name ∷ names) {a} h =
      let clause = after_prefix (joined conjunction (map same_column done)) (greater name) in
      ap
        (λ prefix.
          eval target source (disjunction (one_holds p clause) (newer_clauses prefix names)))
        (sym (map-append same_column done (name ∷ [])))
      ∙ eval-disjunction (one_holds p clause) (done ++ name ∷ []) names
          (eval-one_holds p clause h (eval-after_prefix done (greater name) (eval-greater name)))
      ∙ ap some (ground (arith, same_cells-snoc done name))

  -- The SQL predicate that `_lexicographic_newer_condition` writes for at least one column is never
  -- NULL, and is true exactly where the source row comes after the target row in the lexicographic
  -- order of the columns, in which a NULL comes before every value.
  pub lexicographic_newer_condition_lem :
      (name : String) (names : List String)
      → (p : Condition) × (lexicographic_newer_condition (name ∷ names) ≡ some p)
        × (eval target source p ≡ some (is_newer (name ∷ names) source target))
  unfolding lexicographic_newer_condition newer_clauses is_newer
  lexicographic_newer_condition_lem name names = (
    disjunction (greater name) (newer_clauses (same_column name ∷ []) names),
    refl,
    eval-disjunction (greater name) (name ∷ []) names (eval-greater name) ∙ ap some (ground arith),
  )
