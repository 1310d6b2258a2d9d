-- ===== src/Upsert/Rows.antt =====
-- Lemmas on the rows that a test picks from a list.
use azure_lakehouse_pipeline.Upsert.{Row}
use azure_lakehouse_pipeline.Prelude.{
  List, ◌≡◌, Bool, [], any, true, false, ◌++◌, not, ◌∷◌, ◌⊎◌, inl, Bool-cases, refl, arith, ap, inr,
  ◌||◌, sym, ◌∙◌,
}
use azure_lakehouse_pipeline.Upsert.Plan.{filter}
use mathlib.Core.Path.{ap₂}
use azure_lakehouse_pipeline.Upsert.Table.{is_nil}

pub filter-cong :
    (p q : Row → Bool) (rows : List Row) → ((r : Row) → p r ≡ q r) → filter p rows ≡ filter q rows
filter-cong p q [] h = refl
filter-cong p q (r ∷ rows) h = rw (h r, filter-cong p q rows h) refl

pub any-cong :
    (p q : Row → Bool) (rows : List Row) → ((r : Row) → p r ≡ q r) → any p rows ≡ any q rows
any-cong p q [] h = refl
any-cong p q (r ∷ rows) h = ap₂ ◌||◌ (h r) (any-cong p q rows h)

pub filter-append :
    (p : Row → Bool) (xs ys : List Row) → filter p (xs ++ ys) ≡ filter p xs ++ filter p ys
filter-append p [] ys = refl
filter-append p (r ∷ rows) ys = elim (Bool-cases (p r)) [
  | inl found ↦ rw found (ap (λ l. r ∷ l) (filter-append p rows ys))
  | inr other ↦ rw other (filter-append p rows ys)
]

pub filter-head :
    (p : Row → Bool) (rows : List Row) {s : Row} {ss : List Row}
    → filter p rows ≡ s ∷ ss
    → p s ≡ true
filter-head p [] h = cc
filter-head p (r ∷ rows) {s} {ss} h = elim (Bool-cases (p r)) [
  | inl found ↦ let same : r ≡ s = ground arith in ap p (sym same) ∙ found
  | inr other ↦ let rest : filter p rows ≡ s ∷ ss = ground arith in filter-head p rows rest
]

pub filter-found :
    (p : Row → Bool) (r : Row) (rows : List Row)
    → p r ≡ true
    → filter p (r ∷ rows) ≡ r ∷ filter p rows
filter-found p r rows h = rw h refl

pub filter-other :
    (p : Row → Bool) (r : Row) (rows : List Row) → p r ≡ false → filter p (r ∷ rows) ≡ filter p rows
filter-other p r rows h = rw h refl

pub any-filter : (p : Row → Bool) (rows : List Row) → any p rows ≡ not (is_nil (filter p rows))
any-filter p [] = refl
any-filter p (r ∷ rows) = ground (arith, any-filter p rows)

pub List-cases :
    {A : Type 0} (xs : List A) → (xs ≡ []) ⊎ ((x : A) × (rest : List A) × (xs ≡ x ∷ rest))
List-cases [] = inl refl
List-cases (x ∷ xs) = inr (x, xs, refl)
