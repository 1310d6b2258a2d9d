-- ===== src/Upsert/Agree.antt =====
-- The rows of a key after a soft upsert, up to the columns that an update assigns.
use azure_lakehouse_pipeline.Upsert.Newest.{newest}
use azure_lakehouse_pipeline.Prelude.{
  List, String, Bool, All, ◌∷◌, ◌≡◌, [], Bool-cases, true, inl, eq_refl, inr, arith, map,
  if◌then◌else◌, refl, ◌∙◌, sym,
}
use azure_lakehouse_pipeline.Upsert.{Row}
use azure_lakehouse_pipeline.Upsert.Table.{difference}
use azure_lakehouse_pipeline.Upsert.Plan.{filter, assign, null_row}
use azure_lakehouse_pipeline.Upsert.Order.{IsNumeric, is_newer-Agree}
use azure_lakehouse_pipeline.Dict.{member}
use azure_lakehouse_pipeline.Upsert.Later.{
  IsConsistent, Agrees, AllAgree, choose, later_row, assign-Agrees, Agrees-refl, Agrees-subset,
  Agrees-along, later_row-newer, later_row-older,
}
use azure_lakehouse_pipeline.Upsert.Keys.{rows_at}
use azure_lakehouse_pipeline.Prelude.{All-map}
use azure_lakehouse_pipeline.Upsert.Newer.{is_newer}
use azure_lakehouse_pipeline.Upsert.Names.{member-difference}

pub All-filter {κ} :
    (P : Row → Type κ) (p : Row → Bool) (rows : List Row) → All P rows → All P (filter p rows)
All-filter P p [] h = tt
All-filter P p (r ∷ rows) (first, rest) = elim (Bool-cases (p r)) [
  | inl found ↦ rw found (first, All-filter P p rows rest)
  | inr other ↦ rw other (All-filter P p rows rest)
]

members : (names : List String) → All (λ n. member n names ≡ true) names
members [] = tt
members (x ∷ names) =
    (rw (eq_refl x) refl, All-map (λ n h. ground (arith, h)) names (members names))

-- The columns that an update assigns.
abbrev pub updated : List String → List String
updated columns = difference columns ("created_at" ∷ [])

pub updated-columns : (columns : List String) → All (λ n. member n columns ≡ true) (updated columns)
updated-columns columns =
    All-map (λ n h. ground (arith, h, member-difference n columns ("created_at" ∷ [])))
      (updated columns) (members (updated columns))

module _ (sequence columns : List String)
    (inside : All (λ n. member n (updated columns) ≡ true) sequence) where
  newest-map :
      (rows sources : List Row)
      → AllAgree (updated columns) (map (λ s. assign columns s null_row) sources) sources
  newest-map rows [] = tt
  newest-map rows (s ∷ sources) = (
    assign-Agrees columns (updated columns) s null_row (updated-columns columns),
    newest-map rows sources,
  )

  later-choose :
      (t t' s : Row)
      → Agrees (updated columns) t t'
      → Agrees
          (updated columns)
          (if is_newer sequence s t then assign (updated columns) s t else t)
          (later_row sequence t' s)
  later-choose t t' s h =
      let same =
        is_newer-Agree sequence s s t t' (Agrees-refl sequence s)
          (Agrees-subset sequence (updated columns) t t' inside h) in
      elim (Bool-cases (is_newer sequence s t')) [
        | inl newer ↦
            Agrees-along (updated columns) (rw (same ∙ newer) refl)
              (later_row-newer sequence (updated columns) t' s newer)
              (assign-Agrees (updated columns) (updated columns) s t (members (updated columns)))
        | inr older ↦
            Agrees-along (updated columns) (rw (same ∙ older) refl)
              (later_row-older sequence (updated columns) t' s older) h
      ]

  pub newest-choose :
      (rows targets targets' sources : List Row)
      → AllAgree (updated columns) targets targets'
      → AllAgree
          (updated columns)
          (newest sequence (record { columns = columns; rows = rows }) targets sources)
          (choose sequence targets' sources)
  newest-choose rows [] [] sources h = newest-map rows sources
  newest-choose rows [] (t ∷ ts) sources h = absurd h
  newest-choose rows (t ∷ ts) [] sources h = absurd h
  newest-choose rows (t ∷ ts) (t' ∷ ts') [] h = h
  newest-choose rows (t ∷ ts) (t' ∷ ts') (s ∷ sources) (h, hs) = (later-choose t t' s h, hs)

pub AllAgree-refl : (names : List String) (rows : List Row) → AllAgree names rows rows
AllAgree-refl names [] = tt
AllAgree-refl names (r ∷ rows) = (Agrees-refl names r, AllAgree-refl names rows)

pub AllAgree-sym :
    (names : List String) (rs ss : List Row) → AllAgree names rs ss → AllAgree names ss rs
AllAgree-sym names [] [] h = tt
AllAgree-sym names [] (s ∷ ss) h = h
AllAgree-sym names (r ∷ rs) [] h = h
AllAgree-sym names (r ∷ rs) (s ∷ ss) (h, hs) =
    (All-map (λ n e. sym e) names h, AllAgree-sym names rs ss hs)

Agrees-trans :
    (names : List String) (r s t : Row) → Agrees names r s → Agrees names s t → Agrees names r t
Agrees-trans [] r s t h k = tt
Agrees-trans (n ∷ names) r s t (h, hs) (k, ks) = (h ∙ k, Agrees-trans names r s t hs ks)

pub AllAgree-trans :
    (names : List String) (rs ss ts : List Row)
    → AllAgree names rs ss
    → AllAgree names ss ts
    → AllAgree names rs ts
AllAgree-trans names [] [] ts h k = k
AllAgree-trans names [] (s ∷ ss) ts h k = absurd h
AllAgree-trans names (r ∷ rs) [] ts h k = absurd h
AllAgree-trans names (r ∷ rs) (s ∷ ss) [] h k = k
AllAgree-trans names (r ∷ rs) (s ∷ ss) (t ∷ ts) (h, hs) (k, ks) =
    (Agrees-trans names r s t h k, AllAgree-trans names rs ss ts hs ks)

-- What two writers of a table may assume of each other's rows of a key: ordered by numbers, and equal
-- where the order does not tell them apart.
pub record AreComparable (keys sequence columns : List String) (first second : List Row)
    : Type 0 where
  pub first_numeric : All (IsNumeric sequence) first
  pub second_numeric : All (IsNumeric sequence) second
  pub consistent :
      (k : Row)
      → All
          (λ a. All (IsConsistent sequence (updated columns) a) (rows_at keys k second))
          (rows_at keys k first)
