-- ===== src/Upsert/Keys.antt =====
-- The merge keys of `upsert_table`: when two rows have the same key, and the rows of one key.
use azure_lakehouse_pipeline.Upsert.{number_value, text_value, flag_value}
use azure_lakehouse_pipeline.Prelude.Int.{pos, negsuc}
use azure_lakehouse_pipeline.Prelude.{
  String, List, Option, Bool, ◌≡◌, str_eq, length, ◌&&◌, All, all, ◌≤◌, arith, ◌∷◌, true, map,
  false, [], sym, some, ◌∙◌, eq_iff, ap, refl, none,
}
use azure_lakehouse_pipeline.Upsert.{
  Row, Cell, eq_scalar, eval, conjunction, Scalar, coalesced, eq_bool, compared, Condition, holds,
  and_sql, all_hold, equals, of_target, of_source,
}
use azure_lakehouse_pipeline.Prelude.Int.{ℤ, eq_ℤ}
use azure_lakehouse_pipeline.Upsert.Plan.{filter}
use mathlib.Core.Path.{ap₂}
use azure_lakehouse_pipeline.Upsert.Table.{join_on}

-- SQL's `=`, as a test: NULL equals nothing.
abbrev pub same_cell : Cell → Cell → Bool
same_cell a b = coalesced (compared eq_scalar a b)

abbrev pub same_key : List String → Row → Row → Bool
same_key keys r k = all (λ name. same_cell (r name) (k name)) keys

-- The rows with the key of the row `k`; in a keyed list there is at most one.
abbrev pub rows_at : List String → Row → List Row → List Row
rows_at keys k rows = filter (λ r. same_key keys r k) rows

abbrev pub IsKeyed : List String → List Row → Type 0
IsKeyed keys rows = (k : Row) → length (rows_at keys k rows) ≤ 1

eq_bool_sound : (a b : Bool) → eq_bool a b ≡ true → a ≡ b
eq_bool_sound true b h = sym h
eq_bool_sound false b h = ground arith

eq_bool_comm : (a b : Bool) → eq_bool a b ≡ eq_bool b a
eq_bool_comm true b = ground arith
eq_bool_comm false b = ground arith

pub eq_ℤ-sound : (a b : ℤ) → eq_ℤ a b ≡ true → a ≡ b
eq_ℤ-sound (pos a) (pos b) h = ap pos (ground arith)
eq_ℤ-sound (pos a) (negsuc b) h = absurd (ground arith)
eq_ℤ-sound (negsuc a) (pos b) h = absurd (ground arith)
eq_ℤ-sound (negsuc a) (negsuc b) h = ap negsuc (ground arith)

pub eq_scalar_sound : (a b : Scalar) → eq_scalar a b ≡ true → a ≡ b
unfolding eq_scalar
eq_scalar_sound (number_value a) (number_value b) h = ap number_value (eq_ℤ-sound a b h)
eq_scalar_sound (number_value a) (text_value b) h = cc
eq_scalar_sound (number_value a) (flag_value b) h = cc
eq_scalar_sound (text_value a) (number_value b) h = cc
eq_scalar_sound (text_value a) (text_value b) h = ap text_value ((eq_iff a b).0 h)
eq_scalar_sound (text_value a) (flag_value b) h = cc
eq_scalar_sound (flag_value a) (number_value b) h = cc
eq_scalar_sound (flag_value a) (text_value b) h = cc
eq_scalar_sound (flag_value a) (flag_value b) h = ap flag_value (eq_bool_sound a b h)

pub str_eq_comm : (a b : String) → str_eq a b ≡ str_eq b a
str_eq_comm a b = ground (arith, eq_iff a b, eq_iff b a)

eq_scalar_comm : (a b : Scalar) → eq_scalar a b ≡ eq_scalar b a
unfolding eq_scalar
eq_scalar_comm (number_value a) (number_value b) = ground arith
eq_scalar_comm (number_value a) (text_value b) = refl
eq_scalar_comm (number_value a) (flag_value b) = refl
eq_scalar_comm (text_value a) (number_value b) = refl
eq_scalar_comm (text_value a) (text_value b) = str_eq_comm a b
eq_scalar_comm (text_value a) (flag_value b) = refl
eq_scalar_comm (flag_value a) (number_value b) = refl
eq_scalar_comm (flag_value a) (text_value b) = refl
eq_scalar_comm (flag_value a) (flag_value b) = eq_bool_comm a b

same_cell_sound : (a b : Cell) → same_cell a b ≡ true → a ≡ b
same_cell_sound none b h = cc
same_cell_sound (some a) none h = cc
same_cell_sound (some a) (some b) h = ap some (eq_scalar_sound a b h)

same_cell_comm : (a b : Cell) → same_cell a b ≡ same_cell b a
same_cell_comm none none = refl
same_cell_comm none (some b) = refl
same_cell_comm (some a) none = refl
same_cell_comm (some a) (some b) = eq_scalar_comm a b

pub same_key_comm : (keys : List String) (r k : Row) → same_key keys r k ≡ same_key keys k r
same_key_comm [] r k = refl
same_key_comm (key ∷ keys) r k = ap₂ ◌&&◌ (same_cell_comm (r key) (k key)) (same_key_comm keys r k)

pub both : (a b : Bool) → (a && b) ≡ true → (a ≡ true) × (b ≡ true)
both a b h = (ground arith, ground arith)

pub same_key-Agree :
    (keys : List String) (r k : Row) → same_key keys r k ≡ true → All (λ name. r name ≡ k name) keys
same_key-Agree [] r k h = tt
same_key-Agree (key ∷ keys) r k h =
    let (first, rest) = both (same_cell (r key) (k key)) (same_key keys r k) h in
    (same_cell_sound (r key) (k key) first, same_key-Agree keys r k rest)

-- Rows that agree on the keys have the same rows at their key.
pub Agree-same_key :
    (keys : List String) (r s k : Row)
    → All (λ name. r name ≡ s name) keys
    → same_key keys r k ≡ same_key keys s k
Agree-same_key [] r s k h = refl
Agree-same_key (key ∷ keys) r s k (first, rest) =
    ap₂ ◌&&◌ (ap (λ c. same_cell c (k key)) first) (Agree-same_key keys r s k rest)

pub same_key-via :
    (keys : List String) (t s k : Row)
    → same_key keys t k ≡ true
    → same_key keys t s ≡ same_key keys s k
same_key-via keys t s k h =
    Agree-same_key keys t k s (same_key-Agree keys t k h) ∙ same_key_comm keys k s

coalesced-and_sql : (a b : Option Bool) → coalesced (and_sql a b) ≡ coalesced a && coalesced b
coalesced-and_sql none none = refl
coalesced-and_sql none (some true) = refl
coalesced-and_sql none (some false) = refl
coalesced-and_sql (some true) b = refl
coalesced-and_sql (some false) b = refl

module _ (target source : Row) where
  holds-all_hold :
      (p q : Condition)
      → holds target source (all_hold p q) ≡ holds target source p && holds target source q
  unfolding eval
  holds-all_hold p q = coalesced-and_sql (eval target source p) (eval target source q)

  holds-conjunction :
      (p : Condition) (keys : List String)
      → holds target source (conjunction p (map (λ k. equals (of_target k) (of_source k)) keys))
        ≡ holds target source p && same_key keys target source
  unfolding conjunction eval
  holds-conjunction p [] = ground arith
  holds-conjunction p (key ∷ keys) =
      holds-conjunction (all_hold p (equals (of_target key) (of_source key))) keys
      ∙ ap (λ b. b && same_key keys target source)
          (holds-all_hold p (equals (of_target key) (of_source key)))
      ∙ ground arith

  -- The join condition of a MERGE is that the keys are the same.
  pub holds-join_on :
      (key : String) (keys : List String)
      → holds target source (join_on (key ∷ keys)) ≡ same_key (key ∷ keys) target source
  unfolding eval
  holds-join_on key keys = holds-conjunction (equals (of_target key) (of_source key)) keys
