-- ===== src/Upsert/Names.antt =====
-- The sets of column names of `upsert_table`, and when two rows differ in a column.
use Prim.Native.Nat.{Ordering}
use Prim.Native.String.{compare}
use text.Mathlib.Text.{is_eq}
use azure_lakehouse_pipeline.Upsert.{
  number_value, text_value, flag_value, gt_scalar, null_safe_eq, Cell, eq_scalar, Row, Scalar,
}
use azure_lakehouse_pipeline.Prelude.{
  true, String, false, Bool, List, all, ◌≡◌, All, str_eq, ◌++◌, ◌&&◌, some, arith, ◌∷◌, refl, not,
  ◌||◌, none, Bool-cases, [], inl, eq_iff, ◌∙◌, inr, ap, sym,
}
use azure_lakehouse_pipeline.Upsert.Table.{insert_name, difference, same_cells}
use azure_lakehouse_pipeline.Upsert.Newer.{is_newer, newer_cell}
use azure_lakehouse_pipeline.Dict.{member}
use azure_lakehouse_pipeline.Upsert.Keys.{str_eq_comm, both}

member-insert_name :
    (k x : String) (ys : List String) → member k (insert_name x ys) ≡ str_eq x k || member k ys
unfolding insert_name
member-insert_name k x [] = refl
member-insert_name k x (y ∷ ys) = ground (arith, eq_iff x y, member-insert_name k x ys)

pub member-difference :
    (k : String) (xs ys : List String)
    → member k (difference xs ys) ≡ member k xs && not (member k ys)
unfolding difference
member-difference k [] ys = refl
member-difference k (x ∷ xs) ys =
    ground (arith, eq_iff x k, member-insert_name k x (difference xs ys), member-difference k xs ys)

pub member-append :
    (k : String) (xs ys : List String) → member k (xs ++ ys) ≡ member k xs || member k ys
member-append k [] ys = refl
member-append k (x ∷ xs) ys = ground (arith, member-append k xs ys)

-- Where a test holds of all the names, it holds of each.
pub all-member :
    (p : String → Bool) (k : String) (names : List String)
    → all p names ≡ true
    → member k names ≡ true
    → p k ≡ true
all-member p k [] h m = cc
all-member p k (n ∷ names) h m = elim (Bool-cases (str_eq n k)) [
  | inl same ↦ ap p (sym ((eq_iff n k).0 same)) ∙ (both (p n) (all p names) h).0
  | inr other ↦ all-member p k names (both (p n) (all p names) h).1 (ground arith)
]

pub all-subset :
    (p : String → Bool) (ks names : List String)
    → All (λ k. member k names ≡ true) ks
    → all p names ≡ true
    → all p ks ≡ true
all-subset p [] names m h = refl
all-subset p (k ∷ ks) names (first, m) h =
    rw (all-member p k names h first) (all-subset p ks names m h)

gt-is_eq : (o : Ordering) → (elim o [ Ordering.gt ↦ true | _ ↦ false ]) ≡ true → is_eq o ≡ false
gt-is_eq Ordering.lt h = refl
gt-is_eq Ordering.eq h = cc
gt-is_eq Ordering.gt h = refl

-- A value is not greater than one that it equals.
gt_scalar-eq_scalar : (a b : Scalar) → gt_scalar a b ≡ true → eq_scalar b a ≡ false
unfolding gt_scalar eq_scalar
gt_scalar-eq_scalar (number_value a) (number_value b) h = ground arith
gt_scalar-eq_scalar (number_value a) (text_value b) h = cc
gt_scalar-eq_scalar (number_value a) (flag_value b) h = cc
gt_scalar-eq_scalar (text_value a) (number_value b) h = cc
gt_scalar-eq_scalar (text_value a) (text_value b) h = str_eq_comm b a ∙ gt-is_eq (compare a b) h
gt_scalar-eq_scalar (text_value a) (flag_value b) h = cc
gt_scalar-eq_scalar (flag_value a) (number_value b) h = cc
gt_scalar-eq_scalar (flag_value a) (text_value b) h = cc
gt_scalar-eq_scalar (flag_value true) (flag_value false) h = refl
gt_scalar-eq_scalar (flag_value true) (flag_value true) h = cc
gt_scalar-eq_scalar (flag_value false) (flag_value b) h = cc

pub newer_cell-null_safe_eq : (a b : Cell) → newer_cell a b ≡ true → null_safe_eq b a ≡ false
unfolding null_safe_eq
newer_cell-null_safe_eq none b h = cc
newer_cell-null_safe_eq (some a) none h = refl
newer_cell-null_safe_eq (some a) (some b) h = gt_scalar-eq_scalar a b h

pub is_newer-same_cells :
    (names : List String) (target source : Row)
    → is_newer names source target ≡ true
    → same_cells names target source ≡ false
unfolding is_newer
is_newer-same_cells [] target source h = cc
is_newer-same_cells (name ∷ names) target source h =
    elim (Bool-cases (newer_cell (source name) (target name))) [
      | inl newer ↦ rw (newer_cell-null_safe_eq (source name) (target name) newer) refl
      | inr other ↦ let rest = is_newer-same_cells names target source in ground (arith, rest)
    ]
