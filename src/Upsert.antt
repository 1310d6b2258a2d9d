-- ===== src/Upsert.antt =====
-- adapters/lakehouse.py: the rows of a data frame, and the SQL conditions that `upsert_table` writes.
pub mod Plan
pub mod Table
pub mod Newer
pub mod Keys
pub mod Names
pub mod Rows
pub mod Soft
pub mod Newest
pub mod Order
pub mod Later
pub mod Agree
pub mod Converge
pub mod Values
mod Tests
pub mod Current
use Prim.Native.Nat.{Ordering}
use Prim.Native.String.{compare}
use azure_lakehouse_pipeline.Prelude.{
  Option, Bool, List, String, false, none, not, some, ◌∷◌, [], true, str_eq, ◌++◌, ◌&&◌,
}
use azure_lakehouse_pipeline.Prelude.Int.{ℤ, eq_ℤ, ltb_ℤ}

-- The value of a column; a timestamp is its number of microseconds, and NULL is `none`.
pub data Scalar : Type 0 where
  number_value : ℤ → Scalar
  text_value : String → Scalar
  flag_value : Bool → Scalar

abbrev pub Cell : Type 0
Cell = Option Scalar

abbrev pub Row : Type 0
Row = String → Cell

pub record Frame : Type 0 where
  pub columns : List String
  pub rows : List Row

-- A column of either side of a MERGE.
pub data Operand : Type 0 where
  of_target of_source : String → Operand

pub data Condition : Type 0 where
  is_null : Operand → Condition
  is_greater : Operand → Operand → Condition
  equals : Operand → Operand → Condition
  null_safe_equals : Operand → Operand → Condition
  equals_value : Operand → Scalar → Condition
  -- `coalesce(operand, false)`, and a Boolean column as a condition.
  coalesce_false : Operand → Condition
  is_flag : Operand → Condition
  all_hold : Condition → Condition → Condition
  one_holds : Condition → Condition → Condition
  negated : Condition → Condition

-- Names, values and tests of cells. The two sides of a comparison have the type of the column.
abbrev pub eq_bool : Bool → Bool → Bool
eq_bool true b = b
eq_bool false b = not b

unfoldable pub eq_scalar : Scalar → Scalar → Bool
eq_scalar (number_value a) (number_value b) = eq_ℤ a b
eq_scalar (text_value a) (text_value b) = str_eq a b
eq_scalar (flag_value a) (flag_value b) = eq_bool a b
eq_scalar _ _ = false

unfoldable pub gt_scalar : Scalar → Scalar → Bool
gt_scalar (number_value a) (number_value b) = ltb_ℤ b a
gt_scalar (text_value a) (text_value b) = elim (compare a b) [ Ordering.gt ↦ true | _ ↦ false ]
gt_scalar (flag_value a) (flag_value b) = a && not b
gt_scalar _ _ = false

-- A comparison with NULL is NULL.
abbrev pub compared : (Scalar → Scalar → Bool) → Cell → Cell → Option Bool
compared test none b = none
compared test (some a) none = none
compared test (some a) (some b) = some (test a b)

unfoldable pub null_safe_eq : Cell → Cell → Bool
unfolding eq_scalar
null_safe_eq none none = true
null_safe_eq none (some b) = false
null_safe_eq (some a) none = false
null_safe_eq (some a) (some b) = eq_scalar a b

abbrev pub is_none : Cell → Bool
is_none none = true
is_none (some a) = false

abbrev pub flag_of : Cell → Option Bool
flag_of (some (flag_value b)) = some b
flag_of _ = none

abbrev pub coalesced : Option Bool → Bool
coalesced none = false
coalesced (some b) = b

-- The three-valued connectives of SQL.
abbrev pub and_sql : Option Bool → Option Bool → Option Bool
and_sql (some false) b = some false
and_sql (some true) b = b
and_sql none (some false) = some false
and_sql none _ = none

abbrev pub or_sql : Option Bool → Option Bool → Option Bool
or_sql (some true) b = some true
or_sql (some false) b = b
or_sql none (some true) = some true
or_sql none _ = none

abbrev pub not_sql : Option Bool → Option Bool
not_sql none = none
not_sql (some b) = some (not b)

module _ (target source : Row) where
  abbrev pub operand : Operand → Cell
  operand (of_target name) = target name
  operand (of_source name) = source name

  unfoldable pub eval : Condition → Option Bool
  unfolding eq_scalar gt_scalar null_safe_eq
  eval (is_null a) = some (is_none (operand a))
  eval (is_greater a b) = compared gt_scalar (operand a) (operand b)
  eval (equals a b) = compared eq_scalar (operand a) (operand b)
  eval (null_safe_equals a b) = some (null_safe_eq (operand a) (operand b))
  eval (equals_value a v) = compared eq_scalar (operand a) (some v)
  eval (coalesce_false a) = some (coalesced (flag_of (operand a)))
  eval (is_flag a) = flag_of (operand a)
  eval (all_hold p q) = and_sql (eval p) (eval q)
  eval (one_holds p q) = or_sql (eval p) (eval q)
  eval (negated p) = not_sql (eval p)

  -- A clause applies where its condition is true, not where it is false or NULL.
  abbrev pub holds : Condition → Bool
  holds p = coalesced (eval p)

-- `" AND ".join(...)` and `" OR ".join(...)` of at least one condition.
unfoldable pub conjunction : Condition → List Condition → Condition
conjunction p [] = p
conjunction p (q ∷ qs) = conjunction (all_hold p q) qs

unfoldable pub disjunction : Condition → List Condition → Condition
disjunction p [] = p
disjunction p (q ∷ qs) = disjunction (one_holds p q) qs

-- The empty string is no condition.
abbrev pub joined : (Condition → List Condition → Condition) → List Condition → Option Condition
joined join [] = none
joined join (p ∷ ps) = some (join p ps)

-- `_lexicographic_newer_condition`.
abbrev pub greater : String → Condition
greater name =
    all_hold (negated (is_null (of_source name)))
      (one_holds (is_null (of_target name)) (is_greater (of_source name) (of_target name)))

abbrev pub same_column : String → Condition
same_column name = null_safe_equals (of_source name) (of_target name)

abbrev pub after_prefix : Option Condition → Condition → Condition
after_prefix none p = p
after_prefix (some prefix) p = all_hold prefix p

unfoldable pub newer_clauses : List Condition → List String → List Condition
unfolding conjunction
newer_clauses equal_prefix [] = []
newer_clauses equal_prefix (name ∷ names) =
    after_prefix (joined conjunction equal_prefix) (greater name)
    ∷ newer_clauses (equal_prefix ++ same_column name ∷ []) names

unfoldable pub lexicographic_newer_condition : List String → Option Condition
unfolding newer_clauses disjunction
lexicographic_newer_condition names = joined disjunction (newer_clauses [] names)
