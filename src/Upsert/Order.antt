-- ===== src/Upsert/Order.antt =====
-- The order of sequences whose columns hold numbers (timestamps, integers) or NULL.
use azure_lakehouse_pipeline.Upsert.{
  number_value, text_value, flag_value, Cell, eq_scalar, gt_scalar, null_safe_eq, Scalar, Row,
}
use azure_lakehouse_pipeline.Prelude.Int.{pos, negsuc}
use azure_lakehouse_pipeline.Upsert.Newer.{is_newer, newer_cell}
use azure_lakehouse_pipeline.Prelude.{
  List, ◌≡◌, Bool, String, true, ◌∷◌, All, arith, some, false, inl, ◌⊎◌, eq_refl, ap, Bool-cases,
  none, refl, ◌||◌, inr, ◌∙◌, ◌&&◌, sym, [],
}
use mathlib.Core.Path.{ap₂}
use azure_lakehouse_pipeline.Upsert.Keys.{eq_scalar_sound}
use azure_lakehouse_pipeline.Upsert.Names.{newer_cell-null_safe_eq}

abbrev pub is_number : Cell → Bool
is_number none = true
is_number (some (number_value n)) = true
is_number (some (text_value s)) = false
is_number (some (flag_value b)) = false

abbrev pub IsNumeric : List String → Row → Type 0
IsNumeric names r = All (λ n. is_number (r n) ≡ true) names

pub null_safe_eq_sound : (a b : Cell) → null_safe_eq a b ≡ true → a ≡ b
unfolding null_safe_eq
null_safe_eq_sound none none h = refl
null_safe_eq_sound none (some b) h = cc
null_safe_eq_sound (some a) none h = cc
null_safe_eq_sound (some a) (some b) h = ap some (eq_scalar_sound a b h)

newer_cell_trans :
    (a b c : Cell)
    → is_number a ≡ true
    → is_number b ≡ true
    → is_number c ≡ true
    → newer_cell a b ≡ true
    → newer_cell b c ≡ true
    → newer_cell a c ≡ true
unfolding gt_scalar
newer_cell_trans none b c na nb nc h k = cc
newer_cell_trans (some a) none c na nb nc h k = cc
newer_cell_trans (some a) (some b) none na nb nc h k = refl
newer_cell_trans (some (number_value a)) (some (number_value b)) (some (number_value c)) na nb nc h
      k =
    ground arith
newer_cell_trans (some (text_value a)) (some b) (some c) na nb nc h k = cc
newer_cell_trans (some (flag_value a)) (some b) (some c) na nb nc h k = cc
newer_cell_trans (some (number_value a)) (some (text_value b)) (some c) na nb nc h k = cc
newer_cell_trans (some (number_value a)) (some (flag_value b)) (some c) na nb nc h k = cc
newer_cell_trans (some (number_value a)) (some (number_value b)) (some (text_value c)) na nb nc h
      k =
    cc
newer_cell_trans (some (number_value a)) (some (number_value b)) (some (flag_value c)) na nb nc h
      k =
    cc

newer_cell_asym :
    (a b : Cell)
    → is_number a ≡ true
    → is_number b ≡ true
    → newer_cell a b ≡ true
    → newer_cell b a ≡ false
unfolding gt_scalar
newer_cell_asym none b na nb h = cc
newer_cell_asym (some a) none na nb h = refl
newer_cell_asym (some (number_value a)) (some (number_value b)) na nb h = ground arith
newer_cell_asym (some (number_value a)) (some (text_value b)) na nb h = cc
newer_cell_asym (some (number_value a)) (some (flag_value b)) na nb h = cc
newer_cell_asym (some (text_value a)) (some b) na nb h = cc
newer_cell_asym (some (flag_value a)) (some b) na nb h = cc

newer_cell_irrefl : (a : Cell) → is_number a ≡ true → newer_cell a a ≡ false
newer_cell_irrefl a na = elim (Bool-cases (newer_cell a a)) [
  | inl newer ↦ newer_cell_asym a a na na newer
  | inr other ↦ other
]

-- A newer row is newer in the first column, or equal there and newer in the rest.
is_newer-cases :
    (name : String) (names : List String) (s t : Row)
    → is_newer (name ∷ names) s t ≡ true
    → (newer_cell (s name) (t name) ≡ true) ⊎ ((s name ≡ t name) × (is_newer names s t ≡ true))
unfolding is_newer
is_newer-cases name names s t h = elim (Bool-cases (newer_cell (s name) (t name))) [
  | inl newer ↦ inl newer
  | inr other ↦ inr (null_safe_eq_sound (s name) (t name) (ground arith), ground arith)
]

is_newer-first :
    (name : String) (names : List String) (s t : Row)
    → newer_cell (s name) (t name) ≡ true
    → is_newer (name ∷ names) s t ≡ true
unfolding is_newer
is_newer-first name names s t h = rw h refl

pub eq_scalar_refl : (a : Scalar) → eq_scalar a a ≡ true
unfolding eq_scalar
eq_scalar_refl (number_value (pos n)) = ground arith
eq_scalar_refl (number_value (negsuc n)) = ground arith
eq_scalar_refl (text_value s) = eq_refl s
eq_scalar_refl (flag_value true) = refl
eq_scalar_refl (flag_value false) = refl

null_safe_eq_refl : (a : Cell) → null_safe_eq a a ≡ true
unfolding null_safe_eq
null_safe_eq_refl none = refl
null_safe_eq_refl (some a) = eq_scalar_refl a

is_newer-rest :
    (name : String) (names : List String) (s t : Row)
    → s name ≡ t name
    → is_newer names s t ≡ true
    → is_newer (name ∷ names) s t ≡ true
unfolding is_newer
is_newer-rest name names s t e h =
    let same : null_safe_eq (s name) (t name) ≡ true =
      ap (λ c. null_safe_eq c (t name)) e ∙ null_safe_eq_refl (t name) in
    ground (arith, h, same)

pub is_newer_trans :
    (names : List String) (r s t : Row)
    → IsNumeric names r
    → IsNumeric names s
    → IsNumeric names t
    → is_newer names r s ≡ true
    → is_newer names s t ≡ true
    → is_newer names r t ≡ true
unfolding is_newer
is_newer_trans [] r s t nr ns nt h k = cc
is_newer_trans (n ∷ names) r s t (nr, nrs) (ns, nss) (nt, nts) h k =
    elim (is_newer-cases n names r s h) [
      | inl a ↦ elim (is_newer-cases n names s t k) [
        | inl b ↦ is_newer-first n names r t (newer_cell_trans (r n) (s n) (t n) nr ns nt a b)
        | inr (e, b) ↦ is_newer-first n names r t (ap (newer_cell (r n)) (sym e) ∙ a)
      ]
      | inr (e, a) ↦ elim (is_newer-cases n names s t k) [
        | inl b ↦ is_newer-first n names r t (ap (λ c. newer_cell c (t n)) e ∙ b)
        | inr (f, b) ↦
            is_newer-rest n names r t (e ∙ f) (is_newer_trans names r s t nrs nss nts a b)
      ]
    ]

pub is_newer_asym :
    (names : List String) (s t : Row)
    → IsNumeric names s
    → IsNumeric names t
    → is_newer names s t ≡ true
    → is_newer names t s ≡ false
unfolding is_newer
is_newer_asym [] s t ns nt h = refl
is_newer_asym (n ∷ names) s t (ns, nss) (nt, nts) h = elim (is_newer-cases n names s t h) [
  | inl a ↦ rw (newer_cell_asym (s n) (t n) ns nt a, newer_cell-null_safe_eq (s n) (t n) a) refl
  | inr (e, a) ↦
      rw
        (
          ap (λ c. newer_cell c (s n)) (sym e) ∙ newer_cell_irrefl (s n) ns,
          is_newer_asym names s t nss nts a,
        )
        (ground arith)
]

-- The order looks at its own columns only.
pub is_newer-Agree :
    (names : List String) (s r t u : Row)
    → All (λ n. s n ≡ r n) names
    → All (λ n. t n ≡ u n) names
    → is_newer names s t ≡ is_newer names r u
unfolding is_newer
is_newer-Agree [] s r t u h k = refl
is_newer-Agree (n ∷ names) s r t u (h, hs) (k, ks) =
    ap₂ ◌||◌ (ap₂ newer_cell h k)
      (ap₂ ◌&&◌ (ap₂ null_safe_eq h k) (is_newer-Agree names s r t u hs ks))
