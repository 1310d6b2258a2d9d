-- ===== src/Upsert/Later.antt =====
-- The later of rows of one key under the order of sequences, taken in either order.
use azure_lakehouse_pipeline.Prelude.{
  List, String, if◌then◌else◌, ◌∷◌, All, ◌≡◌, [], true, false, refl, arith, Bool-cases, length, inl,
  ◌≤◌, sym, ap, inr, ◌∙◌, All-of, All-map,
}
use azure_lakehouse_pipeline.Upsert.{Row}
use azure_lakehouse_pipeline.Upsert.Order.{IsNumeric, is_newer_trans, is_newer_asym}
use azure_lakehouse_pipeline.Upsert.Newer.{is_newer}
use azure_lakehouse_pipeline.Dict.{member}
use azure_lakehouse_pipeline.Upsert.Plan.{assign}
use azure_lakehouse_pipeline.Dict.Laws.{All-member}
use mathlib.Core.Path.{subst}

-- Rows, and lists of rows, that agree on the named columns.
abbrev pub Agrees : List String → Row → Row → Type 0
Agrees names r s = All (λ n. r n ≡ s n) names

abbrev pub AllAgree : List String → List Row → List Row → Type 0
AllAgree names [] [] = Unit
AllAgree names [] (s ∷ ss) = ⊥
AllAgree names (r ∷ rs) [] = ⊥
AllAgree names (r ∷ rs) (s ∷ ss) = Agrees names r s × AllAgree names rs ss

pub Agrees-refl : (names : List String) (r : Row) → Agrees names r r
Agrees-refl names r = All-of names (λ n. refl)

pub Agrees-subset :
    (ks names : List String) (r s : Row)
    → All (λ k. member k names ≡ true) ks
    → Agrees names r s
    → Agrees ks r s
Agrees-subset ks names r s m h = All-map (λ k mk. All-member (λ n. r n ≡ s n) k names h mk) ks m

-- The columns that an update assigns agree with the source row.
pub assign-Agrees :
    (names ks : List String) (source target : Row)
    → All (λ k. member k names ≡ true) ks
    → Agrees ks (assign names source target) source
assign-Agrees names ks source target m = All-map (λ k mk. ground (arith, mk)) ks m

-- What remains of two rows of one key: the later one, the first where neither is.
abbrev pub later_row : List String → Row → Row → Row
later_row sequence t s = if is_newer sequence s t then s else t

abbrev pub choose : List String → List Row → List Row → List Row
choose sequence [] sources = sources
choose sequence (t ∷ ts) [] = t ∷ ts
choose sequence (t ∷ ts) (s ∷ ss) = later_row sequence t s ∷ ts

-- Rows that the order does not tell apart carry the same values.
abbrev pub IsConsistent : List String → List String → Row → Row → Type 0
IsConsistent sequence names a b =
    is_newer sequence a b ≡ false → is_newer sequence b a ≡ false → Agrees names a b

pub Agrees-along :
    (names : List String) {r r' s s' : Row}
    → r ≡ r'
    → s ≡ s'
    → Agrees names r' s'
    → Agrees names r s
Agrees-along names {r'} {s} e f h =
    subst (λ x. Agrees names x s) (sym e) (subst (λ y. Agrees names r' y) (sym f) h)

module _ (sequence names : List String) where
  pub later_row-newer : (t s : Row) → is_newer sequence s t ≡ true → later_row sequence t s ≡ s
  later_row-newer t s h = rw h refl

  pub later_row-older : (t s : Row) → is_newer sequence s t ≡ false → later_row sequence t s ≡ t
  later_row-older t s h = rw h refl

  later_row_pair :
      (a b : Row)
      → IsNumeric sequence a
      → IsNumeric sequence b
      → IsConsistent sequence names a b
      → Agrees names (later_row sequence a b) (later_row sequence b a)
  later_row_pair a b na nb same = elim (Bool-cases (is_newer sequence b a)) [
    | inl newer ↦
        Agrees-along names (later_row-newer a b newer)
          (later_row-older b a (is_newer_asym sequence b a nb na newer)) (Agrees-refl names b)
    | inr other ↦ elim (Bool-cases (is_newer sequence a b)) [
      | inl older ↦
          Agrees-along names (later_row-older a b other) (later_row-newer b a older)
            (Agrees-refl names a)
      | inr neither ↦
          Agrees-along names (later_row-older a b other) (later_row-older b a neither)
            (same neither other)
    ]
  ]

  -- A row that is not newer than `t` is not newer than a row that is.
  not_newer :
      (t a b : Row)
      → IsNumeric sequence t
      → IsNumeric sequence a
      → IsNumeric sequence b
      → is_newer sequence a t ≡ true
      → is_newer sequence b t ≡ false
      → is_newer sequence b a ≡ false
  not_newer t a b nt na nb h k = elim (Bool-cases (is_newer sequence b a)) [
    | inl newer ↦
        let above = is_newer_trans sequence b a t nb na nt newer h in absurd (ground (arith, above))
    | inr other ↦ other
  ]

  later_row_converge :
      (t a b : Row)
      → IsNumeric sequence t
      → IsNumeric sequence a
      → IsNumeric sequence b
      → IsConsistent sequence names a b
      → Agrees names
          (later_row sequence (later_row sequence t a) b)
          (later_row sequence (later_row sequence t b) a)
  later_row_converge t a b nt na nb same = elim (Bool-cases (is_newer sequence a t)) [
    | inl at ↦ elim (Bool-cases (is_newer sequence b t)) [
      | inl bt ↦
          Agrees-along names (ap (λ r. later_row sequence r b) (later_row-newer t a at))
            (ap (λ r. later_row sequence r a) (later_row-newer t b bt))
            (later_row_pair a b na nb same)
      | inr not_bt ↦
          Agrees-along names
            (ap (λ r. later_row sequence r b) (later_row-newer t a at)
              ∙ later_row-older a b (not_newer t a b nt na nb at not_bt))
            (ap (λ r. later_row sequence r a) (later_row-older t b not_bt) ∙ later_row-newer t a at)
            (Agrees-refl names a)
    ]
    | inr not_at ↦ elim (Bool-cases (is_newer sequence b t)) [
      | inl bt ↦
          Agrees-along names
            (ap (λ r. later_row sequence r b) (later_row-older t a not_at) ∙ later_row-newer t b bt)
            (ap (λ r. later_row sequence r a) (later_row-newer t b bt)
              ∙ later_row-older b a (not_newer t b a nt nb na bt not_at))
            (Agrees-refl names b)
      | inr not_bt ↦
          Agrees-along names
            (ap (λ r. later_row sequence r b) (later_row-older t a not_at)
              ∙ later_row-older t b not_bt)
            (ap (λ r. later_row sequence r a) (later_row-older t b not_bt)
              ∙ later_row-older t a not_at)
            (Agrees-refl names t)
    ]
  ]

  -- The same on lists of at most one row.
  pub choose_converge :
      (targets first second : List Row)
      → length targets ≤ 1
      → length first ≤ 1
      → length second ≤ 1
      → All (IsNumeric sequence) targets
      → All (IsNumeric sequence) first
      → All (IsNumeric sequence) second
      → All (λ a. All (IsConsistent sequence names a) second) first
      → AllAgree names
          (choose sequence (choose sequence targets first) second)
          (choose sequence (choose sequence targets second) first)
  choose_converge [] [] [] h k l nt na nb same = tt
  choose_converge [] (a ∷ []) [] h k l nt na nb same = (Agrees-refl names a, tt)
  choose_converge [] [] (b ∷ []) h k l nt na nb same = (Agrees-refl names b, tt)
  choose_converge [] (a ∷ []) (b ∷ []) h k l nt (na, _) (nb, _) ((same, _), _) =
      (later_row_pair a b na nb same, tt)
  choose_converge (t ∷ []) [] [] h k l nt na nb same = (Agrees-refl names t, tt)
  choose_converge (t ∷ []) (a ∷ []) [] h k l nt na nb same =
      (Agrees-refl names (later_row sequence t a), tt)
  choose_converge (t ∷ []) [] (b ∷ []) h k l nt na nb same =
      (Agrees-refl names (later_row sequence t b), tt)
  choose_converge (t ∷ []) (a ∷ []) (b ∷ []) h k l (nt, _) (na, _) (nb, _) ((same, _), _) =
      (later_row_converge t a b nt na nb same, tt)
  choose_converge (t ∷ u ∷ ts) first second h k l nt na nb same = absurd (omega (arith, h))
  choose_converge [] (a ∷ u ∷ ts) second h k l nt na nb same = absurd (omega (arith, k))
  choose_converge (t ∷ []) (a ∷ u ∷ ts) second h k l nt na nb same = absurd (omega (arith, k))
  choose_converge [] [] (b ∷ u ∷ ts) h k l nt na nb same = absurd (omega (arith, l))
  choose_converge [] (a ∷ []) (b ∷ u ∷ ts) h k l nt na nb same = absurd (omega (arith, l))
  choose_converge (t ∷ []) [] (b ∷ u ∷ ts) h k l nt na nb same = absurd (omega (arith, l))
  choose_converge (t ∷ []) (a ∷ []) (b ∷ u ∷ ts) h k l nt na nb same = absurd (omega (arith, l))
