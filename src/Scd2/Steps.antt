-- ===== src/Scd2/Steps.antt =====
-- transformations/gold/scd2.py: what one event adds to the windows of the replay.
use azure_lakehouse_pipeline.Upsert.{
  eq_scalar, Cell, Row, Scalar, or_sql, is_none, and_sql, null_safe_eq, not_sql, coalesced,
}
use azure_lakehouse_pipeline.Prelude.{
  Option, Bool, ◌≡◌, ℕ, none, some, false, true, ◌⊎◌, List, ◌∷◌, Bool-cases, ap, not, refl, inl,
  ◌∙◌, inr, if◌then◌else◌, sym,
}
use azure_lakehouse_pipeline.Scd2.{
  type2_start, versioned, is_delete, attribute_hash, operation, event_id, equals_text,
  non_delete_hash, delete_text, running_sum, coalesce,
}
use mathlib.Core.Path.{ap₂}

-- An event with an operation, a hash and an id.
pub record IsEvent (e : Row) : Type 0 where
  pub has_operation : (op : Scalar) × (operation e ≡ some op)
  pub has_hash : (h : Scalar) × (attribute_hash e ≡ some h)
  pub has_id : (i : Scalar) × (event_id e ≡ some i)

-- Before an event: no version is open, or the version of `r` is.
abbrev pub IsClosed : Cell → Cell → Type 0
IsClosed previous_hash previous_operation =
    (previous_hash ≡ none) ⊎ (equals_text previous_operation delete_text ≡ some true)

pub record IsOpen (r : Row) (previous_hash previous_operation : Cell) : Type 0 where
  pub open_hash : previous_hash ≡ attribute_hash r
  pub some_hash : (h : Scalar) × (attribute_hash r ≡ some h)
  pub not_deleted : equals_text previous_operation delete_text ≡ some false

pub IsEvent-cases : (e : Row) → IsEvent e → (is_delete e ≡ some true) ⊎ (is_delete e ≡ some false)
unfolding eq_scalar
IsEvent-cases e valid =
    let (op, is_op) = valid.has_operation in
    elim (Bool-cases (eq_scalar op delete_text)) [
      | inl deleted ↦ inl (ap (λ c. equals_text c delete_text) is_op ∙ ap some deleted)
      | inr kept ↦ inr (ap (λ c. equals_text c delete_text) is_op ∙ ap some kept)
    ]

or_false : (a : Bool) → or_sql (some a) (some false) ≡ some a
or_false true = refl
or_false false = refl

or_true : (b : Option Bool) → or_sql b (some true) ≡ some true
or_true none = refl
or_true (some true) = refl
or_true (some false) = refl

module _ (previous_hash previous_operation : Cell) (e : Row) where
  pub type2_start-delete :
      is_delete e ≡ some true → type2_start previous_hash previous_operation e ≡ some false
  unfolding type2_start
  type2_start-delete h = rw h refl

  or_closed :
      (a : Bool)
      → IsClosed previous_hash previous_operation
      → or_sql
          (or_sql (some (is_none previous_hash)) (some a))
          (equals_text previous_operation delete_text)
        ≡ some true
  or_closed a (inl no_hash) = rw no_hash refl
  or_closed a (inr deleted) = rw deleted (or_true (or_sql (some (is_none previous_hash)) (some a)))

  abbrev window : Option Bool → Cell → Option Bool → Option Bool
  window deleted hash after_delete = and_sql (not_sql deleted) (
      or_sql (or_sql (some (is_none hash)) (some (not (null_safe_eq (attribute_hash e) hash))))
        after_delete)

  pub type2_start-closed :
      IsClosed previous_hash previous_operation
      → is_delete e ≡ some false
      → type2_start previous_hash previous_operation e ≡ some true
  unfolding type2_start
  type2_start-closed closed h =
      ap (λ d. window d previous_hash (equals_text previous_operation delete_text)) h
      ∙ or_closed (not (null_safe_eq (attribute_hash e) previous_hash)) closed

  pub type2_start-open :
      (r : Row)
      → IsOpen r previous_hash previous_operation
      → is_delete e ≡ some false
      → type2_start previous_hash previous_operation e
        ≡ some (not (null_safe_eq (attribute_hash e) (attribute_hash r)))
  unfolding type2_start
  type2_start-open r state h =
      let (hash, is_hash) = state.some_hash in
      ap (λ d. window d previous_hash (equals_text previous_operation delete_text)) h
      ∙ ap (λ c. window (some false) c (equals_text previous_operation delete_text)) state.open_hash
      ∙ ap (window (some false) (attribute_hash r)) state.not_deleted
      ∙ ap
          (λ b.
            or_sql
              (or_sql (some b) (some (not (null_safe_eq (attribute_hash e) (attribute_hash r)))))
              (some false))
          (ap is_none is_hash)
      ∙ or_false (not (null_safe_eq (attribute_hash e) (attribute_hash r)))

  pub non_delete_hash-delete :
      is_delete e ≡ some true → non_delete_hash e previous_hash ≡ previous_hash
  non_delete_hash-delete h = rw h refl

  pub non_delete_hash-kept :
      IsEvent e → is_delete e ≡ some false → non_delete_hash e previous_hash ≡ attribute_hash e
  non_delete_hash-kept valid h =
      let (hash, is_hash) = valid.has_hash in
      ap (λ d. coalesce (if coalesced (not_sql d) then attribute_hash e else none) previous_hash) h
      ∙ ap (λ c. coalesce c previous_hash) is_hash
      ∙ sym is_hash

  pub versioned-event :
      (number : Option ℕ) (es : List Row) {start : Option Bool} {hash : Cell} {next : Option ℕ}
      → type2_start previous_hash previous_operation e ≡ start
      → non_delete_hash e previous_hash ≡ hash
      → running_sum number start ≡ next
      → versioned previous_hash previous_operation number (e ∷ es)
        ≡ record { event = e; is_type2_start = start; version_number = next }
          ∷ versioned hash (operation e) next es
  unfolding versioned
  versioned-event number es {start} h same_hash same_number =
      ap
        (λ s.
          record { event = e; is_type2_start = s; version_number = running_sum number s }
          ∷ versioned (non_delete_hash e previous_hash) (operation e) (running_sum number s) es)
        h
      ∙ ap₂
          (λ c n.
            record { event = e; is_type2_start = start; version_number = n }
            ∷ versioned c (operation e) n es)
          same_hash same_number
