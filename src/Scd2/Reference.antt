-- ===== src/Scd2/Reference.antt =====
-- transformations/gold/scd2.py: the replay of one entity against the reference.
use azure_lakehouse_pipeline.Upsert.{eq_scalar, Cell, Scalar, Row, coalesced, and_sql, not_sql}
use azure_lakehouse_pipeline.Prelude.{
  Option, List, ℕ, Bool, All, ◌≡◌, ◌∷◌, ◌≤◌, [], some, false, true, ap, ◌∙◌, none, arith, refl, inl,
  inr,
}
use azure_lakehouse_pipeline.Scd2.{
  versioned, VersionedEvent, DimensionOptions, non_delete_hash, running_sum, event_id, same_version,
  operation, type2_start, is_positive,
}
use azure_lakehouse_pipeline.Scd2.Replay.{replay_entity, sequential, is_start}
use azure_lakehouse_pipeline.Scd2.Numbers.{as_number, running_sum-start}
use azure_lakehouse_pipeline.Dict.{member}
use azure_lakehouse_pipeline.Scd2.Steps.{IsEvent, IsEvent-cases, type2_start-delete}
use azure_lakehouse_pipeline.Scd2.Local.{IsHistory, IsStartTyped, select_starts-local_rows}
use azure_lakehouse_pipeline.Upsert.Keys.{same_cell}
use azure_lakehouse_pipeline.Upsert.Order.{eq_scalar_refl}
use azure_lakehouse_pipeline.Scd2.Sequential.{windowed_sequential}
use mathlib.Core.Path.{ap₂}

-- No event id is there twice.
abbrev pub IsUniqueIds : List Row → Type 0
IsUniqueIds [] = Unit
IsUniqueIds (e ∷ es) = All (λ f. same_cell (event_id e) (event_id f) ≡ false) es × IsUniqueIds es

All-versioned :
    (P : Row → Type 0) (ph po : Cell) (number : Option ℕ) (es : List Row)
    → All P es
    → All (λ w. P w.event) (versioned ph po number es)
unfolding versioned
All-versioned P ph po number [] h = tt
All-versioned P ph po number (e ∷ es) (first, rest) = (
  first,
  All-versioned P (non_delete_hash e ph) (operation e) (running_sum number (type2_start ph po e)) es
      rest,
)

running_sum-le :
    (number : Option ℕ) (start : Option Bool)
    → as_number number ≤ as_number (running_sum number start)
running_sum-le none none = omega arith
running_sum-le none (some b) = omega arith
running_sum-le (some n) none = omega arith
running_sum-le (some n) (some b) = omega arith

coalesced-true : (b : Option Bool) → coalesced b ≡ true → b ≡ some true
coalesced-true none h = cc
coalesced-true (some b) h = ap some h

start_above :
    (bound number : Option ℕ) (start : Option Bool)
    → as_number bound ≤ as_number number
    → coalesced start ≡ true
    → same_version bound (running_sum number start) ≡ false
start_above bound number none h k = cc
start_above bound number (some false) h k = cc
start_above none none (some true) h k = refl
start_above none (some n) (some true) h k = refl
start_above (some m) none (some true) h k = ground arith
start_above (some m) (some n) (some true) h k = ground arith

-- A later start has a later version.
starts-above :
    (bound : Option ℕ) (ph po : Cell) (number : Option ℕ) (es : List Row)
    → as_number bound ≤ as_number number
    → All
        (λ w. is_start w ≡ true → same_version bound w.version_number ≡ false)
        (versioned ph po number es)
unfolding versioned
starts-above bound ph po number [] h = tt
starts-above bound ph po number (e ∷ es) h = (
  λ start. start_above bound number (type2_start ph po e) h start,
  starts-above bound (non_delete_hash e ph) (operation e) (running_sum number (type2_start ph po e))
      es (omega (arith, h, running_sum-le number (type2_start ph po e))),
)

All-both {κ} :
    (P Q : VersionedEvent → Type κ) (vs : List VersionedEvent)
    → All P vs
    → All Q vs
    → All (λ v. P v × Q v) vs
All-both P Q [] h k = tt
All-both P Q (v ∷ vs) (h, hs) (k, ks) = ((h, k), All-both P Q vs hs ks)

same_cell_refl : (c : Cell) (i : Scalar) → c ≡ some i → same_cell c c ≡ true
unfolding eq_scalar
same_cell_refl c i h = ap (λ x. same_cell x x) h ∙ eq_scalar_refl i

versioned-IsStartTyped :
    (ph po : Cell) (number : Option ℕ) (e : Row)
    → IsEvent e
    → IsStartTyped (record {
      event = e;
      is_type2_start = type2_start ph po e;
      version_number = running_sum number (type2_start ph po e);
    })
versioned-IsStartTyped ph po number e valid start =
    let is_started = coalesced-true (type2_start ph po e) start in
    let version = ap (running_sum number) is_started ∙ running_sum-start number in
    let (id, is_id) = valid.has_id in
    elim (IsEvent-cases e valid) [
      | inl deleted ↦
          let stopped = type2_start-delete ph po e deleted in
          absurd (ground (arith, is_started, stopped))
      | inr kept ↦ (
        ap₂ (λ d n. coalesced (and_sql (not_sql d) (is_positive n))) kept version ∙ ground arith,
        ap (λ n. same_version n n) version ∙ ground arith,
        same_cell_refl (event_id e) id is_id,
      )
    ]

versioned-IsHistory :
    (ph po : Cell) (number : Option ℕ) (es : List Row)
    → All IsEvent es
    → IsUniqueIds es
    → IsHistory (versioned ph po number es)
unfolding versioned
versioned-IsHistory ph po number [] valid unique = tt
versioned-IsHistory ph po number (e ∷ es) (first, valid) (apart, unique) =
    let start = type2_start ph po e in
    let later = versioned (non_delete_hash e ph) (operation e) (running_sum number start) es in
    (
      versioned-IsStartTyped ph po number e first,
      All-both (λ w. same_cell (event_id e) (event_id w.event) ≡ false)
          (λ w.
            is_start w ≡ true → same_version (running_sum number start) w.version_number ≡ false)
          later
          (All-versioned (λ f. same_cell (event_id e) (event_id f) ≡ false) (non_delete_hash e ph)
            (operation e) (running_sum number start) es apart)
          (starts-above (running_sum number start) (non_delete_hash e ph) (operation e)
            (running_sum number start) es (omega arith)),
      versioned-IsHistory (non_delete_hash e ph) (operation e) (running_sum number start) es valid
          unique,
    )

-- For the events of one entity in their order, each with an operation, a hash and an id, the ids
-- distinct, and a Type 2 hash that is not among the Type 1 columns, the rows that the windows and the
-- join select are exactly those of one pass over the events: a DELETE closes the open version at its
-- time and marks it as deleted, an event with the hash of the open version refreshes its Type 1
-- columns, an event with another hash closes it at its time and opens the next one, and the version
-- that is open at the end is the current one.
pub replay_entity-sequential :
    (options : DimensionOptions) (es : List Row)
    → member "attribute_hash" options.type1_columns ≡ false
    → All IsEvent es
    → IsUniqueIds es
    → replay_entity options es ≡ sequential options none 0 es
unfolding replay_entity
replay_entity-sequential options es type2 valid unique =
    select_starts-local_rows options (versioned none none none es)
      (versioned-IsHistory none none none es valid unique)
    ∙ windowed_sequential options type2 none none none none es valid (inl refl)
