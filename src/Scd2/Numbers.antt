-- ===== src/Scd2/Numbers.antt =====
-- transformations/gold/scd2.py: the version numbers of the replay.
use azure_lakehouse_pipeline.Scd2.{
  versioned, last_value, running_sum, is_delete, VersionedEvent, same_version, is_typed,
  filter_events, type2_start, as_int, non_delete_hash, operation, attribute_hash,
}
use azure_lakehouse_pipeline.Prelude.{
  Option, ℕ, List, Bool, some, String, true, none, ◌<◌, false, ◌≡◌, All, ap, ◌≤◌, suc, arith, ◌∷◌,
  refl, [], ◌+◌, inl, inr, sym,
}
use azure_lakehouse_pipeline.Upsert.{Row, Cell}
use azure_lakehouse_pipeline.Scd2.Steps.{
  IsEvent, IsClosed, IsEvent-cases, versioned-event, type2_start-delete, type2_start-closed,
  non_delete_hash-kept, non_delete_hash-delete,
}
use mathlib.Core.Path.{subst}
use azure_lakehouse_pipeline.Scd2.Events.{filter_events-dropped, All-filter_events}

-- The version number that the running sum stands for.
abbrev pub as_number : Option ℕ → ℕ
as_number none = 0
as_number (some n) = n

pub running_sum-start :
    (number : Option ℕ) → running_sum number (some true) ≡ some (suc (as_number number))
running_sum-start none = refl
running_sum-start (some n) = ap some (omega arith)

running_sum-other : (number : Option ℕ) → running_sum number (some false) ≡ some (as_number number)
running_sum-other none = refl
running_sum-other (some n) = ap some (omega arith)

-- Versions only grow.
running_sum-above :
    (m k : ℕ) (start : Option Bool)
    → k < m
    → same_version (running_sum (some m) start) (some k) ≡ false
running_sum-above m k none h = ground arith
running_sum-above m k (some true) h = ground arith
running_sum-above m k (some false) h = ground arith

running_sum-grows :
    (m : ℕ) (start : Option Bool) → (m' : ℕ) × (running_sum (some m) start ≡ some m') × (m ≤ m')
running_sum-grows m none = (m, refl, omega arith)
running_sum-grows m (some b) = (m + as_int b, refl, omega arith)

versioned-above :
    (previous_hash previous_operation : Cell) (m k : ℕ) (es : List Row)
    → k < m
    → All
        (λ w. same_version w.version_number (some k) ≡ false)
        (versioned previous_hash previous_operation (some m) es)
unfolding versioned
versioned-above previous_hash previous_operation m k [] h = tt
versioned-above previous_hash previous_operation m k (e ∷ es) h =
    let start = type2_start previous_hash previous_operation e in
    let (m', is_m', le) = running_sum-grows m start in
    (
      running_sum-above m k start h,
      subst
          (λ number.
            All (λ w. same_version w.version_number (some k) ≡ false)
              (versioned (non_delete_hash e previous_hash) (operation e) number es))
          (sym is_m')
          (versioned-above (non_delete_hash e previous_hash) (operation e) m' k es
            (omega (arith, h, le))),
    )

pub last_value-other :
    (name : String) (number : Option ℕ) (vs : List VersionedEvent)
    → All (λ v. same_version v.version_number number ≡ false) vs
    → last_value name number vs ≡ none
unfolding last_value
last_value-other name number [] h = refl
last_value-other name number (v ∷ vs) (first, rest) =
    rw (first, last_value-other name number vs rest) refl

abbrev pub AllAbove : ℕ → List VersionedEvent → Type 0
AllAbove n vs =
    All (λ w. same_version w.version_number (some n) ≡ false) (filter_events is_typed vs)

pub not_typed :
    (e : Row) (start : Option Bool) (number : Option ℕ)
    → is_delete e ≡ some true
    → is_typed (record { event = e; is_type2_start = start; version_number = number }) ≡ false
not_typed e start number h = rw h refl

module _ (previous_hash previous_operation : Cell) (number : Option ℕ) (e : Row)
    (es : List Row) where
  pub versioned-deleted :
      is_delete e ≡ some true
      → versioned previous_hash previous_operation number (e ∷ es)
        ≡ record {
          event = e;
          is_type2_start = some false;
          version_number = some (as_number number);
        }
          ∷ versioned previous_hash (operation e) (some (as_number number)) es
  versioned-deleted h =
      versioned-event previous_hash previous_operation e number es
        (type2_start-delete previous_hash previous_operation e h)
        (non_delete_hash-delete previous_hash previous_operation e h) (running_sum-other number)

  pub versioned-started :
      IsEvent e
      → is_delete e ≡ some false
      → type2_start previous_hash previous_operation e ≡ some true
      → versioned previous_hash previous_operation number (e ∷ es)
        ≡ record {
          event = e;
          is_type2_start = some true;
          version_number = some (suc (as_number number));
        }
          ∷ versioned (attribute_hash e) (operation e) (some (suc (as_number number))) es
  versioned-started valid h start =
      versioned-event previous_hash previous_operation e number es start
        (non_delete_hash-kept previous_hash previous_operation e valid h) (running_sum-start number)

  pub versioned-continued :
      IsEvent e
      → is_delete e ≡ some false
      → type2_start previous_hash previous_operation e ≡ some false
      → versioned previous_hash previous_operation number (e ∷ es)
        ≡ record {
          event = e;
          is_type2_start = some false;
          version_number = some (as_number number);
        }
          ∷ versioned (attribute_hash e) (operation e) (some (as_number number)) es
  versioned-continued valid h start =
      versioned-event previous_hash previous_operation e number es start
        (non_delete_hash-kept previous_hash previous_operation e valid h) (running_sum-other number)

pub above_started :
    (n : ℕ) (e : Row) (es : List Row)
    → AllAbove n (
        record { event = e; is_type2_start = some true; version_number = some (suc n) }
        ∷ versioned (attribute_hash e) (operation e) (some (suc n)) es)
above_started n e es =
    All-filter_events (λ w. same_version w.version_number (some n) ≡ false) is_typed
      (record { event = e; is_type2_start = some true; version_number = some (suc n) }
        ∷ versioned (attribute_hash e) (operation e) (some (suc n)) es)
      (ground arith, versioned-above (attribute_hash e) (operation e) (suc n) n es (omega arith))

pub above_dropped :
    (n : ℕ) (v : VersionedEvent) (vs : List VersionedEvent)
    → is_typed v ≡ false
    → AllAbove n vs
    → AllAbove n (v ∷ vs)
above_dropped n v vs h above =
    subst (All (λ w. same_version w.version_number (some n) ≡ false))
      (sym (filter_events-dropped is_typed v vs h)) above

-- After a DELETE every typed event is of a later version.
pub versioned-closed :
    (previous_hash previous_operation : Cell) (number : Option ℕ) (es : List Row)
    → All IsEvent es
    → IsClosed previous_hash previous_operation
    → AllAbove (as_number number) (versioned previous_hash previous_operation number es)
unfolding versioned
versioned-closed previous_hash previous_operation number [] valid closed = tt
versioned-closed previous_hash previous_operation number (e ∷ es) (first, valid) closed =
    elim (IsEvent-cases e first) [
      | inl deleted ↦
          subst (AllAbove (as_number number))
            (sym (versioned-deleted previous_hash previous_operation number e es deleted))
            (above_dropped (as_number number)
              (record {
                event = e;
                is_type2_start = some false;
                version_number = some (as_number number);
              })
              (versioned previous_hash (operation e) (some (as_number number)) es)
              (not_typed e (some false) (some (as_number number)) deleted)
              (versioned-closed previous_hash (operation e) (some (as_number number)) es valid
                (inr deleted)))
      | inr kept ↦
          subst (AllAbove (as_number number))
            (sym (
              versioned-started previous_hash previous_operation number e es first kept
                (type2_start-closed previous_hash previous_operation e closed kept)))
            (above_started (as_number number) e es)
    ]
