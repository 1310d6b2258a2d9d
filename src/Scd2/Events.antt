-- ===== src/Scd2/Events.antt =====
-- Lemmas on the events that a test keeps, and on the values that the replay reads from them.
use azure_lakehouse_pipeline.Scd2.{
  next_boundary, VersionedEvent, last_value, coalesce, filter_events, same_version, event_id,
}
use azure_lakehouse_pipeline.Upsert.{Cell, coalesced, or_sql}
use azure_lakehouse_pipeline.Prelude.{
  Option, Bool, String, List, ◌≡◌, All, ℕ, none, ◌∷◌, false, ◌++◌, true, some, Bool-cases, [], refl,
  inl, inr, ap,
}
use azure_lakehouse_pipeline.Upsert.Keys.{same_cell}

pub filter_events-append :
    (p : VersionedEvent → Bool) (vs ws : List VersionedEvent)
    → filter_events p (vs ++ ws) ≡ filter_events p vs ++ filter_events p ws
filter_events-append p [] ws = refl
filter_events-append p (v ∷ vs) ws = elim (Bool-cases (p v)) [
  | inl kept ↦ rw kept (ap (λ l. v ∷ l) (filter_events-append p vs ws))
  | inr dropped ↦ rw dropped (filter_events-append p vs ws)
]

pub filter_events-kept :
    (p : VersionedEvent → Bool) (v : VersionedEvent) (vs : List VersionedEvent)
    → p v ≡ true
    → filter_events p (v ∷ vs) ≡ v ∷ filter_events p vs
filter_events-kept p v vs h = rw h refl

pub filter_events-dropped :
    (p : VersionedEvent → Bool) (v : VersionedEvent) (vs : List VersionedEvent)
    → p v ≡ false
    → filter_events p (v ∷ vs) ≡ filter_events p vs
filter_events-dropped p v vs h = rw h refl

pub All-filter_events {κ} :
    (P : VersionedEvent → Type κ) (p : VersionedEvent → Bool) (vs : List VersionedEvent)
    → All P vs
    → All P (filter_events p vs)
All-filter_events P p [] h = tt
All-filter_events P p (v ∷ vs) (first, rest) = elim (Bool-cases (p v)) [
  | inl kept ↦ rw kept (first, All-filter_events P p vs rest)
  | inr dropped ↦ rw dropped (All-filter_events P p vs rest)
]

pub coalesce-none : (a : Cell) → coalesce a none ≡ a
coalesce-none none = refl
coalesce-none (some a) = refl

-- Events of other versions do not change the last value, events of other ids not the next boundary.
pub last_value-append :
    (name : String) (number : Option ℕ) (vs ws : List VersionedEvent)
    → All (λ v. same_version v.version_number number ≡ false) vs
    → last_value name number (vs ++ ws) ≡ last_value name number ws
unfolding last_value
last_value-append name number [] ws h = refl
last_value-append name number (v ∷ vs) ws (first, rest) =
    rw (first, last_value-append name number vs ws rest) (coalesce-none (last_value name number ws))

pub next_boundary-append :
    (id : Cell) (vs ws : List VersionedEvent)
    → All (λ v. same_cell (event_id v.event) id ≡ false) vs
    → next_boundary id (vs ++ ws) ≡ next_boundary id ws
unfolding next_boundary
next_boundary-append id [] ws h = refl
next_boundary-append id (v ∷ vs) ws (first, rest) =
    rw (first, next_boundary-append id vs ws rest) refl

pub start-boundary : (a b : Option Bool) → coalesced a ≡ true → coalesced (or_sql a b) ≡ true
start-boundary none b h = cc
start-boundary (some true) b h = refl
start-boundary (some false) b h = cc

pub All-append {κ} :
    (P : VersionedEvent → Type κ) (vs ws : List VersionedEvent)
    → All P vs
    → All P ws
    → All P (vs ++ ws)
All-append P [] ws h k = k
All-append P (v ∷ vs) ws (first, rest) k = (first, All-append P vs ws rest k)
