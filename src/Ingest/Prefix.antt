-- ===== src/Ingest/Prefix.antt =====
-- Ranges of an outbox whose ids ascend.
use azure_lakehouse_pipeline.Ingest.Query.{up_to, maximum, events_after, larger, ChangeEvent, ids}
use azure_lakehouse_pipeline.Prelude.{
  ℕ, List, String, ◌≡◌, some, ◌≤◌, All, none, ◌∷◌, ◌<◌, ◌++◌, Bool-cases, arith, [], sym,
  Option-cases, ◌∙◌, inl, ◌≢◌, ltb, leb, refl, inr, All-map,
}
use azure_lakehouse_pipeline.Ingest.Order.{IsAscending, IsUnique, maximum_of}

pub IsAscendingLog-IsUnique : (ns : List ℕ) → IsAscending ns → IsUnique ns
IsAscendingLog-IsUnique [] h = tt
IsAscendingLog-IsUnique (n ∷ ns) (above, h) = (
  All-map (λ m (lt : n < m). let ne : n ≢ m = omega arith in ne) ns above,
  IsAscendingLog-IsUnique ns h,
)

up_to-above :
    (u : ℕ) (table : String) (lower : ℕ) (log : List ChangeEvent)
    → All (λ i. u < i) (ids log)
    → up_to u (events_after lower table log) ≡ []
unfolding up_to events_after
up_to-above u table lower [] h = refl
up_to-above u table lower (e ∷ log) (h, hs) = ground (arith, up_to-above u table lower log hs)

events_after-All :
    (lower : ℕ) (table : String) (log : List ChangeEvent)
    → All (λ i. lower < i) (ids log)
    → events_after 0 table log ≡ events_after lower table log
unfolding events_after
events_after-All lower table [] h = refl
events_after-All lower table (e ∷ log) (h, hs) = ground (arith, events_after-All lower table log hs)

-- Where the event ids of the log ascend and `lower ≤ upper`, the events up to `upper` are those up to
-- `lower`, then those of the batch between the two.
pub up_to-split :
    (lower upper : ℕ) (table : String) (log : List ChangeEvent)
    → IsAscending (ids log)
    → lower ≤ upper
    → up_to upper (events_after 0 table log)
      ≡ up_to lower (events_after 0 table log) ++ up_to upper (events_after lower table log)
unfolding up_to events_after
up_to-split lower upper table [] h le = refl
up_to-split lower upper table (e ∷ log) (above, h) le = elim (Bool-cases (ltb lower e.event_id)) [
  | inl beyond ↦
      let all_beyond : All (λ i. lower < i) (ids log) =
        All-map (λ i (lt : e.event_id < i). let r : lower < i = ground arith in r) (ids log)
          above in
      ground (
        arith,
        up_to-above lower table 0 log all_beyond,
        events_after-All lower table log all_beyond,
      )
  | inr before ↦ ground (arith, up_to-split lower upper table log h le)
]

pub up_to-IsBelow : (u : ℕ) (log : List ChangeEvent) → All (λ i. i ≤ u) (ids (up_to u log))
unfolding up_to
up_to-IsBelow u [] = tt
up_to-IsBelow u (e ∷ log) = elim (Bool-cases (leb e.event_id u)) [
  | inl low ↦ rw low (ground arith, up_to-IsBelow u log)
  | inr high ↦ rw high (up_to-IsBelow u log)
]

no_maximum : (P : ℕ → Type 0) (ns : List ℕ) → maximum ns ≡ none → All P ns
unfolding maximum
no_maximum P [] e = tt
no_maximum P (n ∷ ns) e = cc

pub maximum-upper : (ns : List ℕ) {m : ℕ} → maximum ns ≡ some m → All (λ n. n ≤ m) ns
unfolding maximum larger
maximum-upper [] e = tt
maximum-upper (n ∷ ns) {m} e = elim (Option-cases (maximum ns)) [
  | inl last ↦ (ground arith, no_maximum (λ i. i ≤ m) ns last)
  | inr (k, more) ↦ (
    ground arith,
    All-map (λ i (le : i ≤ k). let r : i ≤ m = ground arith in r) ns (maximum-upper ns more),
  )
]

up_to-All : (m : ℕ) (log : List ChangeEvent) → All (λ i. i ≤ m) (ids log) → up_to m log ≡ log
unfolding up_to
up_to-All m [] h = refl
up_to-All m (e ∷ log) (h, hs) = ground (arith, up_to-All m log hs)

up_to-up_to : (m u : ℕ) (log : List ChangeEvent) → m ≤ u → up_to m (up_to u log) ≡ up_to m log
unfolding up_to
up_to-up_to m u [] h = refl
up_to-up_to m u (e ∷ log) h = ground (arith, up_to-up_to m u log h)

-- A range may as well end at its own largest id.
pub up_to-maximum :
    (u : ℕ) (log : List ChangeEvent) {m : ℕ}
    → maximum (ids (up_to u log)) ≡ some m
    → up_to u log ≡ up_to m log
up_to-maximum u log {m} e =
    let below = maximum_of (λ i. i ≤ u) (ids (up_to u log)) (up_to-IsBelow u log) e in
    sym (up_to-All m (up_to u log) (maximum-upper (ids (up_to u log)) e))
    ∙ up_to-up_to m u log below
