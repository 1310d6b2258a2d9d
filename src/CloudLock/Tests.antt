-- ===== src/CloudLock/Tests.antt =====
-- Runs of the cloud lock by two owners.
use azure_lakehouse_pipeline.CloudLock.{
  merge_contender, contender, unlocked, LockState, IsReached, start, after, merge, enter, Holder,
  tick,
}
use azure_lakehouse_pipeline.CloudLock.Exclusive.{IsReached_exclusive}
use azure_lakehouse_pipeline.Prelude.{◌≡◌, refl, some, [], All, ◌∷◌, ◌<◌}

-- A live row stays, an expired one is taken over.
live_row : merge_contender "b" 9 10 (some (contender "a" 0 10)) ≡ some (contender "a" 0 10)
unfolding merge_contender
live_row = refl

expired_row : merge_contender "b" 10 10 (some (contender "a" 0 10)) ≡ some (contender "b" 10 10)
unfolding merge_contender
expired_row = refl

abbrev holder_a : Holder
holder_a = record { holder_id = "a"; held_until = 10 }

abbrev holder_b : Holder
holder_b = record { holder_id = "b"; held_until = 20 }

-- "a" merges and enters, its lease runs out, and "b" merges and enters.
abbrev merged : LockState
merged = record { now = 0; row = some (contender "a" 0 10); holders = [] }

abbrev entered : LockState
entered = record { now = 0; row = some (contender "a" 0 10); holders = holder_a ∷ [] }

abbrev waited : LockState
waited = record { now = 10; row = some (contender "a" 0 10); holders = holder_a ∷ [] }

abbrev merged_again : LockState
merged_again = record { now = 10; row = some (contender "b" 10 10); holders = holder_a ∷ [] }

abbrev taken_over : LockState
taken_over = record {
  now = 10;
  row = some (contender "b" 10 10);
  holders = holder_b ∷ holder_a ∷ [];
}

entered-IsReached : IsReached 10 entered
unfolding merge_contender
entered-IsReached =
    after merged entered (after (unlocked 0) merged (start 0) (merge "a" (unlocked 0)))
      (enter merged (contender "a" 0 10) refl)

taken_over-IsReached : IsReached 10 taken_over
unfolding merge_contender
taken_over-IsReached =
    after merged_again taken_over
      (after waited merged_again (after entered waited entered-IsReached (tick 10 entered))
        (merge "b" waited))
      (enter merged_again (contender "b" 10 10) refl)

IsReached_exclusive_example :
    All
      (λ a.
        All
          (λ b. 10 < a.held_until → 10 < b.held_until → a.holder_id ≡ b.holder_id)
          taken_over.holders)
      taken_over.holders
IsReached_exclusive_example = IsReached_exclusive 10 taken_over taken_over-IsReached
