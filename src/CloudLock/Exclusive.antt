-- ===== src/CloudLock/Exclusive.antt =====
-- control/cloud_lock.py: who holds the lock.
use azure_lakehouse_pipeline.CloudLock.{
  without_holder, delete_owner, merge_contender, LockState, IsReached, LockStep, Holder, Lease,
  start, tick, after, merge, enter, leave,
}
use azure_lakehouse_pipeline.Prelude.{
  ℕ, Option, All, String, ◌≡◌, ◌<◌, str_eq, List, ◌+◌, some, All-map, ◌∷◌, false, ap, arith,
  Bool-cases, ◌∙◌, inl, inr, refl, [],
}

-- A holder whose lease has not expired is the owner of the row.
abbrev pub IsRowOf : ℕ → Option Lease → Holder → Type 0
IsRowOf now row h =
    now < h.held_until
    → (lease : Lease) × (row ≡ some lease)
      × (lease.owner_id ≡ h.holder_id)
      × (lease.expires_at ≡ h.held_until)

abbrev pub IsHeld : LockState → Type 0
IsHeld s = All (IsRowOf s.now s.row) s.holders

tick-IsRowOf :
    (now d : ℕ) (row : Option Lease) (h : Holder) → IsRowOf now row h → IsRowOf (now + d) row h
tick-IsRowOf now d row h held live = held (omega (arith, live))

merge-IsRowOf :
    (owner : String) (now ttl : ℕ) (row : Option Lease) (h : Holder)
    → IsRowOf now row h
    → IsRowOf now (merge_contender owner now ttl row) h
unfolding merge_contender
merge-IsRowOf owner now ttl row h held live =
    let (lease, is_row, is_owner, is_expiry) = held live in
    let kept : merge_contender owner now ttl (some lease) ≡ some lease =
      ground (arith, is_expiry, live) in
    (lease, ap (merge_contender owner now ttl) is_row ∙ kept, is_owner, is_expiry)

leave-IsRowOf :
    (owner : String) (now : ℕ) (row : Option Lease) (h : Holder)
    → str_eq h.holder_id owner ≡ false
    → IsRowOf now row h
    → IsRowOf now (delete_owner owner row) h
unfolding delete_owner
leave-IsRowOf owner now row h other held live =
    let (lease, is_row, is_owner, is_expiry) = held live in
    let kept : delete_owner owner (some lease) ≡ some lease =
      rw (ap (λ o. str_eq o owner) is_owner ∙ other) refl in
    (lease, ap (delete_owner owner) is_row ∙ kept, is_owner, is_expiry)

leave-All :
    (owner : String) (now : ℕ) (row : Option Lease) (holders : List Holder)
    → All (IsRowOf now row) holders
    → All (IsRowOf now (delete_owner owner row)) (without_holder owner holders)
unfolding without_holder
leave-All owner now row [] held = tt
leave-All owner now row (h ∷ holders) (first, rest) = elim (Bool-cases (str_eq h.holder_id owner)) [
  | inl same ↦ rw same (leave-All owner now row holders rest)
  | inr other ↦
      rw other (leave-IsRowOf owner now row h other first, leave-All owner now row holders rest)
]

step-IsHeld : (ttl : ℕ) (s s' : LockState) → LockStep ttl s s' → IsHeld s → IsHeld s'
step-IsHeld ttl _ _ (tick d s) held = All-map (λ h k. tick-IsRowOf s.now d s.row h k) s.holders held
step-IsHeld ttl _ _ (merge owner s) held =
    All-map (λ h k. merge-IsRowOf owner s.now ttl s.row h k) s.holders held
step-IsHeld ttl _ _ (enter s lease is_row) held = ((λ live. (lease, is_row, refl, refl)), held)
step-IsHeld ttl _ _ (leave owner s) held = leave-All owner s.now s.row s.holders held

pub IsReached-IsHeld : (ttl : ℕ) (s : LockState) → IsReached ttl s → IsHeld s
IsReached-IsHeld ttl _ (start now) = tt
IsReached-IsHeld ttl _ (after s s' reached step) =
    step-IsHeld ttl s s' step (IsReached-IsHeld ttl s reached)

-- Two leases of one row.
abbrev IsRow : LockState → Holder → Type 0
IsRow s h =
    (lease : Lease) × (s.row ≡ some lease)
    × (lease.owner_id ≡ h.holder_id)
    × (lease.expires_at ≡ h.held_until)

same_owner : (s : LockState) (a b : Holder) → IsRow s a → IsRow s b → a.holder_id ≡ b.holder_id
same_owner s a b (lease, row, owner, expiry) (lease', row', owner', expiry') = cc

-- In every state that owners reach from an empty lock table, by merges, reads, releases and the passing
-- of time in any order, two owners inside the lock whose leases have both not expired are the same
-- owner.
pub IsReached_exclusive :
    (ttl : ℕ) (s : LockState)
    → IsReached ttl s
    → All
        (λ a.
          All
            (λ b. s.now < a.held_until → s.now < b.held_until → a.holder_id ≡ b.holder_id)
            s.holders)
        s.holders
IsReached_exclusive ttl s reached =
    let held = IsReached-IsHeld ttl s reached in
    All-map
      (λ a of_a.
        All-map (λ b of_b live_a live_b. same_owner s a b (of_a live_a) (of_b live_b)) s.holders
          held)
      s.holders held
