-- ===== src/CloudLock.antt =====
-- control/cloud_lock.py: the Delta-backed lock of the cloud jobs, as steps of any number of owners on
-- one lock row.
pub mod Exclusive
mod Tests
use azure_lakehouse_pipeline.Prelude.{
  String, ℕ, Option, List, ◌+◌, none, ◌∷◌, ◌≡◌, some, [], if◌then◌else◌, leb, str_eq,
}

-- The row of the lock's name. Times are counted from a common start, and the owner ends in a fresh
-- random text.
pub record Lease : Type 0 where
  pub owner_id : String
  pub acquired_at : ℕ
  pub expires_at : ℕ

abbrev pub contender : String → ℕ → ℕ → Lease
contender owner now ttl = record { owner_id = owner; acquired_at = now; expires_at = now + ttl }

-- The MERGE: a row that has not expired stays.
unfoldable pub merge_contender : String → ℕ → ℕ → Option Lease → Option Lease
merge_contender owner now ttl none = some (contender owner now ttl)
merge_contender owner now ttl (some lease) =
    if leb lease.expires_at now then some (contender owner now ttl) else some lease

-- The DELETE of the `finally` block.
unfoldable pub delete_owner : String → Option Lease → Option Lease
delete_owner owner none = none
delete_owner owner (some lease) = if str_eq lease.owner_id owner then none else some lease

-- An owner inside the `with` block, with the expiry of the row that it read.
pub record Holder : Type 0 where
  pub holder_id : String
  pub held_until : ℕ

pub record LockState : Type 0 where
  pub now : ℕ
  pub row : Option Lease
  pub holders : List Holder

unfoldable pub without_holder : String → List Holder → List Holder
without_holder owner [] = []
without_holder owner (h ∷ holders) =
    let rest = without_holder owner holders in if str_eq h.holder_id owner then rest else h ∷ rest

-- Time passes, an owner merges its row, an owner that reads its own row enters, an owner leaves. The
-- steps of different owners come in any order, and a merge may be repeated.
pub data LockStep (ttl : ℕ) : LockState → LockState → Type 0 where
  tick :
      (d : ℕ) (s : LockState)
      → LockStep ttl s (record { now = s.now + d; row = s.row; holders = s.holders })
  merge :
      (owner : String) (s : LockState)
      → LockStep ttl s
          (record { now = s.now; row = merge_contender owner s.now ttl s.row; holders = s.holders })
  enter :
      (s : LockState) (lease : Lease)
      → s.row ≡ some lease
      → LockStep ttl s (record {
        now = s.now;
        row = s.row;
        holders = record { holder_id = lease.owner_id; held_until = lease.expires_at } ∷ s.holders;
      })
  leave :
      (owner : String) (s : LockState)
      → LockStep ttl s (record {
        now = s.now;
        row = delete_owner owner s.row;
        holders = without_holder owner s.holders;
      })

abbrev pub unlocked : ℕ → LockState
unlocked now = record { now = now; row = none; holders = [] }

-- The states that runs of the owners reach from an empty lock table.
pub data IsReached (ttl : ℕ) : LockState → Type 0 where
  start : (now : ℕ) → IsReached ttl (unlocked now)
  after : (s s' : LockState) → IsReached ttl s → LockStep ttl s s' → IsReached ttl s'
