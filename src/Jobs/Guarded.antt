-- ===== src/Jobs/Guarded.antt =====
-- The locks under which jobs/run_batch.py enters its stages.
pub mod Runs
use azure_lakehouse_pipeline.Jobs.Closed.{
  IsClosed, AreBuilt, is_build, guarded-closed, fails, AreBuilt-entered,
}
use azure_lakehouse_pipeline.Jobs.Trace.{
  silver_build, gold_build, silver_lock, gold_lock, local_lock, preflight, extract, validation,
  release_validation, perform, bind,
}
use azure_lakehouse_pipeline.Jobs.Locks.{held_after, main-locks, same_lock}
use azure_lakehouse_pipeline.Jobs.Trace.{
  Lock, Stage, enter, with_lock, local_lock, Run, Step, Acquisition-cases, acquired, silver_lock,
  released, gold_lock, logged, stopped_session,
}
use azure_lakehouse_pipeline.Jobs.Main.{SparkConfig, is_cloud, Environment, main, run_session}
use azure_lakehouse_pipeline.Jobs.RunMode.{guarded, Stages}
use azure_lakehouse_pipeline.Prelude.{
  ℕ, ◌≡◌, Bool, List, true, if◌then◌else◌, ◌≤◌, false, not, ◌-◌, ◌∷◌, suc, arith, [], ◌++◌, inl,
  refl, ◌||◌, inr, ltb, Option, some, ◌⊎◌, sym, Bool-cases, ◌∙◌,
}
use azure_lakehouse_pipeline.Jobs.Sessions.{IsOpen, run_session-closed}
use azure_lakehouse_pipeline.Jobs.Args.{is_blank, Args}
use azure_lakehouse_pipeline.Result.{Result-cases, ok, ok-injective}
use azure_lakehouse_pipeline.Json.{JsonCodec}
use azure_lakehouse_pipeline.Manifest.{PipelineManifest}
use mathlib.Core.Path.{subst}

-- The stages that a lock is for: the local lock is for every stage of a local run, and in the cloud the
-- builds have a lock each.
abbrev pub is_guarded : Lock → Stage → Bool
is_guarded local_lock s = true
is_guarded silver_lock silver_build = true
is_guarded gold_lock gold_build = true
is_guarded _ s = false

abbrev pub is_used : SparkConfig → Lock → Bool
is_used config local_lock = not (is_blank config.master)
is_used config silver_lock = is_cloud config
is_used config gold_lock = is_cloud config

abbrev taken_once : Lock → Lock → ℕ → ℕ
taken_once lock l n = if same_lock l lock then suc n else n

abbrev released_once : Lock → Lock → ℕ → ℕ
released_once lock l n = if same_lock l lock then n - 1 else n

-- How many times the lock is held after the steps, at least.
unfoldable count : Lock → ℕ → List Step → ℕ
count lock n [] = n
count lock n (acquired l ∷ steps) = count lock (taken_once lock l n) steps
count lock n (released l ∷ steps) = count lock (released_once lock l n) steps
count lock n (enter s ∷ steps) = count lock n steps
count lock n (logged status total ∷ steps) = count lock n steps
count lock n (stopped_session ∷ steps) = count lock n steps

-- Whenever a stage of the lock is entered, the lock is held.
unfoldable pub IsGuarded : Lock → ℕ → List Step → Type 0
IsGuarded lock n [] = Unit
IsGuarded lock n (acquired l ∷ steps) = IsGuarded lock (taken_once lock l n) steps
IsGuarded lock n (released l ∷ steps) = IsGuarded lock (released_once lock l n) steps
IsGuarded lock n (enter s ∷ steps) =
    ((not (is_guarded lock s) || ltb 0 n) ≡ true) × IsGuarded lock n steps
IsGuarded lock n (logged status total ∷ steps) = IsGuarded lock n steps
IsGuarded lock n (stopped_session ∷ steps) = IsGuarded lock n steps

taken_released : (b : Bool) (n c : ℕ) → (if b then suc n else n) ≤ c → n ≤ (if b then c - 1 else c)
taken_released b n c le = ground (arith, le)

taken_le : (b : Bool) (n c : ℕ) → (if b then suc n else n) ≤ c → n ≤ c
taken_le b n c le = ground (arith, le)

no_build-is_guarded :
    (lock : Lock) (s : Stage)
    → same_lock lock local_lock ≡ false
    → is_build s ≡ false
    → is_guarded lock s ≡ false
no_build-is_guarded local_lock s cloud other = absurd (ground arith)
no_build-is_guarded silver_lock preflight cloud other = refl
no_build-is_guarded silver_lock extract cloud other = refl
no_build-is_guarded silver_lock silver_build cloud other = absurd (ground arith)
no_build-is_guarded silver_lock gold_build cloud other = refl
no_build-is_guarded silver_lock validation cloud other = refl
no_build-is_guarded silver_lock release_validation cloud other = refl
no_build-is_guarded gold_lock preflight cloud other = refl
no_build-is_guarded gold_lock extract cloud other = refl
no_build-is_guarded gold_lock silver_build cloud other = refl
no_build-is_guarded gold_lock gold_build cloud other = absurd (ground arith)
no_build-is_guarded gold_lock validation cloud other = refl
no_build-is_guarded gold_lock release_validation cloud other = refl

module _ (lock : Lock) where
  count-append :
      (n : ℕ) (xs ys : List Step) → count lock n (xs ++ ys) ≡ count lock (count lock n xs) ys
  unfolding count
  count-append n [] ys = refl
  count-append n (acquired l ∷ xs) ys = count-append (taken_once lock l n) xs ys
  count-append n (released l ∷ xs) ys = count-append (released_once lock l n) xs ys
  count-append n (enter s ∷ xs) ys = count-append n xs ys
  count-append n (logged status total ∷ xs) ys = count-append n xs ys
  count-append n (stopped_session ∷ xs) ys = count-append n xs ys

  IsGuarded-append :
      (n : ℕ) (xs ys : List Step)
      → IsGuarded lock n xs
      → IsGuarded lock (count lock n xs) ys
      → IsGuarded lock n (xs ++ ys)
  unfolding IsGuarded count
  IsGuarded-append n [] ys h k = k
  IsGuarded-append n (acquired l ∷ xs) ys h k = IsGuarded-append (taken_once lock l n) xs ys h k
  IsGuarded-append n (released l ∷ xs) ys h k = IsGuarded-append (released_once lock l n) xs ys h k
  IsGuarded-append n (enter s ∷ xs) ys (held, h) k = (held, IsGuarded-append n xs ys h k)
  IsGuarded-append n (logged status total ∷ xs) ys h k = IsGuarded-append n xs ys h k
  IsGuarded-append n (stopped_session ∷ xs) ys h k = IsGuarded-append n xs ys h k

  -- The steps are guarded where the lock is held `k` times before them, and do not give it up.
  abbrev IsSafe : ℕ → List Step → Type 0
  IsSafe k xs = (n : ℕ) → k ≤ n → IsGuarded lock n xs × (n ≤ count lock n xs)

  IsSafe-append : (k : ℕ) (xs ys : List Step) → IsSafe k xs → IsSafe k ys → IsSafe k (xs ++ ys)
  IsSafe-append k xs ys hx hy n above =
      let (g, le) = hx n above in
      let (g', le') = hy (count lock n xs) (omega (arith, above, le)) in
      (IsGuarded-append n xs ys g g', rw (count-append n xs ys) (omega (arith, le, le')))

  -- Steps inside a lock that are safe at the count that the lock gives.
  IsSafe-locked :
      (k : ℕ) (l : Lock) (xs : List Step)
      → ((n : ℕ)
          → k ≤ n
          → IsGuarded lock (taken_once lock l n) xs
            × (taken_once lock l n ≤ count lock (taken_once lock l n) xs))
      → IsSafe k (acquired l ∷ (xs ++ (released l ∷ [])))
  unfolding IsGuarded count
  IsSafe-locked k l xs h n above =
      let m = taken_once lock l n in
      let (g, le) = h n above in
      (
        IsGuarded-append m xs (released l ∷ []) g tt,
        rw (count-append m xs (released l ∷ []))
            (taken_released (same_lock l lock) n (count lock m xs) le),
      )

  IsSafe-left :
      (k : ℕ) (l : Lock) (xs : List Step)
      → ((n : ℕ)
          → k ≤ n
          → IsGuarded lock (taken_once lock l n) xs
            × (taken_once lock l n ≤ count lock (taken_once lock l n) xs))
      → IsSafe k (acquired l ∷ xs)
  unfolding IsGuarded count
  IsSafe-left k l xs h n above =
      let (g, le) = h n above in
      (g, taken_le (same_lock l lock) n (count lock (taken_once lock l n) xs) le)

  taken_above : (k n : ℕ) (l : Lock) → k ≤ n → k ≤ taken_once lock l n
  taken_above k n l above = ground (arith, above)

  entered-IsSafe : (s : Stage) → is_guarded lock s ≡ false → IsSafe 0 (enter s ∷ [])
  unfolding IsGuarded count
  entered-IsSafe s other n above = ((rw other refl, tt), omega arith)

  held-IsSafe : (s : Stage) → IsSafe 1 (enter s ∷ [])
  unfolding IsGuarded count
  held-IsSafe s n above = ((ground (arith, above), tt), omega arith)

  IsSafe-IsClosed :
      (stages : Stages) (k : ℕ)
      → ((s : Stage) → is_build s ≡ false → IsSafe k (enter s ∷ []))
      → IsClosed stages (IsSafe k)
  unfolding IsGuarded count
  IsSafe-IsClosed stages k entered = record {
    nothing = λ n above. (tt, omega arith);
    append = IsSafe-append k;
    locked = λ l xs h.
        IsSafe-locked k l xs (λ n above. h (taken_once lock l n) (taken_above k n l above));
    left = λ l xs broken h.
        IsSafe-left k l xs (λ n above. h (taken_once lock l n) (taken_above k n l above));
    entered = entered;
    log = λ total n above. (tt, omega arith);
  }

  IsSafe-IsOpen : (k : ℕ) → IsOpen (IsSafe k)
  unfolding IsGuarded count
  IsSafe-IsOpen k = record {
    reported = λ status total n above. (tt, omega arith);
    stopped = λ n above. (tt, omega arith);
  }

  same_lock_refl : (l : Lock) → same_lock l l ≡ true
  same_lock_refl local_lock = refl
  same_lock_refl silver_lock = refl
  same_lock_refl gold_lock = refl

  -- What needs the lock is safe in a `with` block of it.
  guarded-IsSafe :
      {A : Type 0} (stages : Stages) (r : Run A)
      → IsSafe 1 r.steps
      → IsSafe 0 (guarded true stages lock r).steps
  unfolding guarded with_lock IsGuarded count
  guarded-IsSafe stages r h =
      let inside = λ (n : ℕ) (above : 0 ≤ n).
        h (taken_once lock lock n) (ground (arith, same_lock_refl lock)) in
      elim (Acquisition-cases (stages.take_lock lock)) [
        | inl is_taken ↦ rw is_taken (elim (Result-cases (stages.release_lock lock)) [
          | inl (u, returned) ↦ rw returned (IsSafe-locked 0 lock r.steps inside)
          | inr (e, raised) ↦ rw raised (IsSafe-left 0 lock r.steps inside)
        ])
        | inr (e, inl is_refused) ↦ rw is_refused (λ n above. (tt, omega arith))
        | inr (e, inr is_lost) ↦ rw is_lost (λ n above. (tt, ground arith))
      ]
