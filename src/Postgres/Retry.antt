-- ===== src/Postgres/Retry.antt =====
-- adapters/postgres.py: which call of an action a run of `with_retry` returns.
use azure_lakehouse_pipeline.Postgres.{
  with_retry, Run, retry_from, slept, delay, after_call, Seconds,
}
use azure_lakehouse_pipeline.Result.{Result, Error, ok, raise, is_exception}
use azure_lakehouse_pipeline.Prelude.{
  ℕ, ◌≡◌, ◌≤◌, suc, List, [], ◌<◌, ◌⊎◌, ◌+◌, arith, Bool-cases, ◌≢◌, ap, sym, ◌==◌, ◌∷◌, inl, inr,
  zero, refl, true, false,
}
use mathlib.Core.Path.{subst}

-- A call that is retried.
abbrev pub Raises : {A : Type 0} → Result A → Type 0
Raises result = (error : Error) × (result ≡ raise error) × (is_exception error ≡ true)

abbrev pub Returns : {A : Type 0} → Result A → Type 0
Returns {A} result = (a : A) × (result ≡ ok a)

-- A call that ends the run at any attempt: it returns, or its error is not an `Exception`.
abbrev pub IsFinal : {A : Type 0} → Result A → Type 0
IsFinal result =
    Returns result ⊎ ((error : Error) × (result ≡ raise error) × (is_exception error ≡ false))

-- The first delays: the initial one, doubled each time.
unfoldable pub backoffs : Seconds → ℕ → ℕ → List Seconds
backoffs initial_backoff attempt zero = []
backoffs initial_backoff attempt (suc n) =
    delay initial_backoff attempt ∷ backoffs initial_backoff (suc attempt) n

-- The run that starts at an attempt ends with the call after `failed` calls that raise an `Exception`: the
-- first call that does not, or the last.
abbrev pub IsRetried : {A : Type 0} → ℕ → Seconds → (ℕ → Result A) → ℕ → Run A → Type 0
IsRetried attempts initial_backoff action attempt run =
    (failed : ℕ) × (last : ℕ) × (attempt + failed ≡ last)
    × (last ≤ attempts)
    × ((n : ℕ) → attempt ≤ n → n < last → Raises (action n))
    × (IsFinal (action last) ⊎ (last ≡ attempts))
    × (run ≡ (backoffs initial_backoff attempt failed, action last))

before_the_loop_ends : (attempt attempts : ℕ) → attempt ≤ attempts → attempt + 0 ≢ attempts + 1
before_the_loop_ends attempt attempts within = omega (arith, within)

module _ (attempts : ℕ) (initial_backoff : Seconds) {A : Type 0} (action : ℕ → Result A) where
  abbrev IsRun : ℕ → Run A → Type 0
  IsRun attempt run = IsRetried attempts initial_backoff action attempt run

  no_failure : (attempt n : ℕ) → attempt ≤ n → n < attempt → Raises (action n)
  no_failure attempt n above below =
      let impossible : ⊥ = omega (arith, above, below) in elim impossible [ ]

  at_once :
      (attempt : ℕ) (result : Result A)
      → action attempt ≡ result
      → attempt ≤ attempts
      → IsFinal (action attempt) ⊎ (attempt ≡ attempts)
      → IsRun attempt ([], result)
  unfolding backoffs
  at_once attempt result is_result within ends =
      (0, attempt, omega arith, within, no_failure attempt, ends, ap (λ r. ([], r)) (sym is_result))

  one_more_failure :
      (attempt last : ℕ)
      → Raises (action attempt)
      → ((n : ℕ) → suc attempt ≤ n → n < last → Raises (action n))
      → (n : ℕ) → attempt ≤ n
      → n < last
      → Raises (action n)
  one_more_failure attempt last now later n above below = elim (Bool-cases (n == attempt)) [
    | inl same ↦ subst (λ m. Raises (action m)) (ground (arith, same)) now
    | inr other ↦ later n (ground (arith, other, above)) below
  ]

  once_more :
      (attempt : ℕ) (run : Run A)
      → Raises (action attempt)
      → IsRun (suc attempt) run
      → IsRun attempt (slept (delay initial_backoff attempt) run)
  unfolding backoffs
  once_more attempt run now (failed, last, counted, within, failures, ends, is_run) = (
    suc failed,
    last,
    omega (arith, counted),
    within,
    one_more_failure attempt last now failures,
    ends,
    ap (slept (delay initial_backoff attempt)) is_run,
  )

  after_call-IsRetried :
      (attempt : ℕ) (result : Result A) (later : Run A)
      → action attempt ≡ result
      → attempt ≤ attempts
      → (suc attempt ≤ attempts → IsRun (suc attempt) later)
      → IsRun attempt (after_call attempts initial_backoff action attempt result later)
  after_call-IsRetried attempt (ok a) later is_result within retried =
      at_once attempt (ok a) is_result within (inl (inl (a, is_result)))
  after_call-IsRetried attempt (raise error) later is_result within retried =
      elim (Bool-cases (is_exception error)) [
        | inr passes ↦
            rw passes (
              at_once attempt (raise error) is_result within (inl (inr (error, is_result, passes))))
        | inl retries ↦ rw retries (elim (Bool-cases (attempt == attempts)) [
          | inl last ↦
              rw last (at_once attempt (raise error) is_result within (inr (ground (arith, last))))
          | inr earlier ↦ rw earlier (
              once_more attempt later (error, is_result, retries)
                (retried (ground (arith, earlier, within))))
        ])
      ]

  retry_from-IsRetried :
      (attempt left : ℕ)
      → attempt ≤ attempts
      → attempt + left ≡ attempts + 1
      → IsRun attempt (retry_from attempts initial_backoff action attempt left)
  unfolding retry_from
  retry_from-IsRetried attempt zero within counted =
      elim (before_the_loop_ends attempt attempts within counted) [ ]
  retry_from-IsRetried attempt (suc left) within counted =
      after_call-IsRetried attempt (action attempt)
        (retry_from attempts initial_backoff action (suc attempt) left) refl within
        (λ more. retry_from-IsRetried (suc attempt) left more (omega (arith, counted)))

  -- A run of `with_retry` with at least one attempt returns or raises what one call of the action does:
  -- the first call that returns or raises an error that is not an `Exception`, or the last attempt. Every
  -- call before it raised an `Exception`, and the run slept after each of them, at first the initial
  -- backoff and then twice as long each time. The error for an unreachable end is not raised by the
  -- loop.
  pub with_retry-IsRetried :
      1 ≤ attempts
      → IsRetried attempts initial_backoff action 1 (with_retry attempts initial_backoff action)
  unfolding with_retry
  with_retry-IsRetried some_attempt = retry_from-IsRetried 1 attempts some_attempt (omega arith)
