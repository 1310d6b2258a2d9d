-- ===== src/Postgres.antt =====
-- adapters/postgres.py: the retries of a control query.
pub mod Retry
mod Tests
use azure_lakehouse_pipeline.Prelude.{
  ℕ, ◌*◌, List, ◌∷◌, [], ◌^◌, ◌-◌, suc, if◌then◌else◌, ◌==◌, zero, not, ◌||◌,
}
use azure_lakehouse_pipeline.Result.{Result, raise, assertion_error, ok, is_exception}

-- A float is the dyadic fraction `mantissa / 2 ^ halvings` that it denotes. The delays of the
-- configuration's bounds are products by a power of two that are exact.
pub record Seconds : Type 0 where
  pub mantissa : ℕ
  pub halvings : ℕ

-- A run: the delays that it slept, in order, and how it ended.
abbrev pub Run : Type 0 → Type 0
Run A = List Seconds × Result A

abbrev pub delay : Seconds → ℕ → Seconds
delay initial_backoff attempt = record {
  mantissa = initial_backoff.mantissa * 2 ^ (attempt - 1);
  halvings = initial_backoff.halvings;
}

abbrev pub slept : {A : Type 0} → Seconds → Run A → Run A
slept seconds (delays, result) = (seconds ∷ delays, result)

-- `action n` is how the call of the n-th attempt ends. The loop has `left` attempts before it.
module _ (attempts : ℕ) (initial_backoff : Seconds) {A : Type 0} (action : ℕ → Result A) where
  -- The call of an attempt, and what a failed one but the last leads to. An error that is not an
  -- `Exception` passes by.
  abbrev pub after_call : ℕ → Result A → Run A → Run A
  after_call attempt (ok a) later = ([], ok a)
  after_call attempt (raise error) later =
      if not (is_exception error) || attempt == attempts
      then ([], raise error)
      else slept (delay initial_backoff attempt) later

  unfoldable pub retry_from : ℕ → ℕ → Run A
  retry_from attempt zero = ([], raise (assertion_error "unreachable"))
  retry_from attempt (suc left) =
      after_call attempt (action attempt) (retry_from (suc attempt) left)

  unfoldable pub with_retry : Run A
  with_retry = retry_from 1 attempts
