-- ===== src/Postgres/Tests.antt =====
-- Runs of the retries.
use azure_lakehouse_pipeline.Postgres.{with_retry, retry_from, Seconds}
use azure_lakehouse_pipeline.Postgres.Retry.{IsRetried, with_retry-IsRetried}
use azure_lakehouse_pipeline.Prelude.{refl, ℕ, ◌≡◌, String, ◌∷◌, arith, [], if◌then◌else◌, ltb}
use azure_lakehouse_pipeline.Result.{Result, raise, ok, runtime_error, keyboard_interrupt}

-- The third call returns.
abbrev third_call : ℕ → Result String
third_call n = if ltb n 3 then raise (runtime_error "connection refused") else ok "rows"

abbrev seconds : ℕ → Seconds
seconds n = record { mantissa = n; halvings = 1 }

-- From half a second up.
with_retry_third : with_retry 5 (seconds 1) third_call ≡ (seconds 1 ∷ seconds 2 ∷ [], ok "rows")
unfolding with_retry retry_from
with_retry_third = refl

with_retry_given_up :
    with_retry 2 (seconds 1) third_call
    ≡ (seconds 1 ∷ [], raise (runtime_error "connection refused"))
unfolding with_retry retry_from
with_retry_given_up = refl

abbrev interrupt : ℕ → Result String
interrupt n = raise (keyboard_interrupt "")

interrupted : with_retry 2 (seconds 1) interrupt ≡ ([], raise (keyboard_interrupt ""))
unfolding with_retry retry_from
interrupted = refl

with_retry-IsRetried_example :
    IsRetried 5 (seconds 1) third_call 1 (with_retry 5 (seconds 1) third_call)
with_retry-IsRetried_example = with_retry-IsRetried 5 (seconds 1) third_call (omega arith)
