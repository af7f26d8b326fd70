-- ===== src/Breaker/Examples.antt =====
-- A breaker that opens at two failures and closes at two successes.
use pg_tide.Prelude.{◌≡◌, refl, true, false, some, List, [], ◌∷◌, ◌++◌, map, arith, All}
use pg_tide.Breaker.Invariant.{IsValid, IsUnwrapped}
use pg_tide.Breaker.Trips.{run-IsValid, failures_open}
use pg_tide.Breaker.Timeouts.{trip_refuses_until_timeout}
use pg_tide.Breaker.Recovery.{IsRecovered, successes_close}
use pg_tide.Breaker.{
  CircuitBreakerConfig, CircuitBreaker, Call, closed, opened, half_open, allows, succeeds, fails,
  default_config, new_breaker, should_allow, run, answers,
}

abbrev two_two : CircuitBreakerConfig
two_two = record {
  enabled = true;
  failure_threshold = 2;
  success_threshold = 2;
  half_open_timeout = 30;
}

abbrev tripped : CircuitBreaker
tripped = record {
  config = two_two;
  state = opened;
  failure_count = 2;
  success_count = 0;
  opened_at = some 7;
}

abbrev probing : CircuitBreaker
probing = record tripped { state = half_open }

two_failures : run (new_breaker two_two) (fails 5 ∷ fails 7 ∷ []) ≡ tripped
unfolding run
two_failures = unfold pg_tide.Breaker.step pg_tide.Breaker.record_failure new_breaker in refl

run-IsValid_example :
    IsValid (run (new_breaker two_two) (fails 5 ∷ fails 7 ∷ allows 40 ∷ []))
    × IsUnwrapped (run (new_breaker two_two) (fails 5 ∷ fails 7 ∷ allows 40 ∷ []))
run-IsValid_example = run-IsValid two_two (fails 5 ∷ fails 7 ∷ allows 40 ∷ []) (omega arith)

failures_open_example : (run (new_breaker two_two) (map fails (5 ∷ 7 ∷ []))).state ≡ opened
failures_open_example = failures_open two_two (5 ∷ 7 ∷ []) refl (omega arith) (omega arith)

abbrev early_calls : List Call
early_calls = allows 9 ∷ fails 10 ∷ allows 36 ∷ succeeds 37 ∷ []

abbrev after_failures : CircuitBreaker
after_failures = run (new_breaker two_two) (map fails (5 ∷ []) ++ fails 7 ∷ [])

trip_refuses_until_timeout_example :
    (after_failures.state ≡ opened)
    × (run after_failures early_calls ≡ after_failures)
    × All (λ a. a ≡ false) (answers after_failures early_calls)
    × ((should_allow (run after_failures early_calls) 37).1 ≡ true)
    × ((should_allow (run after_failures early_calls) 37).0.state ≡ half_open)
    × ((should_allow (run after_failures early_calls) 37).0.success_count ≡ 0)
trip_refuses_until_timeout_example =
    trip_refuses_until_timeout two_two (5 ∷ []) 7 early_calls 37 refl (omega arith) (omega arith)
      refl (omega arith) (omega arith)

successes_close_example : IsRecovered probing true (run probing (map succeeds (41 ∷ 42 ∷ [])))
successes_close_example =
    successes_close probing (41 ∷ 42 ∷ []) refl (omega arith) refl (omega arith)

-- Requests that come before the first outcome of a probe are all let through.
half_open_requests : answers probing (allows 40 ∷ allows 40 ∷ []) ≡ true ∷ true ∷ []
unfolding answers
half_open_requests = unfold pg_tide.Breaker.step should_allow in refl

disabled_failures :
    run (new_breaker default_config) (fails 1 ∷ fails 2 ∷ []) ≡ new_breaker default_config
unfolding run new_breaker
disabled_failures = unfold pg_tide.Breaker.step pg_tide.Breaker.record_failure in refl
