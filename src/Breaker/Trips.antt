-- ===== src/Breaker/Trips.antt =====
-- What holds after any calls, and when the circuit opens.
use pg_tide.Prelude.{
  ℕ, ◌+◌, ◌<◌, ◌≡◌, refl, ◌∙◌, true, List, [], ◌∷◌, map, arith, leb, if◌then◌else◌, length,
}
use pg_tide.Breaker.Invariant.{
  IsValid, IsUnwrapped, IsU32, step-IsValid, IsValid-IsUnwrapped, step_config,
}
use pg_tide.Breaker.{
  CircuitBreakerConfig, CircuitBreaker, Call, closed, opened, fails, new_breaker, record_failure,
  step, run,
}

run-IsValid_of :
    (b : CircuitBreaker) (cs : List Call) → IsU32 b.config → IsValid b → IsValid (run b cs)
unfolding run
run-IsValid_of b [] u v = v
run-IsValid_of b (c ∷ cs) u v =
    run-IsValid_of (step b c) cs (rw (step_config b c) u) (step-IsValid b c u v)

new_breaker-IsValid : (c : CircuitBreakerConfig) → IsValid (new_breaker c)
unfolding new_breaker
new_breaker-IsValid c = ground arith

run_config : (b : CircuitBreaker) (cs : List Call) → (run b cs).config ≡ b.config
unfolding run
run_config b [] = refl
run_config b (c ∷ cs) = run_config (step b c) cs ∙ step_config b c

-- Whatever calls a new breaker sees, at whatever times, its thresholds being 32-bit numbers: the time at which it opened is known
-- exactly when the circuit is not closed; a closed circuit has counted fewer failures than the
-- failure threshold, or none; in every state at most the threshold of failures is counted, or one;
-- and fewer successes than their threshold are counted, or none. So the next increment of either
-- 32-bit counter, where the code increments it, does not wrap.
pub run-IsValid :
    (c : CircuitBreakerConfig) (cs : List Call)
    → IsU32 c
    → IsValid (run (new_breaker c) cs) × IsUnwrapped (run (new_breaker c) cs)
unfolding new_breaker
run-IsValid c cs u =
    let valid = run-IsValid_of (new_breaker c) cs u (new_breaker-IsValid c) in
    (valid, IsValid-IsUnwrapped _ (rw (run_config (new_breaker c) cs) u) valid)

-- A circuit that is open ignores further failures.
record_failure-opened : (b : CircuitBreaker) (n : ℕ) → b.state ≡ opened → record_failure b n ≡ b
unfolding record_failure
record_failure-opened b n e = ground arith

opened_stays :
    (b : CircuitBreaker) (ns : List ℕ) → b.state ≡ opened → (run b (map fails ns)).state ≡ opened
unfolding run step
opened_stays b [] e = e
opened_stays b (n ∷ ns) e = rw (record_failure-opened b n e, run) (opened_stays b ns e)

-- A failure of a closed circuit is counted, and opens it at the threshold.
record_failure-closed :
    (b : CircuitBreaker) (n : ℕ)
    → b.config.enabled ≡ true
    → b.config.failure_threshold < 4294967296
    → b.state ≡ closed
    → b.failure_count < b.config.failure_threshold
    → let next = record_failure b n in
      (next.config ≡ b.config)
      × (next.failure_count ≡ b.failure_count + 1)
      × (next.state
          ≡ (if leb b.config.failure_threshold (b.failure_count + 1) then opened else closed))
unfolding record_failure
record_failure-closed b n on u s h = ground arith

failures_open_from :
    (b : CircuitBreaker) (ns : List ℕ)
    → b.config.enabled ≡ true
    → b.config.failure_threshold < 4294967296
    → b.state ≡ closed
    → b.failure_count < b.config.failure_threshold
    → (run b (map fails ns)).state
      ≡ (if leb b.config.failure_threshold (b.failure_count + length ns) then opened else closed)
unfolding run step
failures_open_from b [] on u s h = ground arith
failures_open_from b (n ∷ ns) on u s h = ground (
  arith,
  record_failure-closed b n on u s h,
  opened_stays (record_failure b n) ns,
  failures_open_from (record_failure b n) ns,
)

-- An enabled breaker with a positive failure threshold opens at exactly that many failures in a
-- row: after any number of failures and nothing else, at any times, it is open if they are at
-- least the threshold, and closed if they are fewer.
pub failures_open :
    (c : CircuitBreakerConfig) (ns : List ℕ)
    → c.enabled ≡ true
    → IsU32 c
    → 0 < c.failure_threshold
    → (run (new_breaker c) (map fails ns)).state
      ≡ (if leb c.failure_threshold (length ns) then opened else closed)
unfolding new_breaker
failures_open c ns on u h =
    failures_open_from (new_breaker c) ns on u.failure_u32 refl h ∙ ground arith
