-- ===== src/Breaker/Invariant.antt =====
-- What holds of a breaker between two calls.
use pg_tide.Prelude.{◌<◌, ◌≤◌, ◌+◌, ◌⊎◌, ◌≡◌, true, none, arith, is_some}
use pg_tide.Breaker.{
  CircuitBreakerConfig, CircuitBreaker, Call, closed, allows, succeeds, fails, should_allow,
  record_success, record_failure, step, wrap_u32,
}

-- A breaker whose circuit is not closed knows when it opened, a closed one has not; a closed one
-- has counted fewer failures than its threshold, or none, and no state has more failures than the
-- threshold, or one; fewer successes are counted than their threshold, or none.
pub record IsValid (b : CircuitBreaker) : Type 0 where
  pub opened_known : (b.state ≡ closed → b.opened_at ≡ none)
  pub reopened_known : (b.state ≡ closed → ⊥) → is_some b.opened_at ≡ true
  pub failures_below :
      b.state ≡ closed → (b.failure_count < b.config.failure_threshold) ⊎ (b.failure_count ≡ 0)
  pub failures_bounded : (b.failure_count ≤ b.config.failure_threshold) ⊎ (b.failure_count ≡ 1)
  pub successes_below : (b.success_count < b.config.success_threshold) ⊎ (b.success_count ≡ 0)

-- The next increment of either counter, where the code increments it, does not wrap.
pub record IsUnwrapped (b : CircuitBreaker) : Type 0 where
  pub failures_exact : b.state ≡ closed → wrap_u32 (b.failure_count + 1) ≡ b.failure_count + 1
  pub successes_exact : wrap_u32 (b.success_count + 1) ≡ b.success_count + 1

pub record IsU32 (c : CircuitBreakerConfig) : Type 0 where
  pub failure_u32 : c.failure_threshold < 4294967296
  pub success_u32 : c.success_threshold < 4294967296

pub step-IsValid : (b : CircuitBreaker) (c : Call) → IsU32 b.config → IsValid b → IsValid (step b c)
unfolding step should_allow record_success record_failure
step-IsValid b (allows now) u v = ground arith
step-IsValid b (succeeds now) u v = ground arith
step-IsValid b (fails now) u v = ground arith

pub IsValid-IsUnwrapped : (b : CircuitBreaker) → IsU32 b.config → IsValid b → IsUnwrapped b
IsValid-IsUnwrapped b u v = record {
  failures_exact = λ e. ground (arith, v.failures_below e);
  successes_exact = ground (arith, v.successes_below);
}

pub step_config : (b : CircuitBreaker) (c : Call) → (step b c).config ≡ b.config
unfolding step should_allow record_success record_failure
step_config b (allows now) = ground arith
step_config b _ = ground arith
