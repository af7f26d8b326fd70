-- ===== src/Breaker.antt =====
-- pg-tide-relay/src/circuit_breaker.rs. `Instant::now()` is an argument of each call, in
-- nanoseconds as the `Duration` half_open_timeout; `elapsed` before the instant is 0, as `Instant` has it. The counters are
-- u32 and their increment wraps, as in a release build.
pub mod Invariant
pub mod Trips
pub mod Timeouts
pub mod Recovery
mod Examples
use pg_tide.Prelude.{
  ℕ, ◌+◌, ◌-◌, ◌*◌, ◌%◌, Bool, true, false, Option, none, some, List, [], ◌∷◌, leb, if◌then◌else◌,
  unwrap_or, and_then,
}
use pg_tide.Foreign.{Foreign, as_u32}

-- `opened` is the source's `Open`, a reserved word here.
pub data CircuitState : Type 0 where
  closed opened half_open : CircuitState

pub record CircuitBreakerConfig : Type 0 where
  pub enabled : Bool
  pub failure_threshold : ℕ  -- u32
  pub success_threshold : ℕ  -- u32
  pub half_open_timeout : ℕ  -- Duration, in nanoseconds

-- `Duration::from_secs`.
abbrev pub from_secs : ℕ → ℕ
from_secs n = n * 1000000000

-- `CircuitBreakerConfig::default`.
abbrev pub default_config : CircuitBreakerConfig
default_config = record {
  enabled = false;
  failure_threshold = 5;
  success_threshold = 3;
  half_open_timeout = from_secs 30;
}

pub record CircuitBreaker : Type 0 where
  pub config : CircuitBreakerConfig
  pub state : CircuitState
  pub failure_count : ℕ  -- u32
  pub success_count : ℕ  -- u32
  pub opened_at : Option ℕ

-- `CircuitBreaker::new`.
unfoldable pub new_breaker : CircuitBreakerConfig → CircuitBreaker
new_breaker config = record {
  config = config;
  state = closed;
  failure_count = 0;
  success_count = 0;
  opened_at = none;
}

module _ (F : Foreign) where
  open F use {Value, get, as_bool, as_u64}

  -- `CircuitBreakerConfig::from_pipeline_config`.
  unfoldable pub config_from_pipeline : Value → CircuitBreakerConfig
  config_from_pipeline config = elim (get config "circuit_breaker") [
    | none ↦ default_config
    | some cb ↦ record {
      enabled = unwrap_or (and_then (get cb "enabled") as_bool) false;
      failure_threshold = as_u32 (unwrap_or (and_then (get cb "failure_threshold") as_u64) 5);
      success_threshold = as_u32 (unwrap_or (and_then (get cb "success_threshold") as_u64) 3);
      half_open_timeout =
          from_secs (unwrap_or (and_then (get cb "half_open_timeout_seconds") as_u64) 30);
    }
  ]

  -- `CircuitBreaker::from_pipeline_config`.
  unfoldable pub breaker_from_pipeline : Value → CircuitBreaker
  unfolding config_from_pipeline new_breaker
  breaker_from_pipeline config = new_breaker (config_from_pipeline config)

abbrev pub wrap_u32 : ℕ → ℕ
wrap_u32 n = n % 4294967296

-- The `Open` arm of `should_allow`.
probe : CircuitBreaker → Option ℕ → ℕ → CircuitBreaker × Bool
probe b none now = (b, false)
probe b (some opened_at) now =
    if leb b.config.half_open_timeout (now - opened_at)
    then (record b { state = half_open; success_count = 0 }, true)
    else (b, false)

allow : CircuitState → CircuitBreaker → ℕ → CircuitBreaker × Bool
unfolding probe
allow closed b now = (b, true)
allow opened b now = probe b b.opened_at now
allow half_open b now = (b, true)

unfoldable pub should_allow : CircuitBreaker → ℕ → CircuitBreaker × Bool
unfolding allow
should_allow b now = if b.config.enabled then allow b.state b now else (b, true)

-- The `HalfOpen` arm of `record_success`, once the counter is incremented.
recover : CircuitBreaker → CircuitBreaker
recover b =
    if leb b.config.success_threshold b.success_count
    then record b { state = closed; failure_count = 0; success_count = 0; opened_at = none }
    else b

succeed : CircuitState → CircuitBreaker → CircuitBreaker
unfolding recover
succeed closed b = record b { failure_count = 0 }
succeed half_open b = recover (record b { success_count = wrap_u32 (b.success_count + 1) })
succeed opened b = b

unfoldable pub record_success : CircuitBreaker → CircuitBreaker
unfolding succeed
record_success b = if b.config.enabled then succeed b.state b else b

-- The `Closed` arm of `record_failure`, once the counter is incremented.
trip : CircuitBreaker → ℕ → CircuitBreaker
trip b now =
    if leb b.config.failure_threshold b.failure_count
    then record b { state = opened; opened_at = some now }
    else b

fail : CircuitState → CircuitBreaker → ℕ → CircuitBreaker
unfolding trip
fail closed b now = trip (record b { failure_count = wrap_u32 (b.failure_count + 1) }) now
fail half_open b now = record b { state = opened; opened_at = some now; success_count = 0 }
fail opened b now = b

unfoldable pub record_failure : CircuitBreaker → ℕ → CircuitBreaker
unfolding fail
record_failure b now = if b.config.enabled then fail b.state b now else b

-- One use of the breaker by a worker, at a time.
pub data Call : Type 0 where
  allows succeeds fails : ℕ → Call

unfoldable pub step : CircuitBreaker → Call → CircuitBreaker
step b (allows now) = (should_allow b now).0
step b (succeeds now) = record_success b
step b (fails now) = record_failure b now

unfoldable pub run : CircuitBreaker → List Call → CircuitBreaker
run b [] = b
run b (c ∷ cs) = run (step b c) cs

-- What `should_allow` returns to the requests among the calls, in their order.
unfoldable pub answers : CircuitBreaker → List Call → List Bool
answers b [] = []
answers b (allows now ∷ cs) = (should_allow b now).1 ∷ answers (step b (allows now)) cs
answers b (succeeds now ∷ cs) = answers (step b (succeeds now)) cs
answers b (fails now ∷ cs) = answers (step b (fails now)) cs
