-- ===== src/Worker/State.antt =====
-- pg-tide-relay/src/coordinator.rs: the settings and the state of a worker, and what its
-- surroundings answer in one iteration of its loop.
use pg_tide.Prelude.{ℕ, Bool, Option, List}
use pg_tide.Prelude.Int.{ℤ}
use pg_tide.Prelude.Text.{Text}
use pg_tide.Foreign.{Foreign}
use pg_tide.Errors.{RelayError, Result}
use pg_tide.Envelope.{RelayMessage}
use pg_tide.Dlq.{DlqConfig, DlqRow, InsertFaults}
use pg_tide.Source.Rows.{PollAnswers}
use pg_tide.Source.Commit.{OffsetAnswer, Acked}
use pg_tide.Breaker.{CircuitBreaker, CircuitBreakerConfig}
use pg_tide.Worker.Outcome.{ReplayRange}
use pg_tide.Worker.Limits.{Capabilities}

-- What `worker_inner` reads from the pipeline's configuration, and the run's replay range.
pub record Settings : Type 0 where
  pub name : Text
  pub outbox : Text
  pub subject_template : Text
  pub sink_name : Text
  pub sink_type : Text
  pub descriptor : Option (Option Capabilities)
  pub batch_size : ℤ
  pub poll_interval_ms : ℕ
  pub max_poll_backoff_ms : ℕ
  pub dry_run : Bool
  pub dlq_config : DlqConfig
  pub breaker_config : CircuitBreakerConfig

pub record Answers (F : Foreign) : Type 0 where
  pub stop_asked : Bool  -- `*stop_rx.borrow()` at the top
  pub stop_in_sleep : Bool  -- `stop_rx.changed()` before the sleep ends
  pub poll_answers : PollAnswers F
  pub publish : List (RelayMessage F) → Result F (Unit {0})
  pub encode : RelayMessage F → Result F ℕ  -- bytes of `serde_json::to_vec`
  pub asked_at : ℕ
  pub told_at : ℕ
  pub offset_answer : OffsetAnswer F
  pub dlq_faults : InsertFaults F
  pub display : RelayError F → Text
  pub receipts_fault : Bool

-- The worker's locals, with the record of what it has done outside: `accepted` has the batches for
-- which `publish` returned `Ok`, `observed` those that a dry run logged.
pub record Worker (F : Foreign) : Type 0 where
  pub acked : Acked
  pub replay : Option ReplayRange
  pub breaker : CircuitBreaker
  pub consecutive_failures : ℕ  -- u32
  pub poll_backoff_ms : ℕ  -- u64
  pub accepted : List (RelayMessage F)
  pub observed : List (RelayMessage F)
  pub dead : List (DlqRow F)
  pub receipts : List (ℤ × Text)

-- How an iteration ends: the loop goes on, breaks, or returns an error.
pub data Next (F : Foreign) : Type 0 where
  goes_on breaks : Next F
  fails_with : RelayError F → Next F
