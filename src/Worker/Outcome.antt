-- ===== src/Worker/Outcome.antt =====
-- pg-tide-relay/src/coordinator.rs: the helpers of the worker's loop.
pub mod Retries
pub mod Polls
use pg_tide.Prelude.{
  ℕ, ◌+◌, Bool, true, false, Option, none, some, List, [], ◌∷◌, ◌++◌, ◌&&◌, if◌then◌else◌, ltb,
  unwrap_or, filter, is_some, get_last?,
}
use pg_tide.Prelude.Int.{ℤ, pos, leb_ℤ}
use pg_tide.Prelude.Text.{Text, text}
use pg_tide.Foreign.{Foreign}
use pg_tide.Errors.{
  RelayError, Result, ok, err, RetryClass, transient, permanent, ConnectorFailureCode, is_transient,
  retry_class, public_code, public_summary, owned_connector_failure, other, unavailable, timeout,
  throttled, authentication, authorization, tls_verification, invalid_destination,
  message_too_large, protocol_rejection, invalid_config_code, shutdown, unknown,
}
use pg_tide.Envelope.{RelayMessage}
use pg_tide.Dlq.{
  ErrorKind, DlqConfig, DlqEntry, DlqRow, InsertFaults, insert_batch, sink_permanent,
  max_retries_exceeded,
}
use pg_tide.Source.Rows.{Row, PollAnswers}
use pg_tide.Source.Poll.{OutboxPollerSource, poll}
use pg_tide.Source.Commit.{OffsetAnswer, Acked, acknowledge}
use pg_tide.Breaker.{CircuitBreaker, should_allow, record_success, record_failure, wrap_u32}

pub record ReplayRange : Type 0 where
  pub from_id : ℤ
  pub to_id : ℤ

pub data PollOutcome (F : Foreign) : Type 0 where
  batch : List (RelayMessage F) → Option (RelayMessage F) → PollOutcome F
  empty replay_complete : PollOutcome F
  transient_error permanent_error : RelayError F → PollOutcome F

pub data PublishOutcome (F : Foreign) : Type 0 where
  success circuit_breaker_open : PublishOutcome F
  failure : RelayError F → PublishOutcome F

pub data WorkerDirective (F : Foreign) : Type 0 where
  continue : WorkerDirective F
  backoff_ms : ℕ → WorkerDirective F
  route : Text → ErrorKind → WorkerDirective F  -- `RouteToDlq`
  shut_down : RelayError F → WorkerDirective F

pub data DlqOutcome (F : Foreign) : Type 0 where
  all_written retry_later : DlqOutcome F
  dlq_permanent : RelayError F → DlqOutcome F

-- `Display for ConnectorFailureCode`.
code_text : ConnectorFailureCode → Text
code_text unavailable = text "unavailable"
code_text timeout = text "timeout"
code_text throttled = text "throttled"
code_text authentication = text "authentication"
code_text authorization = text "authorization"
code_text tls_verification = text "tls_verification"
code_text invalid_destination = text "invalid_destination"
code_text message_too_large = text "message_too_large"
code_text protocol_rejection = text "protocol_rejection"
code_text invalid_config_code = text "invalid_config"
code_text shutdown = text "shutdown"
code_text unknown = text "unknown"

module _ {F : Foreign} where
  abbrev pub in_range : ReplayRange → RelayMessage F → Bool
  in_range range m =
      let id = unwrap_or m.outbox_id (pos 0) in leb_ℤ range.from_id id && leb_ℤ id range.to_id

  -- `filter_replay_batch`; the callers give both bounds.
  unfoldable pub filter_replay_batch : List (RelayMessage F) → ReplayRange → List (RelayMessage F)
  filter_replay_batch msgs range = filter (in_range range) msgs

  -- `poll_and_decode`, once the source has answered.
  abbrev pub or_complete : List (RelayMessage F) → Option (RelayMessage F) → PollOutcome F
  or_complete [] checkpoint = replay_complete
  or_complete (m ∷ ms) checkpoint = batch (m ∷ ms) checkpoint

  unfoldable pub classify_poll :
      Result F (List (RelayMessage F)) → Option ReplayRange → PollOutcome F
  unfolding filter_replay_batch
  classify_poll (err e) replay = if is_transient e then transient_error e else permanent_error e
  classify_poll (ok []) none = empty
  classify_poll (ok []) (some range) = replay_complete
  classify_poll (ok (m ∷ ms)) none = batch (m ∷ ms) (get_last? (m ∷ ms))
  classify_poll (ok (m ∷ ms)) (some range) =
      or_complete (filter_replay_batch (m ∷ ms) range) (get_last? (m ∷ ms))

  unfoldable pub poll_and_decode :
      OutboxPollerSource
      → PollAnswers F
      → List (Row F)
      → ℤ
      → Option ReplayRange
      → PollOutcome F × OutboxPollerSource
  unfolding classify_poll
  poll_and_decode source answers table batch_size replay =
      let (polled, next) = poll source answers table batch_size in
      (classify_poll polled replay, next)

  abbrev pub published :
      Result F (Unit {0}) → CircuitBreaker → ℕ → PublishOutcome F × CircuitBreaker
  published (ok _) breaker now = (success, record_success breaker)
  published (err e) breaker now = (failure e, record_failure breaker now)

  -- `publish_with_circuit_breaker`: the sink's answer to the batch, and the times at which the
  -- breaker is asked and told.
  unfoldable pub publish_with_circuit_breaker :
      (List (RelayMessage F) → Result F (Unit {0}))
      → List (RelayMessage F)
      → CircuitBreaker
      → ℕ
      → ℕ
      → PublishOutcome F × CircuitBreaker
  publish_with_circuit_breaker publish msgs breaker asked_at told_at =
      let (asked, allowed) = should_allow breaker asked_at in
      if allowed then published (publish msgs) asked told_at else (circuit_breaker_open, asked)

  -- `safe_dlq_reason`.
  unfoldable pub safe_dlq_reason : RelayError F → Text
  unfolding code_text
  safe_dlq_reason e = code_text (public_code e) ++ (text ": " ++ public_summary e)

  -- The answer of `handle_publish_outcome` to a failure, with the failures counted so far.
  unfoldable pub handle_failure : RelayError F → RetryClass → ℕ → DlqConfig → ℕ → WorkerDirective F
  unfolding safe_dlq_reason
  handle_failure e permanent failures dlq interval =
      if dlq.enabled
      then route (safe_dlq_reason e) sink_permanent
      else shut_down
          (unwrap_or (owned_connector_failure e) (other (text "permanent connector failure")))
  handle_failure e transient failures dlq interval =
      if dlq.enabled && ltb dlq.max_retries failures
      then route (safe_dlq_reason e) max_retries_exceeded
      else backoff_ms interval

  unfoldable pub handle_publish_outcome :
      PublishOutcome F → ℕ → DlqConfig → ℕ → WorkerDirective F × ℕ
  unfolding handle_failure
  handle_publish_outcome success failures dlq interval = (continue, 0)
  handle_publish_outcome circuit_breaker_open failures dlq interval = (
    (if dlq.enabled
        then route (text "circuit breaker open") sink_permanent
        else backoff_ms interval),
    failures,
  )
  handle_publish_outcome (failure e) failures dlq interval =
      let counted = wrap_u32 (failures + 1) in
      (handle_failure e (retry_class e) counted dlq interval, counted)

  abbrev pub dlq_outcome : Result F (Unit {0}) → DlqOutcome F
  dlq_outcome (ok _) = all_written
  dlq_outcome (err e) = if is_transient e then retry_later else dlq_permanent e

  -- `route_to_dlq`.
  unfoldable pub route_to_dlq :
      (RelayError F → Text)
      → InsertFaults F
      → List (DlqEntry F)
      → List (DlqRow F)
      → DlqOutcome F × List (DlqRow F)
  route_to_dlq display faults entries table =
      let (answer, next) = insert_batch display faults entries table in (dlq_outcome answer, next)

  -- `commit_checkpoint`.
  unfoldable pub commit_checkpoint :
      OffsetAnswer F → Acked → Option (RelayMessage F) → Result F (Unit {0}) × Acked
  commit_checkpoint answer a none = (ok tt, a)
  commit_checkpoint answer a (some checkpoint) = acknowledge answer a checkpoint
