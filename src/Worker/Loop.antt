-- ===== src/Worker/Loop.antt =====
-- pg-tide-relay/src/coordinator.rs, `worker_inner`: the start of a worker and one iteration of its
-- loop. Metrics, logs, health marks and fail points are left out; so are the rate limiter and the
-- semaphore, which only delay a publish.
pub mod Commits
pub mod Safety
pub mod Growth
pub mod Iterations
pub mod Offsets
pub mod Progress
mod Examples
use pg_tide.Prelude.{
  ℕ, ◌+◌, ◌*◌, ◌%◌, Bool, true, false, Option, none, some, List, [], ◌∷◌, ◌++◌, map, if◌then◌else◌,
  ltb, unwrap_or,
}
use pg_tide.Prelude.Int.{ℤ, pos}
use pg_tide.Prelude.Text.{Text, text}
use pg_tide.Foreign.{Foreign}
use pg_tide.Errors.{RelayError, Result, ok, err, ◌>>=◌}
use pg_tide.Envelope.{RelayMessage}
use pg_tide.Dlq.{ErrorKind, DlqEntry, DlqRow, from_message}
use pg_tide.Source.Rows.{Row}
use pg_tide.Source.Poll.{OutboxPollerSource, configure_replay}
use pg_tide.Source.Commit.{Acked, StoredOffset, new_simple_native}
use pg_tide.Breaker.{CircuitBreaker, new_breaker, wrap_u32}
use pg_tide.Worker.Outcome.{
  ReplayRange, PollOutcome, batch, empty, replay_complete, transient_error, permanent_error,
  PublishOutcome, failure, WorkerDirective, continue, backoff_ms, route, shut_down, DlqOutcome,
  all_written, retry_later, dlq_permanent, poll_and_decode, publish_with_circuit_breaker, success,
  circuit_breaker_open, handle_publish_outcome, route_to_dlq, commit_checkpoint,
}
use pg_tide.Worker.Limits.{validate_publish_limits}
use pg_tide.Worker.State.{Settings, Answers, Worker, Next, goes_on, breaks, fails_with}

-- `(poll_backoff_ms * 2).min(max_poll_backoff_ms)`, on `u64`.
unfoldable pub next_backoff : ℕ → ℕ → ℕ
next_backoff backoff limit =
    let doubled = (backoff * 2) % 18446744073709551616 in
    if ltb doubled limit then doubled else limit

module _ {F : Foreign} (s : Settings) where
  -- A sleep that a stop may cut short.
  abbrev pub sleep : Answers F → Next F
  sleep a = if a.stop_in_sleep then breaks else goes_on

  abbrev pub after_commit : Result F (Unit {0}) → Next F
  after_commit (ok _) = goes_on
  after_commit (err e) = fails_with e

  unfoldable pub commit : Answers F → Option (RelayMessage F) → Worker F → Next F × Worker F
  commit a checkpoint w =
      let (answer, acked) = commit_checkpoint a.offset_answer w.acked checkpoint in
      (after_commit answer, record w { acked = acked })

  -- `write_delivery_receipts`: one statement, of which a failure is only logged.
  unfoldable pub write_delivery_receipts : Bool → List (RelayMessage F) → Worker F → Worker F
  write_delivery_receipts true msgs w = w
  write_delivery_receipts false msgs w = record w {
    receipts = w.receipts ++ map (λ m. (unwrap_or m.outbox_id (pos 0), m.dedup_key)) msgs;
  }

  -- The arm of `Continue`.
  abbrev pub receipts_of : Answers F → List (RelayMessage F) → Next F × Worker F → Next F × Worker F
  receipts_of a msgs (goes_on, w) = (goes_on, write_delivery_receipts a.receipts_fault msgs w)
  receipts_of a msgs (n, w) = (n, w)

  abbrev pub entry_of : Text → ErrorKind → RelayMessage F → DlqEntry F
  entry_of reason kind m =
      from_message (text "forward") s.name (text "outbox") s.sink_name m reason kind

  -- `consecutive_failures = 0` after the checkpoint of dead letters.
  abbrev pub reset_failures : Next F × Worker F → Next F × Worker F
  reset_failures (goes_on, w) = (goes_on, record w { consecutive_failures = 0 })
  reset_failures (n, w) = (n, w)

  -- The arm of `RouteToDlq`, once the dead letters are written or not.
  abbrev pub after_dlq :
      Answers F → Option (RelayMessage F) → DlqOutcome F → Worker F → Next F × Worker F
  after_dlq a checkpoint all_written w = reset_failures (commit a checkpoint w)
  after_dlq a checkpoint retry_later w = (sleep a, w)
  after_dlq a checkpoint (dlq_permanent e) w = (fails_with e, w)

  unfoldable pub follow :
      Answers F
      → List (RelayMessage F)
      → Option (RelayMessage F)
      → WorkerDirective F
      → Worker F
      → Next F × Worker F
  follow a msgs checkpoint continue w = receipts_of a msgs (commit a checkpoint w)
  follow a msgs checkpoint (backoff_ms n) w = (sleep a, w)
  follow a msgs checkpoint (route reason kind) w =
      let (outcome, dead) =
        route_to_dlq a.display a.dlq_faults (map (entry_of reason kind) msgs) w.dead in
      after_dlq a checkpoint outcome (record w { dead = dead })
  follow a msgs checkpoint (shut_down e) w = (fails_with e, w)

  -- The publish of a batch that passes the limits; a success is an acceptance by the sink.
  abbrev pub take_accepted :
      List (RelayMessage F)
      → PublishOutcome F × CircuitBreaker
      → Worker F
      → PublishOutcome F × Worker F
  take_accepted msgs (success, breaker) w =
      (success, record w { breaker = breaker; accepted = w.accepted ++ msgs })
  take_accepted msgs (outcome, breaker) w = (outcome, record w { breaker = breaker })

  abbrev pub try_publish :
      Answers F
      → List (RelayMessage F)
      → Result F (Unit {0})
      → Worker F
      → PublishOutcome F × Worker F
  try_publish a msgs (ok _) w =
      take_accepted msgs
        (publish_with_circuit_breaker a.publish msgs w.breaker a.asked_at a.told_at) w
  try_publish a msgs (err e) w = (failure e, w)

  unfoldable pub handle :
      Answers F
      → List (RelayMessage F)
      → Option (RelayMessage F)
      → PublishOutcome F × Worker F
      → Next F × Worker F
  unfolding follow
  handle a msgs checkpoint (outcome, w) =
      let (directive, failures) =
        handle_publish_outcome outcome w.consecutive_failures s.dlq_config s.poll_interval_ms in
      follow a msgs checkpoint directive (record w { consecutive_failures = failures })

  -- The body of the loop after the poll.
  unfoldable pub deliver :
      Answers F → List (RelayMessage F) → Option (RelayMessage F) → Worker F → Next F × Worker F
  unfolding handle
  deliver a [] checkpoint w = commit a checkpoint w
  deliver a (m ∷ ms) checkpoint w =
      if s.dry_run
      then commit a checkpoint (record w { observed = w.observed ++ m ∷ ms })
      else handle a (m ∷ ms) checkpoint (
          try_publish a (m ∷ ms)
            (validate_publish_limits a.encode s.name s.sink_type s.descriptor (m ∷ ms)) w)

  abbrev pub back_off : Answers F → Worker F → Next F × Worker F
  back_off a w =
      if a.stop_in_sleep
      then (breaks, record w { consecutive_failures = wrap_u32 (w.consecutive_failures + 1) })
      else (
        goes_on,
        record w {
          consecutive_failures = wrap_u32 (w.consecutive_failures + 1);
          poll_backoff_ms = next_backoff w.poll_backoff_ms s.max_poll_backoff_ms;
        },
      )

  unfoldable pub after_poll : Answers F → PollOutcome F → Worker F → Next F × Worker F
  unfolding deliver
  after_poll a (batch msgs checkpoint) w =
      deliver a msgs checkpoint (record w { poll_backoff_ms = s.poll_interval_ms })
  after_poll a empty w = (sleep a, record w { poll_backoff_ms = s.poll_interval_ms })
  after_poll a replay_complete w = (breaks, w)
  after_poll a (transient_error e) w = back_off a w
  after_poll a (permanent_error e) w = (fails_with e, w)

  abbrev pub with_source : OutboxPollerSource → Worker F → Worker F
  with_source source w = record w { acked = record w.acked { source = source } }

  -- One iteration; `table` has the rows that are committed when the worker polls.
  unfoldable pub iterate : Answers F → List (Row F) → Worker F → Next F × Worker F
  unfolding after_poll
  iterate a table w =
      if a.stop_asked
      then (breaks, w)
      else let (outcome, source) =
          poll_and_decode w.acked.source a.poll_answers table s.batch_size w.replay in
        after_poll a outcome (with_source source w)

  abbrev pub configured : Result F (Unit {0}) × OutboxPollerSource → Result F OutboxPollerSource
  configured (ok _, source) = ok source
  configured (err e, source) = err e

  abbrev pub prepare : OutboxPollerSource → Option ReplayRange → Result F OutboxPollerSource
  prepare source none = ok source
  prepare source (some range) = configured (configure_replay source range.from_id)

  -- What a worker does before its loop, with the fault of the query of its offset. The stored
  -- offset and what was done outside stay.
  unfoldable pub start : Option F.Error → Option ReplayRange → Worker F → Result F (Worker F)
  start fault replay w = do
    source ← new_simple_native s.outbox s.subject_template s.name fault w.acked.stored
    ready ← prepare source replay
    ok (record w {
      acked = record w.acked { source = ready };
      replay = replay;
      breaker = new_breaker s.breaker_config;
      consecutive_failures = 0;
      poll_backoff_ms = s.poll_interval_ms;
    })
