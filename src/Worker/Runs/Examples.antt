-- ===== src/Worker/Runs/Examples.antt =====
-- A pipeline with three rows: two are delivered, the third is refused by the sink and becomes a
-- dead letter.
use pg_tide.Prelude.{ℕ, ◌≤◌, refl, true, false, none, some, List, [], ◌∷◌, length, arith}
use pg_tide.Prelude.Int.{pos}
use pg_tide.Prelude.Text.{text}
use pg_tide.Foreign.Samples.{sample}
use pg_tide.Errors.{
  RelayError, ok, err, connector_failure, protocol_rejection, permanent, other, retry_class,
}
use pg_tide.Envelope.{RelayMessage, outbox_offset}
use pg_tide.Dlq.{InsertFaults, committed, default_dlq}
use pg_tide.Breaker.{default_config}
use pg_tide.Source.Rows.{PollAnswers}
use pg_tide.Source.Poll.{poll}
use pg_tide.Source.Commit.{written}
use pg_tide.Worker.Outcome.{failure, poll_and_decode, handle_publish_outcome}
use pg_tide.Worker.Outcome.Polls.{IsPollOf, poll_and_decode-IsPollOf}
use pg_tide.Worker.Outcome.Retries.{
  BacksOffThenRoutes, directives, directives_back_off_then_route, IsAllowed, may_retry,
  handle_publish_outcome-IsAllowed,
}
use pg_tide.Worker.Limits.{Capabilities, validate_publish_limits}
use pg_tide.Worker.Limits.Bounds.{IsSizeOf, validate_publish_limits-IsSizeOf}
use pg_tide.Worker.Loop.{iterate}
use pg_tide.Worker.Loop.Offsets.{IsMove, iterate-IsMove}
use pg_tide.Worker.State.{Settings, Answers}
use pg_tide.Worker.Runs.{World, Event, arrives, iterates, starts, sweeps, run, new_world}
use pg_tide.Worker.Runs.Delivery.{IsSound, run-IsSound}

abbrev nats_limits : Capabilities
nats_limits = record {
  max_batch_size = 100;
  max_batch_bytes = 16777216;
  max_message_bytes = 1048576;
}

abbrev orders : Settings
orders = record {
  name = text "orders";
  outbox = text "orders";
  subject_template = text "{stream_table}.{op}";
  sink_name = text "nats";
  sink_type = text "nats";
  descriptor = some (some nats_limits);
  batch_size = pos 2;
  poll_interval_ms = 1000;
  max_poll_backoff_ms = 60000;
  dry_run = false;
  dlq_config = record default_dlq { enabled = true };
  breaker_config = default_config;
}

abbrev calm_poll : PollAnswers sample
calm_poll = record {
  begin_fault = none;
  lock_fault = none;
  query_fault = none;
  negative_limit = [];
  commit_fault = none;
  large_object = λ oid. ok 0;
}

abbrev calm_dlq : InsertFaults sample
calm_dlq = record {
  begin_fault = none;
  insert_fault = λ i. none;
  rollback_fault = none;
  commit = committed;
}

abbrev calm : Answers sample
calm = record {
  stop_asked = false;
  stop_in_sleep = false;
  poll_answers = calm_poll;
  publish = λ ms. ok tt;
  encode = λ m. ok 100;
  asked_at = 0;
  told_at = 0;
  offset_answer = written;
  dlq_faults = calm_dlq;
  display = λ e. [];
  receipts_fault = false;
}

abbrev rejection : RelayError sample
rejection = connector_failure (text "nats") protocol_rejection permanent (text "no such subject")

abbrev refusing : Answers sample
refusing = record calm { publish = λ ms. err rejection }

abbrev three_rows : List (Event sample)
three_rows =
    arrives 0 10 none none
    ∷ arrives 4 11 none none
    ∷ arrives 0 12 none none
    ∷ starts none none
    ∷ iterates calm
    ∷ sweeps 1 (λ row. true) [] (pos 7 ∷ [])
    ∷ iterates refusing
    ∷ []

abbrev after_three : World sample
after_three = run orders (new_world orders) three_rows

run-IsSound_example : IsSound orders (run orders (new_world orders) three_rows)
run-IsSound_example = run-IsSound orders three_rows

iterate-IsMove_example :
    IsMove after_three.worker.acked
      (iterate orders calm after_three.table after_three.worker).1.acked
iterate-IsMove_example = iterate-IsMove orders calm after_three.table after_three.worker

poll_and_decode-IsPollOf_example :
    IsPollOf
      (some (record { from_id = pos 6; to_id = pos 6 }))
      (poll after_three.worker.acked.source calm_poll after_three.table (pos 5)).0
      (poll_and_decode after_three.worker.acked.source calm_poll after_three.table
        (pos 5)
        (some (record { from_id = pos 6; to_id = pos 6 }))).0
poll_and_decode-IsPollOf_example =
    poll_and_decode-IsPollOf after_three.worker.acked.source calm_poll after_three.table (pos 5)
      (some (record { from_id = pos 6; to_id = pos 6 }))

abbrev hiccup : RelayError sample
hiccup = other []

directives_back_off_then_route_example : BacksOffThenRoutes 1000 2 (
    directives
      (hiccup ∷ hiccup ∷ hiccup ∷ [])
      0
      (record default_dlq { enabled = true; max_retries = 2 })
      1000)
unfolding retry_class
directives_back_off_then_route_example =
    directives_back_off_then_route (hiccup ∷ hiccup ∷ hiccup ∷ []) 0 2
      (record default_dlq { enabled = true; max_retries = 2 }) 1000 (refl, (refl, (refl, tt))) refl
      refl (omega arith)

handle_publish_outcome-IsAllowed_example :
    IsAllowed false
      (may_retry (failure rejection))
      (handle_publish_outcome (failure rejection) 0 default_dlq 1000).0
handle_publish_outcome-IsAllowed_example =
    handle_publish_outcome-IsAllowed (failure rejection) 0 default_dlq 1000

abbrev one_message : RelayMessage sample
one_message = record {
  dedup_key = text "outbox_orders:1:0";
  subject = text "outbox_orders.insert";
  payload = 10;
  op = text "insert";
  is_full_refresh = false;
  outbox_id = some (pos 1);
  refresh_id = none;
  outbox_name = some (text "orders");
  headers = none;
  created_at = none;
  ack_token = outbox_offset (pos 1);
}

validate_publish_limits-IsSizeOf_example :
    (length (one_message ∷ []) ≤ 100)
    × ((size : ℕ) × (size ≤ 16777216) × IsSizeOf calm.encode 1048576 (one_message ∷ []) size)
unfolding validate_publish_limits
validate_publish_limits-IsSizeOf_example =
    validate_publish_limits-IsSizeOf calm.encode (text "orders") (text "nats") nats_limits
      (one_message ∷ []) refl (omega arith)
