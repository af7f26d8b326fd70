-- ===== src/Worker/Loop/Examples.antt =====
-- A live worker with one row before it.
use pg_tide.Prelude.{ℕ, ◌≡◌, refl, true, false, none, some, [], ◌∷◌, arith}
use pg_tide.Prelude.Int.{pos}
use pg_tide.Prelude.Text.{text}
use pg_tide.Foreign.Samples.{sample}
use pg_tide.Errors.{ok}
use pg_tide.Envelope.{RelayMessage, outbox_offset}
use pg_tide.Dlq.{committed, default_dlq}
use pg_tide.Breaker.{default_config, new_breaker, should_allow}
use pg_tide.Source.Rows.{Row, PollAnswers}
use pg_tide.Source.Poll.{poll}
use pg_tide.Source.Order.{message_of}
use pg_tide.Source.Commit.{written}
use pg_tide.Worker.Limits.{validate_publish_limits}
use pg_tide.Worker.State.{Settings, Answers, Worker}
use pg_tide.Worker.Loop.{iterate}
use pg_tide.Worker.Loop.Progress.{IsDelivered, iterate-IsDelivered}

abbrev orders : Settings
orders = record {
  name = text "orders";
  outbox = text "orders";
  subject_template = text "tide";
  sink_name = text "stdout";
  sink_type = text "stdout";
  descriptor = some none;
  batch_size = pos 10;
  poll_interval_ms = 1000;
  max_poll_backoff_ms = 60000;
  dry_run = false;
  dlq_config = default_dlq;
  breaker_config = default_config;
}

abbrev calm : Answers sample
calm = record {
  stop_asked = false;
  stop_in_sleep = false;
  poll_answers = record {
    begin_fault = none;
    lock_fault = none;
    query_fault = none;
    negative_limit = [];
    commit_fault = none;
    large_object = λ oid. ok 0;
  };
  publish = λ ms. ok tt;
  encode = λ m. ok 100;
  asked_at = 0;
  told_at = 0;
  offset_answer = written;
  dlq_faults = record {
    begin_fault = none;
    insert_fault = λ i. none;
    rollback_fault = none;
    commit = committed;
  };
  display = λ e. [];
  receipts_fault = false;
}

abbrev waiting : Worker sample
waiting = record {
  acked = record {
    source = record {
      outbox_name = text "orders";
      subject_template = text "tide";
      pipeline_id = text "orders";
      last_offset = pos 3;
      pending_cc_oids = [];
      replay_mode = false;
    };
    stored = some (pos 3);
    unlinked = [];
  };
  replay = none;
  breaker = new_breaker default_config;
  consecutive_failures = 2;
  poll_backoff_ms = 4000;
  accepted = [];
  observed = [];
  dead = [];
  receipts = [];
}

abbrev row : ℕ → Row sample
row n = record { id = n; payload = n; headers = none; created_at = none }

abbrev message : ℕ → RelayMessage sample
message n = message_of (text "orders") (text "tide") (row n) n

poll_one :
    (poll waiting.acked.source calm.poll_answers (row 3 ∷ row 5 ∷ []) (pos 10)).0
    ≡ ok (message 5 ∷ [])
unfolding poll pg_tide.Source.Poll.fenced_native_rows pg_tide.Source.Poll.select_after
    pg_tide.Source.Poll.row_messages pg_tide.Source.Poll.set_last_token
    pg_tide.Source.Rows.decode_payload pg_tide.Source.Rows.claim_check pg_tide.Source.Rows.plain
    pg_tide.Envelope.into_messages pg_tide.Envelope.messages_of pg_tide.Envelope.new_forward
poll_one = refl

allowed_now : (should_allow (new_breaker default_config) 0).1 ≡ true
unfolding should_allow new_breaker
allowed_now = refl

within_limits :
    validate_publish_limits calm.encode (text "orders") (text "stdout") (some none) (message 5 ∷ [])
    ≡ ok tt
unfolding validate_publish_limits
within_limits = refl

iterate-IsDelivered_example :
    IsDelivered orders waiting
      (message 5 ∷ [])
      (pos 5)
      (iterate orders calm (row 3 ∷ row 5 ∷ []) waiting)
iterate-IsDelivered_example =
    iterate-IsDelivered orders calm (row 3 ∷ row 5 ∷ []) waiting (message 5) (message 5) [] (pos 5)
      refl refl refl refl poll_one refl refl (omega arith) within_limits allowed_now refl refl
