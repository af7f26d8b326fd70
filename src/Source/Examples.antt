-- ===== src/Source/Examples.antt =====
-- A source with two rows before it, and commits of its offsets.
use pg_tide.Prelude.{ℕ, ◌≡◌, refl, false, none, some, List, [], ◌∷◌, arith}
use pg_tide.Prelude.Int.{pos}
use pg_tide.Prelude.Text.{text}
use pg_tide.Foreign.Samples.{sample}
use pg_tide.Errors.{ok}
use pg_tide.Envelope.{RelayMessage, outbox_offset}
use pg_tide.Source.Rows.{Row, PollAnswers}
use pg_tide.Source.Poll.{OutboxPollerSource, poll}
use pg_tide.Source.Order.{message_of}
use pg_tide.Source.Commit.{Acked, lost_after, written, update_simple_offset, acknowledge}
use pg_tide.Source.Offsets.{IsWrite, IsAck, update_simple_offset-IsWrite, acknowledge-IsAck}
use pg_tide.Source.Coverage.{IsBatch, poll-IsBatch}

abbrev row : ℕ → Row sample
row n = record { id = n; payload = n; headers = none; created_at = none }

abbrev orders : OutboxPollerSource
orders = record {
  outbox_name = text "orders";
  subject_template = text "tide";
  pipeline_id = text "orders";
  last_offset = pos 0;
  pending_cc_oids = [];
  replay_mode = false;
}

abbrev calm_poll : PollAnswers sample
calm_poll = record {
  begin_fault = none;
  lock_fault = none;
  query_fault = none;
  negative_limit = [];
  commit_fault = none;
  large_object = λ oid. ok 0;
}

abbrev message : ℕ → RelayMessage sample
message n = message_of (text "orders") (text "tide") (row n) n

update_simple_offset-IsWrite_example : IsWrite (some (pos 3)) (pos 5) (
    update_simple_offset {F = sample}
      (lost_after (text "08006"))
      (text "orders")
      (some (pos 3))
      (pos 5))
update_simple_offset-IsWrite_example =
    update_simple_offset-IsWrite (lost_after (text "08006")) (text "orders") (some (pos 3)) (pos 5)

abbrev acked : Acked
acked = record { source = orders; stored = none; unlinked = [] }

acknowledge-IsAck_example : IsAck acked (pos 4) (acknowledge {F = sample} written acked (message 4))
acknowledge-IsAck_example = acknowledge-IsAck written acked (message 4) (pos 4) refl

abbrev first_two : List (Row sample)
first_two = row 2 ∷ row 4 ∷ []

poll_two : (poll orders calm_poll first_two (pos 9)).0 ≡ ok (message 2 ∷ message 4 ∷ [])
unfolding poll pg_tide.Source.Poll.fenced_native_rows pg_tide.Source.Poll.select_after
    pg_tide.Source.Poll.row_messages pg_tide.Source.Poll.set_last_token
    pg_tide.Source.Rows.decode_payload pg_tide.Source.Rows.claim_check pg_tide.Source.Rows.plain
    pg_tide.Envelope.into_messages pg_tide.Envelope.messages_of pg_tide.Envelope.new_forward
poll_two = refl

poll-IsBatch_example : IsBatch orders first_two (row 1 ∷ first_two) (message 2 ∷ message 4 ∷ [])
poll-IsBatch_example =
    poll-IsBatch orders calm_poll first_two (row 1 ∷ first_two) (pos 9) (message 2) (message 4 ∷ [])
      (omega arith, (omega arith, tt)) (omega arith) poll_two
