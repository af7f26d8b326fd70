-- ===== src/Extension/Inboxes/Examples.antt =====
-- An inbox whose consumer marks an event, which is replayed later.
use pg_tide.Prelude.{ℕ, ◌≡◌, refl, Option, none, some, List, [], ◌∷◌, ◌++◌, inl, true, false}
use pg_tide.Prelude.Int.{pos}
use pg_tide.Prelude.Text.{Text, text, text_eq}
use pg_tide.Foreign.Samples.{sample}
use pg_tide.Extension.Failures.{ok, err, spi_error}
use pg_tide.Extension.Inboxes.{
  Inbox, InboxMessage, InboxTable, Inboxes, Answers, existing_schema, inbox_mark_processed,
  replay_inbox_messages, inbox_drop, inbox_mark_failed, is_table, inbox_table,
}
use pg_tide.Extension.Inboxes.Calls.{InboxCall, creates, marks_failed, replays, run_inboxes}
use pg_tide.Extension.Inboxes.Processing.{Kept}
use pg_tide.Extension.Inboxes.Runs.{run_inboxes-Kept}
use pg_tide.Extension.Inboxes.Marks.{IsDone, inbox_mark_processed-IsDone}

abbrev answers : ℕ → Answers sample
answers now = record {
  fault = λ n. none;
  identifier_of = λ name. name;
  now = now;
  undefined_table = 42 ∷ [];
  out_of_range = 43 ∷ [];
}

abbrev message : Text → Option ℕ → ℕ → InboxMessage sample
message event processed retries = record {
  event_id = event;
  source = none;
  payload = none;
  headers = none;
  received_at = 1;
  processed_at = processed;
  retry_count = retries;
  last_error = none;
}

abbrev inbox : Inbox
inbox = record {
  name = text "orders";
  schema = text "tide";
  max_retries = pos 3;
  processed_retention_hours = pos 72;
  dlq_retention_hours = pos 0;
}

abbrev orders : Option ℕ → ℕ → InboxTable sample
orders processed retries = record {
  schema = text "tide";
  table = text "orders_inbox";
  messages = message (text "a") processed retries ∷ message (text "b") (some 4) 0 ∷ [];
}

abbrev inboxes : Option ℕ → ℕ → Inboxes sample
inboxes processed retries = record { configs = inbox ∷ []; tables = orders processed retries ∷ [] }

abbrev later_calls : List (InboxCall sample)
later_calls =
    replays (answers 10) (text "orders") (text "a" ∷ text "b" ∷ [])
    ∷ marks_failed (answers 11) (text "orders") (text "a") (text "late")
    ∷ creates (answers 12) (text "mail") (text "tide") (pos 3) (pos 72) (pos 0)
    ∷ []

marked :
    inbox_mark_processed (answers 9) (text "orders") (text "a") (inboxes none 2)
    ≡ ok (inboxes (some 9) 2)
unfolding inbox_mark_processed text text_eq
marked = refl

marked_again :
    inbox_mark_processed (answers 12) (text "orders") (text "a") (inboxes (some 9) 2)
    ≡ ok (inboxes (some 9) 2)
unfolding inbox_mark_processed text text_eq
marked_again = refl

replayed :
    replay_inbox_messages
      (answers 9)
      (text "orders")
      (text "a" ∷ text "b" ∷ text "a" ∷ [])
      (inboxes none 3)
    ≡ ok (2, inboxes none 0)
unfolding replay_inbox_messages text text_eq
replayed = refl

retries_end :
    inbox_mark_failed (answers 9) (text "orders") (text "a") (text "late") (inboxes none 2147483647)
    ≡ err (spi_error (text "mark_failed: " ++ 43 ∷ []))
unfolding inbox_mark_failed text text_eq
retries_end = refl

dropped :
    inbox_drop (answers 9) (text "orders") false (inboxes none 0)
    ≡ ok (record { configs = []; tables = [] })
unfolding inbox_drop text text_eq
dropped = refl

run_inboxes-Kept_example : Kept (inboxes (some 9) 2) (run_inboxes later_calls (inboxes (some 9) 2))
run_inboxes-Kept_example = run_inboxes-Kept later_calls (inboxes (some 9) 2)

orders_schema : existing_schema (answers 9) (text "orders") (inboxes none 2) ≡ ok (text "tide")
unfolding existing_schema text text_eq
orders_schema = refl

on_orders : is_table (text "tide") (inbox_table (answers 9) (text "orders")) (orders none 2) ≡ true
unfolding text text_eq
on_orders = refl

inbox_mark_processed-IsDone_example :
    IsDone (text "a") (orders none 2) (run_inboxes later_calls (inboxes (some 9) 2))
inbox_mark_processed-IsDone_example =
    inbox_mark_processed-IsDone (answers 9) (text "orders") (text "a") (inboxes none 2)
      (inboxes (some 9) 2) later_calls marked (text "tide") orders_schema (orders none 2) (inl refl)
      on_orders (message (text "a") none 2) (inl refl) refl
