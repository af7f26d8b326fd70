-- ===== src/Extension/Inboxes.antt =====
-- pg-tide-ext/src/inbox.rs: named inboxes, with a table of messages for each.
pub mod Calls
pub mod Processing
pub mod Runs
pub mod Marks
mod Examples
use pg_tide.Prelude.{
  ℕ, ◌+◌, Bool, true, false, not, Option, none, some, List, [], ◌∷◌, ◌++◌, map, ◌&&◌, ◌==◌, any,
  find, filter, if◌then◌else◌, is_some, length,
}
use pg_tide.Prelude.Int.{ℤ}
use pg_tide.Prelude.Text.{Text, text, text_eq}
use pg_tide.Foreign.{Foreign}
use pg_tide.Extension.Failures.{
  PgResult, ok, err, ◌>>=◌, ◌>>◌, run_spi, inbox_already_exists, inbox_not_found, spi_error,
}
use pg_tide.Extension.Validation.{validate_identifier}

-- A row of `tide.tide_inbox_config`.
pub record Inbox : Type 0 where
  pub name : Text
  pub schema : Text
  pub max_retries : ℤ
  pub processed_retention_hours : ℤ
  pub dlq_retention_hours : ℤ

-- A row of the table of an inbox.
pub record InboxMessage (F : Foreign) : Type 0 where
  pub event_id : Text
  pub source : Option Text
  pub payload : Option F.Value
  pub headers : Option F.Value
  pub received_at : F.DateTime
  pub processed_at : Option F.DateTime
  pub retry_count : ℕ
  pub last_error : Option Text

pub record InboxTable (F : Foreign) : Type 0 where
  pub schema : Text
  pub table : Text
  pub messages : List (InboxMessage F)

pub record Inboxes (F : Foreign) : Type 0 where
  pub configs : List Inbox
  pub tables : List (InboxTable F)

-- What PostgreSQL answers: the error of a statement, numbered in the order of the source, the table
-- that it takes a name for, the time, and the errors of its own.
pub record Answers (F : Foreign) : Type 0 where
  pub fault : ℕ → Option F.Error
  pub identifier_of : Text → Text
  pub now : F.DateTime
  pub undefined_table : F.Error
  pub out_of_range : F.Error

abbrev pub is_inbox : Text → Inbox → Bool
is_inbox name i = text_eq name i.name

abbrev pub schema_or_null : Text → Option Inbox → PgResult Text
schema_or_null name none = err (spi_error (text "inbox schema is NULL for '" ++ name ++ text "'"))
schema_or_null name (some i) = ok i.schema

module _ {F : Foreign} where
  abbrev pub is_table : Text → Text → InboxTable F → Bool
  is_table schema table t = text_eq schema t.schema && text_eq table t.table

  abbrev pub inbox_table : Answers F → Text → Text
  inbox_table answers name = answers.identifier_of (name ++ text "_inbox")

  unfoldable pub inbox_exists : Option F.Error → Text → Inboxes F → PgResult Bool
  inbox_exists fault name s = do
    run_spi F fault (text "inbox_exists SPI error: ")
    ok (any (is_inbox name) s.configs)

  unfoldable pub inbox_schema : Option F.Error → Text → Inboxes F → PgResult Text
  inbox_schema fault name s = do
    run_spi F fault (text "read inbox schema '" ++ name ++ text "': ")
    schema_or_null name (find (is_inbox name) s.configs)

  -- The guards that the calls on an inbox start with.
  unfoldable pub existing_schema : Answers F → Text → Inboxes F → PgResult Text
  unfolding inbox_exists inbox_schema
  existing_schema answers name s = do
    exists ← inbox_exists (answers.fault 0) name s
    if exists then inbox_schema (answers.fault 1) name s else err (inbox_not_found name)

  -- An UPDATE of the table: its rows by a function, or the error of PostgreSQL.
  abbrev pub set_messages :
      (List (InboxMessage F) → List (InboxMessage F)) → Text → Text → InboxTable F → InboxTable F
  set_messages f schema table t =
      if is_table schema table t then record t { messages = f t.messages } else t

  abbrev pub update_rows :
      (List (InboxMessage F) → List (InboxMessage F)) → Text → Text → Inboxes F → Inboxes F
  update_rows f schema table s = record s { tables = map (set_messages f schema table) s.tables }

  abbrev pub rows_or_undefined :
      Answers F → Text → Option (InboxTable F) → PgResult (List (InboxMessage F))
  rows_or_undefined answers context none =
      err (spi_error (context ++ F.error_text answers.undefined_table))
  rows_or_undefined answers context (some t) = ok t.messages

  unfoldable pub rows_of_table :
      Answers F → Option F.Error → Text → Text → Text → Inboxes F → PgResult (List (InboxMessage F))
  rows_of_table answers fault context schema table s = do
    run_spi F fault context
    rows_or_undefined answers context (find (is_table schema table) s.tables)

  abbrev pub mark_row : Text → F.DateTime → InboxMessage F → InboxMessage F
  mark_row event_id now m =
      if text_eq event_id m.event_id && not (is_some m.processed_at)
      then record m { processed_at = some now }
      else m

  unfoldable pub inbox_mark_processed : Answers F → Text → Text → Inboxes F → PgResult (Inboxes F)
  unfolding existing_schema rows_of_table
  inbox_mark_processed answers name event_id s = do
    schema ← existing_schema answers name s
    rows ←
        rows_of_table answers (answers.fault 2) (text "mark_processed: ") schema
          (inbox_table answers name) s
    ok (update_rows (map (mark_row event_id answers.now)) schema (inbox_table answers name) s)

  abbrev pub fail_row : Text → Text → InboxMessage F → InboxMessage F
  fail_row event_id error m =
      if text_eq event_id m.event_id
      then record m { retry_count = m.retry_count + 1; last_error = some error }
      else m

  -- `retry_count + 1` beyond an INT.
  abbrev pub is_overflow : Text → InboxMessage F → Bool
  is_overflow event_id m = text_eq event_id m.event_id && m.retry_count == 2147483647

  unfoldable pub inbox_mark_failed :
      Answers F → Text → Text → Text → Inboxes F → PgResult (Inboxes F)
  unfolding existing_schema rows_of_table
  inbox_mark_failed answers name event_id error s = do
    schema ← existing_schema answers name s
    rows ←
        rows_of_table answers (answers.fault 2) (text "mark_failed: ") schema
          (inbox_table answers name) s
    if any (is_overflow event_id) rows
        then err (spi_error (text "mark_failed: " ++ F.error_text answers.out_of_range))
        else ok (update_rows (map (fail_row event_id error)) schema (inbox_table answers name) s)

  abbrev pub is_replayed : Text → InboxMessage F → Bool
  is_replayed event_id m = text_eq event_id m.event_id && not (is_some m.processed_at)

  abbrev pub replay_row : Text → InboxMessage F → InboxMessage F
  replay_row event_id m =
      if is_replayed event_id m
      then record m { retry_count = 0; last_error = none; processed_at = none }
      else m

  -- The loop over the events, with the number of the next statement.
  unfoldable pub replay_events :
      Answers F → Text → Text → ℕ → List Text → ℕ → Inboxes F → PgResult (ℕ × Inboxes F)
  unfolding rows_of_table
  replay_events answers schema table n [] replayed s = ok (replayed, s)
  replay_events answers schema table n (event_id ∷ events) replayed s =
      rows_of_table answers (answers.fault n)
        (text "replay inbox event '" ++ event_id ++ text "': ") schema table s
      >>= λ rows.
          replay_events answers schema table (n + 1) events
            (replayed + length (filter (is_replayed event_id) rows))
            (update_rows (map (replay_row event_id)) schema table s)

  unfoldable pub replay_inbox_messages :
      Answers F → Text → List Text → Inboxes F → PgResult (ℕ × Inboxes F)
  unfolding existing_schema replay_events
  replay_inbox_messages answers name event_ids s = do
    schema ← existing_schema answers name s
    replay_events answers schema (inbox_table answers name) 2 event_ids 0 s

  -- `CREATE TABLE IF NOT EXISTS`.
  abbrev pub create_table : Text → Text → List (InboxTable F) → List (InboxTable F)
  create_table schema table tables =
      if any (is_table schema table) tables
      then tables
      else tables ++ record { schema = schema; table = table; messages = [] } ∷ []

  unfoldable pub inbox_create :
      Answers F → Text → Text → ℤ → ℤ → ℤ → Inboxes F → PgResult (Inboxes F)
  unfolding validate_identifier inbox_exists
  inbox_create answers name schema max_retries processed_retention_hours dlq_retention_hours s = do
    validate_identifier name
    validate_identifier schema
    exists ← inbox_exists (answers.fault 0) name s
    if exists
        then err (inbox_already_exists name)
        else run_spi F (answers.fault 1) (text "INSERT tide_inbox_config: ")
          >> run_spi F (answers.fault 2) (text "CREATE inbox table: ")
          >> ok (record {
            configs =
                s.configs
                ++ record {
                  name = name;
                  schema = schema;
                  max_retries = max_retries;
                  processed_retention_hours = processed_retention_hours;
                  dlq_retention_hours = dlq_retention_hours;
                }
                  ∷ [];
            tables = create_table schema (inbox_table answers name) s.tables;
          })

  unfoldable pub drop_existing : Answers F → Text → Inboxes F → PgResult (Inboxes F)
  unfolding inbox_schema
  drop_existing answers name s = do
    schema ← inbox_schema (answers.fault 1) name s
    run_spi F (answers.fault 2) (text "drop inbox table '" ++ name ++ text "': ")
    run_spi F (answers.fault 3) (text "DELETE tide_inbox_config: ")
    ok (record {
      configs = filter (λ i. not (is_inbox name i)) s.configs;
      tables = filter (λ t. not (is_table schema (inbox_table answers name) t)) s.tables;
    })

  unfoldable pub inbox_drop : Answers F → Text → Bool → Inboxes F → PgResult (Inboxes F)
  unfolding inbox_exists drop_existing
  inbox_drop answers name if_exists s = do
    exists ← inbox_exists (answers.fault 0) name s
    if exists
        then drop_existing answers name s
        else if if_exists
        then ok s
        else err (inbox_not_found name)
