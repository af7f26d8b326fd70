-- ===== src/Extension/Inboxes/Marks.antt =====
-- What a consumer of an inbox relies on: a message that it marked is never handed out again.
use pg_tide.Prelude.{
  Occurs, ◌≡◌, refl, sym, ap, ◌∙◌, subst, Bool, true, false, not, Option, none, some, List, map,
  ◌&&◌, if◌then◌else◌, is_some,
}
use pg_tide.Prelude.Text.{Text, text_eq, text_eq_refl}
use pg_tide.Foreign.{Foreign}
use pg_tide.Extension.Failures.{ok, >>=-eq-ok, PgResult-ok-injective}
use pg_tide.Extension.Inboxes.{
  InboxMessage, InboxTable, Inboxes, Answers, is_table, inbox_table, existing_schema, set_messages,
  update_rows, rows_of_table, mark_row, inbox_mark_processed,
}
use pg_tide.Extension.Inboxes.Calls.{InboxCall, run_inboxes}
use pg_tide.Extension.Inboxes.Processing.{Occurs-mapped, Kept}
use pg_tide.Extension.Inboxes.Runs.{run_inboxes-Kept}

-- The inboxes have a processed message of the event in the table.
pub record IsDone {F : Foreign} (event : Text) (t : InboxTable F) (s : Inboxes F) : Type 0 where
  pub table : InboxTable F
  pub is_there : Occurs table s.tables
  pub same_schema : table.schema ≡ t.schema
  pub same_table : table.table ≡ t.table
  pub message : InboxMessage F
  pub is_message : Occurs message table.messages
  pub on_event : message.event_id ≡ event
  pub time : F.DateTime
  pub is_processed : message.processed_at ≡ some time

module _ {F : Foreign} where
  mark_row_processed :
      (event : Text) (now : F.DateTime) (m : InboxMessage F)
      → m.event_id ≡ event
      → ((mark_row event now m).event_id ≡ event)
        × (time : F.DateTime) × ((mark_row event now m).processed_at ≡ some time)
  mark_row_processed event now m same =
      by_tests (text_eq event m.event_id) (ap (text_eq event) same ∙ text_eq_refl event)
        m.processed_at refl
    where
      by_tests :
          (b : Bool)
          → b ≡ true
          → (p : Option F.DateTime) → m.processed_at ≡ p
          → (let n : InboxMessage F =
                if b && not (is_some p) then record m { processed_at = some now } else m in
              (n.event_id ≡ event) × (time : F.DateTime) × (n.processed_at ≡ some time))
      by_tests false h p e = cc h
      by_tests true h none e = (same, now, refl)
      by_tests true h (some t) e = (same, t, e)

  -- When a call that marks an event of an inbox processed returns, each message of that event in the
  -- inbox's table is processed, and stays so through any sequence of later calls that drop no inbox,
  -- replays of the same event included.
  pub inbox_mark_processed-IsDone :
      (answers : Answers F) (name event : Text) (s r : Inboxes F) (calls : List (InboxCall F))
      → inbox_mark_processed answers name event s ≡ ok r
      → (schema : Text) → existing_schema answers name s ≡ ok schema
      → (t : InboxTable F) → Occurs t s.tables
      → is_table schema (inbox_table answers name) t ≡ true
      → (m : InboxMessage F) → Occurs m t.messages
      → m.event_id ≡ event
      → IsDone event t (run_inboxes calls r)
  unfolding inbox_mark_processed Kept
  inbox_mark_processed-IsDone answers name event s r calls h schema read t on is_its m has same =
      let (found, e1, h1) = >>=-eq-ok (existing_schema answers name s) _ h in
      let (rows, e2, h2) =
        >>=-eq-ok (rows_of_table answers (answers.fault 2) _ found (inbox_table answers name) s) _
          h1 in
      let schemas : found ≡ schema = PgResult-ok-injective found schema (sym e1 ∙ read) in
      let its : is_table found (inbox_table answers name) t ≡ true =
        subst (λ x. is_table x (inbox_table answers name) t ≡ true) (sym schemas) is_its in
      let next : Inboxes F =
        update_rows (map (mark_row event answers.now)) found (inbox_table answers name) s in
      let marked : InboxTable F = record t {
        messages = map (mark_row event answers.now) t.messages;
      } in
      let marks : set_messages (map (mark_row event answers.now)) found (inbox_table answers name) t
          ≡ marked =
        rw (its) refl in
      let there : Occurs marked next.tables =
        subst (λ x. Occurs x next.tables) marks
          (Occurs-mapped
            (set_messages (map (mark_row event answers.now)) found (inbox_table answers name))
            s.tables t on) in
      let (table, on_table, kept) = run_inboxes-Kept calls next marked there in
      let (message, on_message, later) =
        kept.keeps (mark_row event answers.now m)
          (Occurs-mapped (mark_row event answers.now) t.messages m has) in
      let (event_same, time, done) = mark_row_processed event answers.now m same in
      subst (λ x. IsDone event t (run_inboxes calls x)) (PgResult-ok-injective next r h2)
        (record {
          table = table;
          is_there = on_table;
          same_schema = kept.same_schema;
          same_table = kept.same_table;
          message = message;
          is_message = on_message;
          on_event = later.same_event ∙ event_same;
          time = time;
          is_processed = later.stays time done;
        })
