-- ===== src/Extension/Inboxes/Runs.antt =====
-- Sequences of calls on inboxes.
use pg_tide.Prelude.{
  Occurs, ℕ, Bool, true, false, List, [], ◌∷◌, ◌++◌, map, ◌+◌, any, if◌then◌else◌,
}
use pg_tide.Prelude.Text.{Text, text}
use pg_tide.Prelude.Int.{ℤ}
use pg_tide.Foreign.{Foreign}
use pg_tide.Extension.Failures.{PgResult, ok, err, ◌>>◌, run_spi, Returns, Returns-bind, spi_error}
use pg_tide.Extension.Validation.{validate_identifier}
use pg_tide.Extension.Inboxes.{
  InboxTable, Inboxes, Answers, is_table, inbox_table, existing_schema, update_rows, rows_of_table,
  mark_row, inbox_mark_processed, fail_row, is_overflow, inbox_mark_failed, replay_row,
  replay_events, replay_inbox_messages, create_table, inbox_create, inbox_exists,
}
use pg_tide.Extension.Inboxes.Calls.{
  or_unchanged, or_unreplayed, InboxCall, creates, marks_processed, marks_failed, replays,
  inbox_call, run_inboxes,
}
use pg_tide.Extension.Inboxes.Processing.{
  Kept, Occurs-left, IsKept-refl, Kept-refl, Kept-trans, Kept-update_rows, mark_row-IsLater,
  replay_row-IsLater, fail_row-IsLater,
}

module _ {F : Foreign} where
  or_unchanged-Kept :
      (s : Inboxes F) (r : PgResult (Inboxes F)) → Returns (Kept s) r → Kept s (or_unchanged s r)
  or_unchanged-Kept s (ok r) h = h
  or_unchanged-Kept s (err e) h = Kept-refl s

  or_unreplayed-Kept :
      (s : Inboxes F) (r : PgResult (ℕ × Inboxes F))
      → Returns (λ p. Kept s p.1) r
      → Kept s (or_unreplayed s r)
  or_unreplayed-Kept s (ok r) h = h
  or_unreplayed-Kept s (err e) h = Kept-refl s

  mark-Kept :
      (answers : Answers F) (name event : Text) (s : Inboxes F)
      → Returns (Kept s) (inbox_mark_processed answers name event s)
  unfolding inbox_mark_processed
  mark-Kept answers name event s =
      Returns-bind (Kept s) (existing_schema answers name s) _ (λ schema found.
        Returns-bind (Kept s) (rows_of_table answers (answers.fault 2) _ schema _ s) _ (λ rows read.
          Kept-update_rows (mark_row event answers.now) schema (inbox_table answers name) s
            (mark_row-IsLater event answers.now)))

  fail-Kept :
      (answers : Answers F) (name event error : Text) (s : Inboxes F)
      → Returns (Kept s) (inbox_mark_failed answers name event error s)
  unfolding inbox_mark_failed
  fail-Kept answers name event error s =
      Returns-bind (Kept s) (existing_schema answers name s) _ (λ schema found.
        Returns-bind (Kept s) (rows_of_table answers (answers.fault 2) _ schema _ s) _
          (λ rows read. by_overflow schema (any (is_overflow event) rows)))
    where
      by_overflow :
          (schema : Text) (b : Bool)
          → Returns (Kept s) (
              if b
              then err (spi_error (text "mark_failed: " ++ F.error_text answers.out_of_range))
              else ok
                  (update_rows (map (fail_row event error)) schema (inbox_table answers name) s))
      by_overflow schema true = tt
      by_overflow schema false =
          Kept-update_rows (fail_row event error) schema (inbox_table answers name) s
            (fail_row-IsLater event error)

  replay_events-Kept :
      (answers : Answers F) (schema table : Text) (n : ℕ) (events : List Text) (replayed : ℕ)
      (first s : Inboxes F)
      → Kept first s
      → Returns (λ p. Kept first p.1) (replay_events answers schema table n events replayed s)
  unfolding replay_events
  replay_events-Kept answers schema table n [] replayed first s h = h
  replay_events-Kept answers schema table n (event ∷ events) replayed first s h =
      Returns-bind (λ p. Kept first p.1) (rows_of_table answers (answers.fault n) _ schema table s)
        _
        (λ rows read.
          replay_events-Kept answers schema table (n + 1) events _ first
            (update_rows (map (replay_row event)) schema table s)
            (Kept-trans first s _ h
              (Kept-update_rows (replay_row event) schema table s (replay_row-IsLater event))))

  replay-Kept :
      (answers : Answers F) (name : Text) (events : List Text) (s : Inboxes F)
      → Returns (λ p. Kept s p.1) (replay_inbox_messages answers name events s)
  unfolding replay_inbox_messages
  replay-Kept answers name events s =
      Returns-bind (λ p. Kept s p.1) (existing_schema answers name s) _
        (λ schema found.
          replay_events-Kept answers schema (inbox_table answers name) 2 events 0 s s (Kept-refl s))

  create_table-Occurs :
      (schema table : Text) (tables : List (InboxTable F)) (t : InboxTable F)
      → Occurs t tables
      → Occurs t (create_table schema table tables)
  create_table-Occurs schema table tables t o = by_existing (any (is_table schema table) tables)
    where
      by_existing :
          (b : Bool)
          → Occurs t (
              if b
              then tables
              else tables ++ record { schema = schema; table = table; messages = [] } ∷ [])
      by_existing true = o
      by_existing false = Occurs-left tables _ t o

  Returns-if :
      (Q : Inboxes F → Type 0) (b : Bool) (x y : PgResult (Inboxes F))
      → Returns Q x
      → Returns Q y
      → Returns Q (if b then x else y)
  Returns-if Q true x y h k = h
  Returns-if Q false x y h k = k

  create-Kept :
      (answers : Answers F) (name schema : Text) (a b c : ℤ) (s : Inboxes F)
      → Returns (Kept s) (inbox_create answers name schema a b c s)
  unfolding inbox_create Kept
  create-Kept answers name schema a b c s =
      Returns-bind (Kept s) (validate_identifier name) _ (λ x1 e1.
        Returns-bind (Kept s) (validate_identifier schema) _ (λ x2 e2.
          Returns-bind (Kept s) (inbox_exists (answers.fault 0) name s) _ (λ exists e3.
            Returns-if (Kept s) exists _ _ tt (
              Returns-bind (Kept s) (run_spi F (answers.fault 1) _ >> run_spi F (answers.fault 2) _)
                _ (λ done e4 t o. (t, create_table-Occurs schema _ s.tables t o, IsKept-refl t))))))

  inbox_call-Kept : (c : InboxCall F) (s : Inboxes F) → Kept s (inbox_call c s)
  unfolding inbox_call
  inbox_call-Kept (creates answers name schema a b c) s =
      or_unchanged-Kept s (inbox_create answers name schema a b c s)
        (create-Kept answers name schema a b c s)
  inbox_call-Kept (marks_processed answers name event) s =
      or_unchanged-Kept s (inbox_mark_processed answers name event s)
        (mark-Kept answers name event s)
  inbox_call-Kept (marks_failed answers name event error) s =
      or_unchanged-Kept s (inbox_mark_failed answers name event error s)
        (fail-Kept answers name event error s)
  inbox_call-Kept (replays answers name events) s =
      or_unreplayed-Kept s (replay_inbox_messages answers name events s)
        (replay-Kept answers name events s)

  -- After any sequence of calls that create inboxes, mark messages processed or failed and replay
  -- them, with any statements failing, every table is there with every message that it had, and a
  -- message that was processed is processed at the same time.
  pub run_inboxes-Kept : (calls : List (InboxCall F)) (s : Inboxes F) → Kept s (run_inboxes calls s)
  unfolding run_inboxes
  run_inboxes-Kept [] s = Kept-refl s
  run_inboxes-Kept (c ∷ calls) s =
      Kept-trans s (inbox_call c s) _ (inbox_call-Kept c s)
        (run_inboxes-Kept calls (inbox_call c s))
