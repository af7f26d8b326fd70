-- ===== src/Extension/Inboxes/Calls.antt =====
-- Sequences of calls on inboxes, with what PostgreSQL answers to each.
use pg_tide.Prelude.{ℕ, List, [], ◌∷◌}
use pg_tide.Prelude.Int.{ℤ}
use pg_tide.Prelude.Text.{Text}
use pg_tide.Foreign.{Foreign}
use pg_tide.Extension.Failures.{PgResult, ok, err}
use pg_tide.Extension.Inboxes.{
  Answers, Inboxes, inbox_create, inbox_mark_processed, inbox_mark_failed, replay_inbox_messages,
}

-- A call that drops no inbox, with what PostgreSQL answers to it.
pub data InboxCall (F : Foreign) : Type 0 where
  creates : Answers F → Text → Text → ℤ → ℤ → ℤ → InboxCall F
  marks_processed : Answers F → Text → Text → InboxCall F
  marks_failed : Answers F → Text → Text → Text → InboxCall F
  replays : Answers F → Text → List Text → InboxCall F

module _ {F : Foreign} where
  -- An error aborts the transaction.
  abbrev pub or_unchanged : Inboxes F → PgResult (Inboxes F) → Inboxes F
  or_unchanged s (ok r) = r
  or_unchanged s (err e) = s

  abbrev pub or_unreplayed : Inboxes F → PgResult (ℕ × Inboxes F) → Inboxes F
  or_unreplayed s (ok r) = r.1
  or_unreplayed s (err e) = s

  unfoldable pub inbox_call : InboxCall F → Inboxes F → Inboxes F
  unfolding inbox_create inbox_mark_processed inbox_mark_failed replay_inbox_messages
  inbox_call (creates answers name schema max_retries processed dlq) s =
      or_unchanged s (inbox_create answers name schema max_retries processed dlq s)
  inbox_call (marks_processed answers name event_id) s =
      or_unchanged s (inbox_mark_processed answers name event_id s)
  inbox_call (marks_failed answers name event_id error) s =
      or_unchanged s (inbox_mark_failed answers name event_id error s)
  inbox_call (replays answers name event_ids) s =
      or_unreplayed s (replay_inbox_messages answers name event_ids s)

  unfoldable pub run_inboxes : List (InboxCall F) → Inboxes F → Inboxes F
  unfolding inbox_call
  run_inboxes [] s = s
  run_inboxes (c ∷ cs) s = run_inboxes cs (inbox_call c s)
