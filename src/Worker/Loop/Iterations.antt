-- ===== src/Worker/Loop/Iterations.antt =====
-- An iteration of the worker's loop, and each restart, keeps its offsets covered.
use pg_tide.Prelude.{
  ◌≤◌, ◌≡◌, refl, sym, subst, Bool, true, false, Option, none, some, List, [], ◌∷◌, All,
  if◌then◌else◌, is_some, get_last?,
}
use pg_tide.Prelude.Text.{Text}
use pg_tide.Foreign.{Foreign}
use pg_tide.Errors.{Result, ok, err, is_transient}
use pg_tide.Envelope.{RelayMessage}
use pg_tide.Source.Rows.{Row}
use pg_tide.Source.Poll.{OutboxPollerSource, poll}
use pg_tide.Source.Order.{Above, last_id}
use pg_tide.Source.Coverage.{Kept, Kept-map, Handles, Upto, Upto-map, IsBatch, poll-IsBatch}
use pg_tide.Worker.Outcome.{
  ReplayRange, PollOutcome, batch, empty, replay_complete, transient_error, permanent_error,
  poll_and_decode, classify_poll, or_complete, filter_replay_batch,
}
use pg_tide.Worker.State.{Settings, Answers, Worker, Next, breaks}
use pg_tide.Worker.Loop.{after_poll, with_source, iterate}
use pg_tide.Worker.Loop.Commits.{RowHandled, grow-IsSafe, IsSafe, IsPending}
use pg_tide.Worker.Loop.Safety.{deliver-IsSafe, IsPending-grow}

rename : (Q : Text → Text → Type 0) (m n t u : Text) → m ≡ n → t ≡ u → Q m t → Q n u
rename Q m n t u e f h = subst (λ x. Q x u) e (subst (Q m) f h)

module _ {F : Foreign} (s : Settings) where
  abbrev pub PendingIf : List (Row F) → Worker F → PollOutcome F → Type 1
  PendingIf table w (batch msgs checkpoint) = IsPending s table msgs checkpoint w
  PendingIf table w outcome = Unit

  module _ (table published : List (Row F)) (w : Worker F) (safe : IsSafe s published w)
      (kept : Kept (RowHandled s w) table published) where
    batch-IsPending :
        (all : List (RelayMessage F)) (msgs : List (RelayMessage F))
        → IsBatch w.acked.source table published all
        → (w.acked.source.replay_mode ≡ false → msgs ≡ all)
        → IsPending s published msgs (get_last? all) w
    batch-IsPending all msgs b whole =
        let (name, template) = safe.names in
        let source = w.acked.source in
        record {
          token = b.token;
          last = b.last;
          is_last = b.is_last;
          has_token = b.has_token;
          extends = λ live P keeps done.
              let more : (row : Row F)
                  → RowHandled s w row
                  → Handles P s.outbox s.subject_template row =
                λ row h. (h.0, keeps _ h.1) in
              rename (λ x y. Upto (Handles P x y) published b.token) source.outbox_name s.outbox
                source.subject_template s.subject_template name template
                (b.extends P
                  (rename (λ x y. Kept (Handles P x y) table published) s.outbox source.outbox_name
                    s.subject_template source.subject_template (sym name) (sym template)
                    (Kept-map (RowHandled s w) (Handles P s.outbox s.subject_template) table
                      published more kept))
                  (rename (λ x y. Upto (Handles P x y) published source.last_offset) s.outbox
                    source.outbox_name s.subject_template source.subject_template (sym name)
                    (sym template)
                    (Upto-map (RowHandled s w) (Handles P s.outbox s.subject_template) published
                      source.last_offset more (safe.covered.live live)))
                  (subst (All P) (whole live) done));
        }

    classify-PendingIf :
        (polled : Result F (List (RelayMessage F))) (replay : Option ReplayRange)
        → w.acked.source.replay_mode ≡ is_some replay
        → ((m : RelayMessage F) (ms : List (RelayMessage F))
            → polled ≡ ok (m ∷ ms)
            → IsBatch w.acked.source table published (m ∷ ms))
        → PendingIf published w (classify_poll polled replay)
    unfolding classify_poll
    classify-PendingIf (err e) replay mode h = by_class (is_transient e)
      where
        by_class :
            (b : Bool) → PendingIf published w (if b then transient_error e else permanent_error e)
        by_class true = tt
        by_class false = tt
    classify-PendingIf (ok []) none mode h = tt
    classify-PendingIf (ok []) (some range) mode h = tt
    classify-PendingIf (ok (m ∷ ms)) none mode h =
        batch-IsPending (m ∷ ms) (m ∷ ms) (h m ms refl) (λ live. refl)
    classify-PendingIf (ok (m ∷ ms)) (some range) mode h =
        by_filter (filter_replay_batch (m ∷ ms) range)
      where
        by_filter :
            (kept : List (RelayMessage F))
            → PendingIf published w (or_complete kept (get_last? (m ∷ ms)))
        by_filter [] = tt
        by_filter (x ∷ xs) =
            batch-IsPending (m ∷ ms) (x ∷ xs) (h m ms refl) (λ live. cc (mode, live))

  either-IsSafe :
      (table : List (Row F)) (b : Bool) (x y : Next F × Worker F)
      → IsSafe s table x.1
      → IsSafe s table y.1
      → (let chosen : Next F × Worker F = if b then x else y in IsSafe s table chosen.1)
  either-IsSafe table true x y p q = p
  either-IsSafe table false x y p q = q

  after_poll-IsSafe :
      (a : Answers F) (table : List (Row F)) (outcome : PollOutcome F) (w : Worker F)
      → PendingIf table w outcome
      → IsSafe s table w
      → IsSafe s table (after_poll s a outcome w).1
  unfolding after_poll
  after_poll-IsSafe a table (batch msgs checkpoint) w p safe =
      let fresh : Worker F = record w { poll_backoff_ms = s.poll_interval_ms } in
      deliver-IsSafe s a table msgs checkpoint fresh
        (IsPending-grow s table msgs checkpoint w fresh refl (λ m h. h) p)
        (grow-IsSafe s table w fresh refl refl (λ m h. h) safe)
  after_poll-IsSafe a table empty w p safe = grow-IsSafe s table w _ refl refl (λ m h. h) safe
  after_poll-IsSafe a table replay_complete w p safe = safe
  after_poll-IsSafe a table (transient_error e) w p safe =
      either-IsSafe table a.stop_in_sleep _ _ (grow-IsSafe s table w _ refl refl (λ m h. h) safe)
        (grow-IsSafe s table w _ refl refl (λ m h. h) safe)
  after_poll-IsSafe a table (permanent_error e) w p safe = safe

  -- One iteration of the loop, whatever its surroundings answer, keeps the worker safe: every
  -- published row up to the stored offset, and for a live worker every one up to its own offset, has
  -- a message that the sink accepted, a dry run observed or the dead letters hold.
  pub iterate-IsSafe :
      (a : Answers F) (table published : List (Row F)) (w : Worker F)
      → Above 0 table
      → last_id 0 table ≤ last_id 0 published
      → Kept (RowHandled s w) table published
      → IsSafe s published w
      → IsSafe s published (iterate s a table w).1
  unfolding iterate poll_and_decode poll
  iterate-IsSafe a table published w sorted within kept safe = by_stop a.stop_asked
    where
      polled : Result F (List (RelayMessage F)) × OutboxPollerSource
      polled = poll w.acked.source a.poll_answers table s.batch_size

      v : Worker F
      v = with_source s polled.1 w

      v-IsSafe : IsSafe s published v
      v-IsSafe = record {
        mode = safe.mode;
        names = safe.names;
        covered = record { live = safe.covered.live; stored = safe.covered.stored };
      }

      by_stop :
          (b : Bool)
          → IsSafe s published
              (if b then (breaks, w) else after_poll s a (classify_poll polled.0 w.replay) v).1
      by_stop true = safe
      by_stop false =
          after_poll-IsSafe a published (classify_poll polled.0 w.replay) v
            (classify-PendingIf table published v v-IsSafe kept polled.0 w.replay safe.mode
              (λ m ms e. move (
                poll-IsBatch w.acked.source a.poll_answers table published s.batch_size m ms sorted
                  within e)))
            v-IsSafe
        where
          move :
              {ms : List (RelayMessage F)}
              → IsBatch w.acked.source table published ms
              → IsBatch polled.1 table published ms
          move b = record {
            token = b.token;
            last = b.last;
            is_last = b.is_last;
            has_token = b.has_token;
            extends = b.extends;
          }
