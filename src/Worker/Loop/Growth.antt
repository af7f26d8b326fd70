-- ===== src/Worker/Loop/Growth.antt =====
-- An iteration of the worker's loop never takes back what was done to a message.
use pg_tide.Prelude.{
  sym, subst, Bool, true, false, Option, List, [], ◌∷◌, ◌++◌, map, inl, inr, if◌then◌else◌,
}
use pg_tide.Prelude.Text.{Text}
use pg_tide.Foreign.{Foreign}
use pg_tide.Errors.{Result, ok, err, is_transient}
use pg_tide.Envelope.{RelayMessage}
use pg_tide.Breaker.{CircuitBreaker}
use pg_tide.Dlq.{ErrorKind, DlqRow, insert_batch}
use pg_tide.Dlq.Insert.{IsAtomic, IsExtended-kept, insert_batch-IsAtomic}
use pg_tide.Source.Rows.{Row}
use pg_tide.Worker.Outcome.{
  PublishOutcome, failure, success, circuit_breaker_open, WorkerDirective, continue, backoff_ms,
  route, shut_down, retry_later, dlq_permanent, dlq_outcome, route_to_dlq, PollOutcome, batch,
  empty, replay_complete, transient_error, permanent_error, handle_publish_outcome,
  publish_with_circuit_breaker, poll_and_decode,
}
use pg_tide.Worker.Limits.{validate_publish_limits}
use pg_tide.Worker.State.{Settings, Answers, Worker, Next, goes_on, breaks, fails_with}
use pg_tide.Worker.Loop.{
  commit, entry_of, receipts_of, reset_failures, write_delivery_receipts, after_dlq, follow,
  take_accepted, try_publish, handle, deliver, after_poll, with_source, iterate,
}
use pg_tide.Worker.Loop.Commits.{IsHandled, IsIn, IsIn-accept, IsIn-observe, IsIn-bury}

module _ {F : Foreign} (s : Settings) where
  -- All that is handled in the one state is in the other.
  abbrev pub Grows : Worker F → Worker F → Type 0
  Grows v w = (m : RelayMessage F) → IsHandled s v m → IsHandled s w m

  either-Grows :
      (v : Worker F) (b : Bool) (x y : Next F × Worker F)
      → Grows v x.1
      → Grows v y.1
      → (let chosen : Next F × Worker F = if b then x else y in Grows v chosen.1)
  either-Grows v true x y p q = p
  either-Grows v false x y p q = q

  commit-Grows :
      (a : Answers F) (checkpoint : Option (RelayMessage F)) (v w : Worker F)
      → Grows v w
      → Grows v (commit s a checkpoint w).1
  unfolding commit
  commit-Grows a checkpoint v w g m h = g m h

  receipts_of-Grows :
      (a : Answers F) (msgs : List (RelayMessage F)) (v : Worker F) (r : Next F × Worker F)
      → Grows v r.1
      → Grows v (receipts_of s a msgs r).1
  unfolding write_delivery_receipts
  receipts_of-Grows a msgs v (goes_on, w) g = by_fault a.receipts_fault
    where
      by_fault : (fault : Bool) → Grows v (write_delivery_receipts s fault msgs w)
      by_fault true m h = g m h
      by_fault false m h = g m h
  receipts_of-Grows a msgs v (breaks, w) g = g
  receipts_of-Grows a msgs v (fails_with e, w) g = g

  reset_failures-Grows :
      (v : Worker F) (r : Next F × Worker F) → Grows v r.1 → Grows v (reset_failures s r).1
  reset_failures-Grows v (goes_on, w) g = λ m h. g m h
  reset_failures-Grows v (breaks, w) g = g
  reset_failures-Grows v (fails_with e, w) g = g

  after_insert-Grows :
      (a : Answers F) (reason : Text) (kind : ErrorKind) (msgs : List (RelayMessage F))
      (checkpoint : Option (RelayMessage F)) (w : Worker F)
      (r : Result F (Unit {0}) × List (DlqRow F))
      → IsAtomic a.dlq_faults (map (entry_of s reason kind) msgs) w.dead r
      → Grows w (after_dlq s a checkpoint (dlq_outcome r.0) (record w { dead = r.1 })).1
  after_insert-Grows a reason kind msgs checkpoint w (ok x, new) atomic =
      reset_failures-Grows w (commit s a checkpoint (record w { dead = new })) (
        commit-Grows a checkpoint w (record w { dead = new })
          (λ m h.
            IsIn-bury s w.accepted w.observed w.dead new m (IsExtended-kept _ w.dead new atomic) h))
  after_insert-Grows a reason kind msgs checkpoint w (err e, new) atomic = by_class (is_transient e)
    where
      keeps : (m : RelayMessage F) → IsHandled s w m → IsIn s w.accepted w.observed new m
      keeps m h = elim atomic [
        | inl same ↦ subst (λ dead. IsIn s w.accepted w.observed dead m) (sym same) h
        | inr (error, lost, more) ↦
            IsIn-bury s w.accepted w.observed w.dead new m (IsExtended-kept _ w.dead new more) h
      ]

      by_class :
          (b : Bool)
          → Grows w
              (after_dlq s a checkpoint
                (if b then retry_later else dlq_permanent e)
                (record w { dead = new })).1
      by_class true = keeps
      by_class false = keeps

  follow-Grows :
      (a : Answers F) (msgs : List (RelayMessage F)) (checkpoint : Option (RelayMessage F))
      (d : WorkerDirective F) (w : Worker F)
      → Grows w (follow s a msgs checkpoint d w).1
  unfolding follow route_to_dlq
  follow-Grows a msgs checkpoint continue w =
      receipts_of-Grows a msgs w (commit s a checkpoint w)
        (commit-Grows a checkpoint w w (λ m h. h))
  follow-Grows a msgs checkpoint (backoff_ms n) w = λ m h. h
  follow-Grows a msgs checkpoint (route reason kind) w =
      after_insert-Grows a reason kind msgs checkpoint w
        (insert_batch a.display a.dlq_faults (map (entry_of s reason kind) msgs) w.dead)
        (insert_batch-IsAtomic a.display a.dlq_faults (map (entry_of s reason kind) msgs) w.dead)
  follow-Grows a msgs checkpoint (shut_down e) w = λ m h. h

  take_accepted-Grows :
      (msgs : List (RelayMessage F)) (r : PublishOutcome F × CircuitBreaker) (w : Worker F)
      → Grows w (take_accepted s msgs r w).1
  take_accepted-Grows msgs (success, breaker) w m h =
      IsIn-accept s w.accepted w.observed msgs w.dead m h
  take_accepted-Grows msgs (circuit_breaker_open, breaker) w m h = h
  take_accepted-Grows msgs (failure e, breaker) w m h = h

  try_publish-Grows :
      (a : Answers F) (msgs : List (RelayMessage F)) (limits : Result F (Unit {0})) (w : Worker F)
      → Grows w (try_publish s a msgs limits w).1
  try_publish-Grows a msgs (ok x) w =
      take_accepted-Grows msgs
        (publish_with_circuit_breaker a.publish msgs w.breaker a.asked_at a.told_at) w
  try_publish-Grows a msgs (err e) w = λ m h. h

  handle-Grows :
      (a : Answers F) (msgs : List (RelayMessage F)) (checkpoint : Option (RelayMessage F))
      (v : Worker F) (r : PublishOutcome F × Worker F)
      → Grows v r.1
      → Grows v (handle s a msgs checkpoint r).1
  unfolding handle
  handle-Grows a msgs checkpoint v (outcome, w) g m h =
      let next =
        handle_publish_outcome outcome w.consecutive_failures s.dlq_config s.poll_interval_ms in
      follow-Grows a msgs checkpoint next.0 (record w { consecutive_failures = next.1 }) m (g m h)

  deliver-Grows :
      (a : Answers F) (msgs : List (RelayMessage F)) (checkpoint : Option (RelayMessage F))
      (w : Worker F)
      → Grows w (deliver s a msgs checkpoint w).1
  unfolding deliver
  deliver-Grows a [] checkpoint w = commit-Grows a checkpoint w w (λ m h. h)
  deliver-Grows a (m ∷ ms) checkpoint w =
      either-Grows w s.dry_run _ _
        (commit-Grows a checkpoint w (record w { observed = w.observed ++ m ∷ ms })
          (λ n h. IsIn-observe s w.accepted w.observed (m ∷ ms) w.dead n h))
        (handle-Grows a (m ∷ ms) checkpoint w _ (
          try_publish-Grows a (m ∷ ms)
            (validate_publish_limits a.encode s.name s.sink_type s.descriptor (m ∷ ms)) w))

  after_poll-Grows :
      (a : Answers F) (outcome : PollOutcome F) (w : Worker F)
      → Grows w (after_poll s a outcome w).1
  unfolding after_poll
  after_poll-Grows a (batch msgs checkpoint) w =
      λ m h. deliver-Grows a msgs checkpoint (record w { poll_backoff_ms = s.poll_interval_ms }) m h
  after_poll-Grows a empty w = λ m h. h
  after_poll-Grows a replay_complete w = λ m h. h
  after_poll-Grows a (transient_error e) w =
      either-Grows w a.stop_in_sleep _ _ (λ m h. h) (λ m h. h)
  after_poll-Grows a (permanent_error e) w = λ m h. h

  -- Whatever the surroundings answer, a message that was accepted, observed or buried stays so.
  pub iterate-Grows :
      (a : Answers F) (table : List (Row F)) (w : Worker F) → Grows w (iterate s a table w).1
  unfolding iterate
  iterate-Grows a table w =
      let polled = poll_and_decode w.acked.source a.poll_answers table s.batch_size w.replay in
      either-Grows w a.stop_asked _ _ (λ m h. h)
        (λ m h. after_poll-Grows a polled.0 (with_source s polled.1 w) m h)
