-- ===== src/Worker/Loop/Offsets.antt =====
-- What one iteration of the worker's loop does to the stored offset and to the counters.
use pg_tide.Prelude.{
  ◌≡◌, refl, sym, subst, Bool, true, false, Option, none, some, List, [], ◌∷◌, ◌++◌, if◌then◌else◌,
  map,
}
use pg_tide.Foreign.{Foreign}
use pg_tide.Errors.{Result, ok, err}
use pg_tide.Envelope.{AckToken, no_token, outbox_offset, RelayMessage}
use pg_tide.Source.Rows.{Row}
use pg_tide.Source.Poll.{poll}
use pg_tide.Source.Commit.{OffsetAnswer, Acked, acknowledge, acknowledge_token}
use pg_tide.Source.Offsets.{Grows, Grows-refl, acknowledge-IsAck, release_claims-IsRelease}
use pg_tide.Breaker.{CircuitBreaker}
use pg_tide.Worker.Outcome.{
  PollOutcome, batch, empty, replay_complete, transient_error, permanent_error, PublishOutcome,
  success, failure, circuit_breaker_open, WorkerDirective, continue, backoff_ms, route, shut_down,
  DlqOutcome, all_written, retry_later, dlq_permanent, commit_checkpoint, classify_poll,
  poll_and_decode, handle_publish_outcome, route_to_dlq, publish_with_circuit_breaker,
}
use pg_tide.Worker.Limits.{validate_publish_limits}
use pg_tide.Worker.State.{Settings, Answers, Worker, Next, goes_on, breaks, fails_with}
use pg_tide.Worker.Loop.{
  commit, entry_of, receipts_of, reset_failures, write_delivery_receipts, after_dlq, follow,
  take_accepted, try_publish, handle, deliver, after_poll, with_source, iterate,
}

-- The stored offset grows if anything, and in a replay it stays, as do the large objects.
pub record IsMove (a b : Acked) : Type 0 where
  pub forward : Grows a.stored b.stored
  pub neutral : a.source.replay_mode ≡ true → (b.stored ≡ a.stored) × (b.unlinked ≡ a.unlinked)

IsMove-refl : (a : Acked) → IsMove a a
IsMove-refl a = record { forward = Grows-refl a.stored; neutral = λ h. (refl, refl) }

module _ {F : Foreign} where
  acknowledge-IsMove :
      (answer : OffsetAnswer F) (a : Acked) (m : RelayMessage F) (t : AckToken)
      → m.ack_token ≡ t
      → IsMove a (acknowledge answer a m).1
  unfolding acknowledge acknowledge_token
  acknowledge-IsMove answer a m no_token e =
      let k = release_claims-IsRelease a in
      rw e (record {
        forward = subst (Grows a.stored) (sym k.stored) (Grows-refl a.stored);
        neutral = λ h. (k.stored, k.unlinked h);
      })
  acknowledge-IsMove answer a m (outbox_offset v) e =
      let k = acknowledge-IsAck answer a m v e in
      record { forward = k.stored_forward; neutral = k.replay_neutral }

  commit_checkpoint-IsMove :
      (answer : OffsetAnswer F) (a : Acked) (checkpoint : Option (RelayMessage F))
      → IsMove a (commit_checkpoint answer a checkpoint).1
  unfolding commit_checkpoint
  commit_checkpoint-IsMove answer a none = IsMove-refl a
  commit_checkpoint-IsMove answer a (some m) = acknowledge-IsMove answer a m m.ack_token refl

module _ {F : Foreign} (s : Settings) where
  receipts_of-acked :
      (a : Answers F) (msgs : List (RelayMessage F)) (r : Next F × Worker F)
      → (receipts_of s a msgs r).1.acked ≡ r.1.acked
  unfolding write_delivery_receipts
  receipts_of-acked a msgs (goes_on, w) = by_fault a.receipts_fault
    where
      by_fault : (fault : Bool) → (write_delivery_receipts s fault msgs w).acked ≡ w.acked
      by_fault true = refl
      by_fault false = refl
  receipts_of-acked a msgs (breaks, w) = refl
  receipts_of-acked a msgs (fails_with e, w) = refl

  reset_failures-acked : (r : Next F × Worker F) → (reset_failures s r).1.acked ≡ r.1.acked
  reset_failures-acked (goes_on, w) = refl
  reset_failures-acked (breaks, w) = refl
  reset_failures-acked (fails_with e, w) = refl

  commit-IsMove :
      (a : Answers F) (checkpoint : Option (RelayMessage F)) (w : Worker F)
      → IsMove w.acked (commit s a checkpoint w).1.acked
  unfolding commit
  commit-IsMove a checkpoint w = commit_checkpoint-IsMove a.offset_answer w.acked checkpoint

  after_dlq-IsMove :
      (a : Answers F) (checkpoint : Option (RelayMessage F)) (o : DlqOutcome F) (w : Worker F)
      → IsMove w.acked (after_dlq s a checkpoint o w).1.acked
  after_dlq-IsMove a checkpoint all_written w =
      subst (IsMove w.acked) (sym (reset_failures-acked (commit s a checkpoint w)))
        (commit-IsMove a checkpoint w)
  after_dlq-IsMove a checkpoint retry_later w = IsMove-refl w.acked
  after_dlq-IsMove a checkpoint (dlq_permanent e) w = IsMove-refl w.acked

  follow-IsMove :
      (a : Answers F) (msgs : List (RelayMessage F)) (checkpoint : Option (RelayMessage F))
      (d : WorkerDirective F) (w : Worker F)
      → IsMove w.acked (follow s a msgs checkpoint d w).1.acked
  unfolding follow
  follow-IsMove a msgs checkpoint continue w =
      subst (IsMove w.acked) (sym (receipts_of-acked a msgs (commit s a checkpoint w)))
        (commit-IsMove a checkpoint w)
  follow-IsMove a msgs checkpoint (backoff_ms n) w = IsMove-refl w.acked
  follow-IsMove a msgs checkpoint (route reason kind) w =
      let (outcome, dead) =
        route_to_dlq a.display a.dlq_faults (map (entry_of s reason kind) msgs) w.dead in
      after_dlq-IsMove a checkpoint outcome (record w { dead = dead })
  follow-IsMove a msgs checkpoint (shut_down e) w = IsMove-refl w.acked

  try_publish-acked :
      (a : Answers F) (msgs : List (RelayMessage F)) (limits : Result F (Unit {0})) (w : Worker F)
      → (try_publish s a msgs limits w).1.acked ≡ w.acked
  try_publish-acked a msgs (ok x) w =
      by_outcome (publish_with_circuit_breaker a.publish msgs w.breaker a.asked_at a.told_at)
    where
      by_outcome :
          (r : PublishOutcome F × CircuitBreaker) → (take_accepted s msgs r w).1.acked ≡ w.acked
      by_outcome (success, breaker) = refl
      by_outcome (circuit_breaker_open, breaker) = refl
      by_outcome (failure e, breaker) = refl
  try_publish-acked a msgs (err e) w = refl

  handle-IsMove :
      (a : Answers F) (msgs : List (RelayMessage F)) (checkpoint : Option (RelayMessage F))
      (r : PublishOutcome F × Worker F)
      → IsMove r.1.acked (handle s a msgs checkpoint r).1.acked
  unfolding handle
  handle-IsMove a msgs checkpoint (outcome, w) =
      let (directive, failures) =
        handle_publish_outcome outcome w.consecutive_failures s.dlq_config s.poll_interval_ms in
      follow-IsMove a msgs checkpoint directive (record w { consecutive_failures = failures })

  either-IsMove :
      (old : Acked) (b : Bool) (x y : Next F × Worker F)
      → IsMove old x.1.acked
      → IsMove old y.1.acked
      → (let chosen : Next F × Worker F = if b then x else y in IsMove old chosen.1.acked)
  either-IsMove old true x y p q = p
  either-IsMove old false x y p q = q

  deliver-IsMove :
      (a : Answers F) (msgs : List (RelayMessage F)) (checkpoint : Option (RelayMessage F))
      (w : Worker F)
      → IsMove w.acked (deliver s a msgs checkpoint w).1.acked
  unfolding deliver
  deliver-IsMove a [] checkpoint w = commit-IsMove a checkpoint w
  deliver-IsMove a (m ∷ ms) checkpoint w =
      let limits = validate_publish_limits a.encode s.name s.sink_type s.descriptor (m ∷ ms) in
      either-IsMove w.acked s.dry_run _ _
        (commit-IsMove a checkpoint (record w { observed = w.observed ++ m ∷ ms }))
        (subst
          (λ old.
            IsMove old (handle s a (m ∷ ms) checkpoint (try_publish s a (m ∷ ms) limits w)).1.acked)
          (try_publish-acked a (m ∷ ms) limits w)
          (handle-IsMove a (m ∷ ms) checkpoint (try_publish s a (m ∷ ms) limits w)))

  after_poll-IsMove :
      (a : Answers F) (outcome : PollOutcome F) (w : Worker F)
      → IsMove w.acked (after_poll s a outcome w).1.acked
  unfolding after_poll
  after_poll-IsMove a (batch msgs checkpoint) w =
      deliver-IsMove a msgs checkpoint (record w { poll_backoff_ms = s.poll_interval_ms })
  after_poll-IsMove a empty w = IsMove-refl w.acked
  after_poll-IsMove a replay_complete w = IsMove-refl w.acked
  after_poll-IsMove a (transient_error e) w =
      either-IsMove w.acked a.stop_in_sleep _ _ (IsMove-refl w.acked) (IsMove-refl w.acked)
  after_poll-IsMove a (permanent_error e) w = IsMove-refl w.acked

  -- Whatever the database, the sink and the clock answer, one iteration never moves the stored
  -- offset back; and while the source replays, it neither changes the stored offset nor unlinks a
  -- large object.
  pub iterate-IsMove :
      (a : Answers F) (table : List (Row F)) (w : Worker F)
      → IsMove w.acked (iterate s a table w).1.acked
  unfolding iterate poll_and_decode poll
  iterate-IsMove a table w =
      let polled = poll w.acked.source a.poll_answers table s.batch_size in
      let move = after_poll-IsMove a (classify_poll polled.0 w.replay) (with_source s polled.1 w) in
      either-IsMove w.acked a.stop_asked _ _ (IsMove-refl w.acked)
        (record { forward = move.forward; neutral = move.neutral })
