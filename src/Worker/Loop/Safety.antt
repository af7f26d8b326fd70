-- ===== src/Worker/Loop/Safety.antt =====
-- An iteration of the worker's loop, from the poll on, keeps its offsets covered.
use pg_tide.Prelude.{
  ℕ, ◌≡◌, refl, Bool, true, false, Option, List, [], ◌∷◌, ◌++◌, All, All-map, map, if◌then◌else◌,
  Occurs-append_right, All-Occurs, ◌&&◌, ltb,
}
use pg_tide.Foreign.{Foreign}
use pg_tide.Errors.{RelayError, RetryClass, transient, permanent, Result, ok, err, retry_class}
use pg_tide.Envelope.{RelayMessage}
use pg_tide.Dlq.{max_retries_exceeded, DlqRow, DlqConfig, insert_batch}
use pg_tide.Dlq.Insert.{insert_batch-IsAtomic}
use pg_tide.Source.Rows.{Row}
use pg_tide.Worker.Outcome.{
  PublishOutcome, failure, success, circuit_breaker_open, WorkerDirective, continue, backoff_ms,
  route, shut_down, handle_publish_outcome, handle_failure, route_to_dlq, safe_dlq_reason,
  publish_with_circuit_breaker,
}
use pg_tide.Worker.State.{Settings, Answers, Worker}
use pg_tide.Worker.Loop.{commit, entry_of, follow, take_accepted, try_publish, handle, deliver}
use pg_tide.Worker.Loop.Commits.{
  IsIn, by_sink, by_dry_run, IsHandled, IsIn-accept, IsIn-observe, grow-IsSafe, IsSafe, IsPending,
  commit_pending-IsSafe, receipts_of-IsSafe, after_insert-IsSafe,
}
use pg_tide.Worker.Limits.{validate_publish_limits}
use pg_tide.Breaker.{CircuitBreaker}

module _ {F : Foreign} (s : Settings) where
  -- The sink has accepted the messages if the directive says so.
  abbrev pub Claims : Worker F → List (RelayMessage F) → WorkerDirective F → Type 0
  Claims w msgs continue = All (IsHandled s w) msgs
  Claims w msgs d = Unit

  follow-IsSafe :
      (a : Answers F) (table : List (Row F)) (msgs : List (RelayMessage F))
      (checkpoint : Option (RelayMessage F)) (d : WorkerDirective F) (w : Worker F)
      → Claims w msgs d
      → IsPending s table msgs checkpoint w
      → IsSafe s table w
      → IsSafe s table (follow s a msgs checkpoint d w).1
  unfolding follow route_to_dlq
  follow-IsSafe a table msgs checkpoint continue w done p safe =
      receipts_of-IsSafe s a table msgs (commit s a checkpoint w)
        (commit_pending-IsSafe s a table msgs checkpoint w w p refl (λ m h. h) done safe)
  follow-IsSafe a table msgs checkpoint (backoff_ms n) w done p safe = safe
  follow-IsSafe a table msgs checkpoint (route reason kind) w done p safe =
      after_insert-IsSafe s a table reason kind msgs checkpoint w
        (insert_batch a.display a.dlq_faults (map (entry_of s reason kind) msgs) w.dead)
        (insert_batch-IsAtomic a.display a.dlq_faults (map (entry_of s reason kind) msgs) w.dead) p
        safe
  follow-IsSafe a table msgs checkpoint (shut_down e) w done p safe = safe

  -- An outcome that is not a success never lets the worker go on as after one.
  Claims-if :
      (b : Bool) (w : Worker F) (msgs : List (RelayMessage F)) (d c : WorkerDirective F)
      → Claims w msgs d
      → Claims w msgs c
      → Claims w msgs (if b then d else c)
  Claims-if true w msgs d c hd hc = hd
  Claims-if false w msgs d c hd hc = hc

  handle_failure-Claims :
      (w : Worker F) (msgs : List (RelayMessage F)) (e : RelayError F) (class : RetryClass)
      (failures : ℕ) (dlq : DlqConfig) (interval : ℕ)
      → Claims w msgs (handle_failure e class failures dlq interval)
  unfolding handle_failure
  handle_failure-Claims w msgs e permanent failures dlq interval =
      Claims-if dlq.enabled w msgs _ _ tt tt
  handle_failure-Claims w msgs e transient failures dlq interval =
      Claims-if (dlq.enabled && ltb dlq.max_retries failures) w msgs
        (route (safe_dlq_reason e) max_retries_exceeded) (backoff_ms interval) tt tt

  -- What is known of a publish: its state extends the one before, and a success has the sink's
  -- acceptance.
  abbrev pub Supports : Worker F → List (RelayMessage F) → PublishOutcome F → Type 0
  Supports w msgs success = All (IsHandled s w) msgs
  Supports w msgs outcome = Unit

  handle_publish_outcome-Claims :
      (w : Worker F) (msgs : List (RelayMessage F)) (outcome : PublishOutcome F) (failures : ℕ)
      (dlq : DlqConfig) (interval : ℕ)
      → Supports w msgs outcome
      → Claims w msgs (handle_publish_outcome outcome failures dlq interval).0
  unfolding handle_publish_outcome
  handle_publish_outcome-Claims w msgs success failures dlq interval h = h
  handle_publish_outcome-Claims w msgs circuit_breaker_open failures dlq interval h =
      Claims-if dlq.enabled w msgs _ _ tt tt
  handle_publish_outcome-Claims w msgs (failure e) failures dlq interval h =
      handle_failure-Claims w msgs e (retry_class e) _ dlq interval

  -- A later state with the same source and more handled has the same batch pending.
  pub IsPending-grow :
      (table : List (Row F)) (msgs : List (RelayMessage F)) (checkpoint : Option (RelayMessage F))
      (v w : Worker F)
      → w.acked ≡ v.acked
      → ((m : RelayMessage F) → IsHandled s v m → IsHandled s w m)
      → IsPending s table msgs checkpoint v
      → IsPending s table msgs checkpoint w
  IsPending-grow table msgs checkpoint v w same keeps p = record {
    token = p.token;
    last = p.last;
    is_last = p.is_last;
    has_token = p.has_token;
    extends = λ live P f all. p.extends (cc (same, live)) P (λ m h. f m (keeps m h)) all;
  }

  -- A publish that was tried.
  record IsTried (table : List (Row F)) (msgs : List (RelayMessage F))
      (checkpoint : Option (RelayMessage F)) (r : PublishOutcome F × Worker F) : Type 1 where
    supports : Supports r.1 msgs r.0
    pending : IsPending s table msgs checkpoint r.1
    safe : IsSafe s table r.1

  accepts :
      (acc obs ms : List (RelayMessage F)) (dead : List (DlqRow F))
      → All (IsIn s (acc ++ ms) obs dead) ms
  accepts acc obs ms dead =
      All-map _ _ ms (λ m h. by_sink (Occurs-append_right m acc ms h)) (All-Occurs ms)

  observes :
      (acc obs ms : List (RelayMessage F)) (dead : List (DlqRow F))
      → All (IsIn s acc (obs ++ ms) dead) ms
  observes acc obs ms dead =
      All-map _ _ ms (λ m h. by_dry_run (Occurs-append_right m obs ms h)) (All-Occurs ms)

  module _ (table : List (Row F)) (msgs : List (RelayMessage F))
      (checkpoint : Option (RelayMessage F)) (w : Worker F)
      (p : IsPending s table msgs checkpoint w) (safe : IsSafe s table w) where
    take_accepted-IsTried :
        (r : PublishOutcome F × CircuitBreaker)
        → IsTried table msgs checkpoint (take_accepted s msgs r w)
    take_accepted-IsTried (success, breaker) =
        let keeps : (m : RelayMessage F)
            → IsHandled s w m
            → IsIn s (w.accepted ++ msgs) w.observed w.dead m =
          λ m h. IsIn-accept s w.accepted w.observed msgs w.dead m h in
        record {
          supports = accepts w.accepted w.observed msgs w.dead;
          pending = IsPending-grow table msgs checkpoint w _ refl keeps p;
          safe = grow-IsSafe s table w _ refl refl keeps safe;
        }
    take_accepted-IsTried (circuit_breaker_open, breaker) = record {
      supports = tt;
      pending = IsPending-grow table msgs checkpoint w _ refl (λ m h. h) p;
      safe = grow-IsSafe s table w _ refl refl (λ m h. h) safe;
    }
    take_accepted-IsTried (failure e, breaker) = record {
      supports = tt;
      pending = IsPending-grow table msgs checkpoint w _ refl (λ m h. h) p;
      safe = grow-IsSafe s table w _ refl refl (λ m h. h) safe;
    }

    try_publish-IsTried :
        (a : Answers F) (limits : Result F (Unit {0}))
        → IsTried table msgs checkpoint (try_publish s a msgs limits w)
    try_publish-IsTried a (ok x) =
        take_accepted-IsTried
          (publish_with_circuit_breaker a.publish msgs w.breaker a.asked_at a.told_at)
    try_publish-IsTried a (err e) = record { supports = tt; pending = p; safe = safe }

  handle-IsSafe :
      (a : Answers F) (table : List (Row F)) (msgs : List (RelayMessage F))
      (checkpoint : Option (RelayMessage F)) (r : PublishOutcome F × Worker F)
      → IsTried table msgs checkpoint r
      → IsSafe s table (handle s a msgs checkpoint r).1
  unfolding handle
  handle-IsSafe a table msgs checkpoint (outcome, w) t =
      let next =
        handle_publish_outcome outcome w.consecutive_failures s.dlq_config s.poll_interval_ms in
      let counted : Worker F = record w { consecutive_failures = next.1 } in
      follow-IsSafe a table msgs checkpoint next.0 counted
        (handle_publish_outcome-Claims counted msgs outcome w.consecutive_failures s.dlq_config
          s.poll_interval_ms t.supports)
        (IsPending-grow table msgs checkpoint w counted refl (λ m h. h) t.pending)
        (grow-IsSafe s table w counted refl refl (λ m h. h) t.safe)

  pub deliver-IsSafe :
      (a : Answers F) (table : List (Row F)) (msgs : List (RelayMessage F))
      (checkpoint : Option (RelayMessage F)) (w : Worker F)
      → IsPending s table msgs checkpoint w
      → IsSafe s table w
      → IsSafe s table (deliver s a msgs checkpoint w).1
  unfolding deliver
  deliver-IsSafe a table [] checkpoint w p safe =
      commit_pending-IsSafe s a table [] checkpoint w w p refl (λ m h. h) tt safe
  deliver-IsSafe a table (m ∷ ms) checkpoint w p safe = by_mode s.dry_run
    where
      keeps :
          (n : RelayMessage F) → IsHandled s w n → IsIn s w.accepted (w.observed ++ m ∷ ms) w.dead n
      keeps n h = IsIn-observe s w.accepted w.observed (m ∷ ms) w.dead n h

      by_mode :
          (dry : Bool)
          → IsSafe s table
              (if dry
                then commit s a checkpoint (record w { observed = w.observed ++ m ∷ ms })
                else handle s a (m ∷ ms) checkpoint (
                    try_publish s a
                      (m ∷ ms)
                      (validate_publish_limits a.encode s.name s.sink_type s.descriptor (m ∷ ms))
                      w)).1
      by_mode true =
          commit_pending-IsSafe s a table (m ∷ ms) checkpoint w
            (record w { observed = w.observed ++ m ∷ ms }) p refl keeps
            (observes w.accepted w.observed (m ∷ ms) w.dead)
            (grow-IsSafe s table w _ refl refl keeps safe)
      by_mode false =
          handle-IsSafe a table (m ∷ ms) checkpoint _
            (try_publish-IsTried table (m ∷ ms) checkpoint w p safe a _)
