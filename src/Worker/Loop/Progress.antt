-- ===== src/Worker/Loop/Progress.antt =====
-- When the surroundings answer well, an iteration delivers a batch and commits its offset.
use pg_tide.Prelude.{
  ◌≡◌, refl, sym, ap, subst, ◌∙◌, Bool, true, false, none, some, List, ◌∷◌, ◌++◌, arith,
  if◌then◌else◌, get_last?, Bool-cases, inl, inr,
}
use pg_tide.Prelude.Int.{ℤ, pos, max_ℤ, ◌≤ℤ◌, leb_ℤ, ltb_ℤ}
use pg_tide.Prelude.Text.{Text}
use pg_tide.Foreign.{Foreign}
use pg_tide.Errors.{Result, ok, err}
use pg_tide.Envelope.{outbox_offset, RelayMessage}
use pg_tide.Breaker.{should_allow, record_success}
use pg_tide.Source.Rows.{Row}
use pg_tide.Source.Poll.{poll}
use pg_tide.Source.Commit.{
  written, StoredOffset, Acked, upsert_offset, update_simple_offset, write_offset, confirm_offset,
  acknowledge, acknowledge_token, after_write, release_claims, advance,
}
use pg_tide.Worker.Outcome.{
  publish_with_circuit_breaker, published, commit_checkpoint, classify_poll, poll_and_decode,
  handle_publish_outcome,
}
use pg_tide.Worker.Limits.{validate_publish_limits}
use pg_tide.Worker.State.{Settings, Answers, Worker, Next, goes_on}
use pg_tide.Worker.Loop.{
  iterate, after_poll, deliver, handle, follow, commit, try_publish, take_accepted, receipts_of,
  write_delivery_receipts, with_source, after_commit,
}

if_true {ℓ} : {A : Type ℓ} (b : Bool) (x y : A) → b ≡ true → (if b then x else y) ≡ x
if_true true x y e = refl
if_true false x y e = cc e

if_false {ℓ} : {A : Type ℓ} (b : Bool) (x y : A) → b ≡ false → (if b then x else y) ≡ y
if_false true x y e = cc e
if_false false x y e = refl

le_upsert : (stored : StoredOffset) (v : ℤ) → leb_ℤ v (upsert_offset stored v) ≡ true
le_upsert none v = ground arith
le_upsert (some old) v = ground arith

module _ {F : Foreign} where
  update_simple_offset-written :
      (pipeline_id : Text) (stored : StoredOffset) (v : ℤ)
      → pos 0 ≤ℤ v
      → update_simple_offset {F = F} written pipeline_id stored v
        ≡ (ok tt, some (upsert_offset stored v))
  unfolding update_simple_offset write_offset confirm_offset
  update_simple_offset-written pipeline_id stored v h =
      if_false (ltb_ℤ v (pos 0)) _ _ (ground arith) ∙ rw (le_upsert stored v) refl

  -- What is left of an acknowledgment that goes well.
  abbrev pub IsDone : Acked → ℤ → Result F (Unit {0}) × Acked → Type 0
  IsDone a v (ok _, b) =
      (b.stored ≡ some (upsert_offset a.stored v))
      × (b.source.last_offset ≡ max_ℤ a.source.last_offset v)
  IsDone a v (err e, b) = ⊥

  release_claims-IsDone :
      (a : Acked) (v : ℤ) (r : Result F (Unit {0}))
      → r ≡ ok tt
      → IsDone a v
          (r, release_claims (advance (record a { stored = some (upsert_offset a.stored v) }) v))
  release_claims-IsDone a v (ok x) e = elim (Bool-cases a.source.replay_mode) [
    | inl replay ↦ ground (arith, replay)
    | inr live ↦ ground (arith, live)
  ]
  release_claims-IsDone a v (err x) e = cc e

  acknowledge-IsDone :
      (a : Acked) (m : RelayMessage F) (v : ℤ)
      → m.ack_token ≡ outbox_offset v
      → a.source.replay_mode ≡ false
      → pos 0 ≤ℤ v
      → IsDone a v (acknowledge written a m)
  unfolding acknowledge acknowledge_token
  acknowledge-IsDone a m v e live fine =
      subst (IsDone a v)
        (sym (
          ap (acknowledge_token written a) e
          ∙ if_false a.source.replay_mode _ _ live
          ∙ ap (after_write a v)
              (update_simple_offset-written a.source.pipeline_id a.stored v fine)))
        (release_claims-IsDone a v (ok tt) refl)

module _ {F : Foreign} (s : Settings) where
  -- The batch is accepted, and its checkpoint is committed and remembered.
  pub record IsDelivered (w : Worker F) (msgs : List (RelayMessage F)) (v : ℤ)
      (r : Next F × Worker F) : Type 0 where
    pub on : r.0 ≡ goes_on
    pub stored : r.1.acked.stored ≡ some (upsert_offset w.acked.stored v)
    pub offset : r.1.acked.source.last_offset ≡ max_ℤ w.acked.source.last_offset v
    pub accepted : r.1.accepted ≡ w.accepted ++ msgs

  receipts_of-IsDelivered :
      (a : Answers F) (w : Worker F) (msgs all : List (RelayMessage F)) (v : ℤ) (next : Worker F)
      → IsDelivered w msgs v (goes_on, next)
      → IsDelivered w msgs v (receipts_of s a all (goes_on, next))
  unfolding write_delivery_receipts
  receipts_of-IsDelivered a w msgs all v next d = by_fault a.receipts_fault
    where
      by_fault :
          (fault : Bool) → IsDelivered w msgs v (goes_on, write_delivery_receipts s fault all next)
      by_fault true = d
      by_fault false = record {
        on = refl;
        stored = d.stored;
        offset = d.offset;
        accepted = d.accepted;
      }

  commit-IsDelivered :
      (a : Answers F) (w next : Worker F) (msgs all : List (RelayMessage F)) (v : ℤ)
      (r : Result F (Unit {0}) × Acked)
      → IsDone w.acked v r
      → next.accepted ≡ w.accepted ++ msgs
      → IsDelivered w msgs v (receipts_of s a all (after_commit s r.0, record next { acked = r.1 }))
  commit-IsDelivered a w next msgs all v (ok x, b) done e =
      receipts_of-IsDelivered a w msgs all v (record next { acked = b })
        (record { on = refl; stored = done.0; offset = done.1; accepted = e })
  commit-IsDelivered a w next msgs all v (err e, b) done h = absurd done

  -- An iteration that delivers: when no stop is asked, a live worker that is not in a dry run polls
  -- a batch, whose last message carries an offset that is not negative, and the batch passes the
  -- limits, the breaker allows it, the sink accepts it and the offset is written, then the loop goes
  -- on with the batch accepted, and the stored offset and the worker's own are each the greater of
  -- what they were and that offset.
  pub iterate-IsDelivered :
      (a : Answers F) (table : List (Row F)) (w : Worker F) (m last : RelayMessage F)
      (ms : List (RelayMessage F)) (v : ℤ)
      → a.stop_asked ≡ false
      → s.dry_run ≡ false
      → w.replay ≡ none
      → w.acked.source.replay_mode ≡ false
      → (poll w.acked.source a.poll_answers table s.batch_size).0 ≡ ok (m ∷ ms)
      → get_last? (m ∷ ms) ≡ some last
      → last.ack_token ≡ outbox_offset v
      → pos 0 ≤ℤ v
      → validate_publish_limits a.encode s.name s.sink_type s.descriptor (m ∷ ms) ≡ ok tt
      → (should_allow w.breaker a.asked_at).1 ≡ true
      → a.publish (m ∷ ms) ≡ ok tt
      → a.offset_answer ≡ written
      → IsDelivered w (m ∷ ms) v (iterate s a table w)
  unfolding iterate after_poll deliver handle follow commit commit_checkpoint poll_and_decode
      classify_poll publish_with_circuit_breaker handle_publish_outcome poll
  iterate-IsDelivered a table w m last ms v go wet one live polled is_last token fine limits allowed
        took wrote =
      let source = (poll w.acked.source a.poll_answers table s.batch_size).1 in
      let fresh : Worker F = record (with_source s source w) {
        poll_backoff_ms = s.poll_interval_ms;
      } in
      let taken : Worker F = record fresh {
        breaker = record_success (should_allow w.breaker a.asked_at).0;
        accepted = w.accepted ++ m ∷ ms;
        consecutive_failures = 0;
      } in
      subst (IsDelivered w (m ∷ ms) v)
        (sym (
          if_false a.stop_asked _ _ go
          ∙ ap (λ p. after_poll s a (classify_poll p w.replay) (with_source s source w)) polled
          ∙ ap (λ r. after_poll s a (classify_poll (ok (m ∷ ms)) r) (with_source s source w)) one
          ∙ if_false s.dry_run _ _ wet
          ∙ ap (λ l. handle s a (m ∷ ms) (get_last? (m ∷ ms)) (try_publish s a (m ∷ ms) l fresh))
              limits
          ∙ ap (λ p. handle s a (m ∷ ms) (get_last? (m ∷ ms)) (take_accepted s (m ∷ ms) p fresh))
              (if_true (should_allow w.breaker a.asked_at).1 _ _ allowed
                ∙ ap (λ p. published p (should_allow w.breaker a.asked_at).0 a.told_at) took)
          ∙ ap (λ c. receipts_of s a (m ∷ ms) (commit s a c taken)) is_last
          ∙ ap
              (λ o. receipts_of s a (m ∷ ms) (
                after_commit s (acknowledge o taken.acked last).0,
                record taken { acked = (acknowledge o taken.acked last).1 },
              ))
              wrote))
        (commit-IsDelivered a w taken (m ∷ ms) (m ∷ ms) v (acknowledge written taken.acked last)
          (acknowledge-IsDone taken.acked last v token live fine) refl)
