-- ===== src/Worker/Outcome/Polls.antt =====
-- What a poll hands to the worker.
use pg_tide.Prelude.{
  ◌≡◌, refl, true, false, Option, none, some, List, [], ◌∷◌, arith, All, filter, Bool-cases, inl,
  inr, is_some, unwrap_or, get_last?,
}
use pg_tide.Prelude.Int.{ℤ, pos, ◌≤ℤ◌}
use pg_tide.Foreign.{Foreign}
use pg_tide.Errors.{Result, ok, err, is_transient}
use pg_tide.Envelope.{RelayMessage}
use pg_tide.Source.Rows.{Row, PollAnswers}
use pg_tide.Source.Poll.{OutboxPollerSource, poll}
use pg_tide.Worker.Outcome.{
  ReplayRange, in_range, PollOutcome, batch, empty, replay_complete, transient_error,
  permanent_error, filter_replay_batch, classify_poll, or_complete, poll_and_decode,
}

module _ {F : Foreign} where
  -- A message of the replayed range.
  abbrev pub IsWithin : Option ReplayRange → RelayMessage F → Type 0
  IsWithin none m = Unit
  IsWithin (some range) m =
      (range.from_id ≤ℤ unwrap_or m.outbox_id (pos 0))
      × (unwrap_or m.outbox_id (pos 0) ≤ℤ range.to_id)

  -- A batch has messages, all of them within the range, and its checkpoint is the last message
  -- polled, not the last of the batch.
  abbrev pub IsPollOf :
      Option ReplayRange → Result F (List (RelayMessage F)) → PollOutcome F → Type 0
  IsPollOf replay polled (batch [] checkpoint) = ⊥
  IsPollOf replay polled (batch (m ∷ ms) checkpoint) =
      All (IsWithin replay) (m ∷ ms)
      × ((all : List (RelayMessage F)) × (polled ≡ ok all) × (checkpoint ≡ get_last? all))
  IsPollOf replay polled empty = (replay ≡ none) × (polled ≡ ok [])
  IsPollOf replay polled replay_complete = is_some replay ≡ true
  IsPollOf replay polled (transient_error e) = (polled ≡ err e) × (is_transient e ≡ true)
  IsPollOf replay polled (permanent_error e) = (polled ≡ err e) × (is_transient e ≡ false)

  in_range-IsWithin :
      (range : ReplayRange) (m : RelayMessage F) → in_range range m ≡ true → IsWithin (some range) m
  in_range-IsWithin range m h = ground arith

  pub filter-IsWithin :
      (range : ReplayRange) (ms : List (RelayMessage F))
      → All (IsWithin (some range)) (filter (in_range range) ms)
  filter-IsWithin range [] = tt
  filter-IsWithin range (m ∷ ms) = elim (Bool-cases (in_range range m)) [
    | inl hit ↦ rw hit (in_range-IsWithin range m hit, filter-IsWithin range ms)
    | inr miss ↦ rw miss (filter-IsWithin range ms)
  ]

  always : (ms : List (RelayMessage F)) → All (IsWithin none) ms
  always [] = tt
  always (m ∷ ms) = (tt, always ms)

  or_complete-IsPollOf :
      (range : ReplayRange) (all ms : List (RelayMessage F))
      → All (IsWithin (some range)) ms
      → IsPollOf (some range) (ok all) (or_complete ms (get_last? all))
  or_complete-IsPollOf range all [] h = refl
  or_complete-IsPollOf range all (m ∷ ms) h = (h, (all, refl, refl))

  classify_poll-IsPollOf :
      (polled : Result F (List (RelayMessage F))) (replay : Option ReplayRange)
      → IsPollOf replay polled (classify_poll polled replay)
  unfolding classify_poll filter_replay_batch
  classify_poll-IsPollOf (err e) replay = elim (Bool-cases (is_transient e)) [
    | inl soft ↦ rw soft (refl, soft)
    | inr hard ↦ rw hard (refl, hard)
  ]
  classify_poll-IsPollOf (ok []) none = (refl, refl)
  classify_poll-IsPollOf (ok []) (some range) = refl
  classify_poll-IsPollOf (ok (m ∷ ms)) none = (always (m ∷ ms), (m ∷ ms, refl, refl))
  classify_poll-IsPollOf (ok (m ∷ ms)) (some range) =
      or_complete-IsPollOf range (m ∷ ms) (filter (in_range range) (m ∷ ms))
        (filter-IsWithin range (m ∷ ms))

  -- Every answer of a poll: a batch is never empty, all its messages are in the replay range if
  -- there is one, and its checkpoint is the last message polled, filtered out or not; without a
  -- replay nothing polled is an empty answer; and the replay ends only if there is one. A failed poll is reported by
  -- the class of its error.
  pub poll_and_decode-IsPollOf :
      (source : OutboxPollerSource) (answers : PollAnswers F) (table : List (Row F))
      (batch_size : ℤ) (replay : Option ReplayRange)
      → let (outcome, next) = poll_and_decode source answers table batch_size replay in
        IsPollOf replay (poll source answers table batch_size).0 outcome
  unfolding poll_and_decode
  poll_and_decode-IsPollOf source answers table batch_size replay =
      classify_poll-IsPollOf (poll source answers table batch_size).0 replay
