-- ===== src/Worker/Loop/Commits.antt =====
-- One iteration of the worker's loop commits an offset only when every row up to it is accounted
-- for.
use pg_tide.Prelude.{
  ◌≡◌, refl, sym, subst, Bool, true, false, Option, some, List, [], ◌∷◌, ◌++◌, All, map, inl, inr,
  if◌then◌else◌, Occurs, Occurs-append_left, is_some,
}
use pg_tide.Prelude.Int.{ℤ}
use pg_tide.Prelude.Text.{Text}
use pg_tide.Foreign.{Foreign}
use pg_tide.Errors.{Result, ok, err, is_transient}
use pg_tide.Envelope.{outbox_offset, RelayMessage}
use pg_tide.Dlq.{ErrorKind, DlqEntry, DlqRow, has_key}
use pg_tide.Dlq.Insert.{IsAtomic, IsExtended-kept}
use pg_tide.Source.Rows.{Row}
use pg_tide.Source.Offsets.{acknowledge-IsAck}
use pg_tide.Source.Coverage.{Handles, Upto, IsCovered, IsCovered-map, IsAck-IsCovered}
use pg_tide.Worker.Outcome.{retry_later, dlq_permanent, commit_checkpoint, dlq_outcome}
use pg_tide.Worker.State.{Settings, Answers, Worker, Next, goes_on, breaks, fails_with}
use pg_tide.Worker.Loop.{
  commit, entry_of, receipts_of, reset_failures, write_delivery_receipts, after_dlq,
}

module _ {F : Foreign} (s : Settings) where
  -- Where a message may have gone: the sink accepted it, a dry run observed it, or the table of
  -- dead letters has it.
  pub data IsIn (accepted observed : List (RelayMessage F)) (dead : List (DlqRow F))
      (m : RelayMessage F) : Type 0 where
    by_sink : Occurs m accepted → IsIn accepted observed dead m
    by_dry_run : Occurs m observed → IsIn accepted observed dead m
    by_dlq :
        (reason : Text) (kind : ErrorKind)
        → has_key (entry_of s reason kind m) dead ≡ true
        → IsIn accepted observed dead m

  abbrev pub IsHandled : Worker F → RelayMessage F → Type 0
  IsHandled w = IsIn w.accepted w.observed w.dead

  pub IsIn-accept :
      (acc obs ms : List (RelayMessage F)) (dead : List (DlqRow F)) (m : RelayMessage F)
      → IsIn acc obs dead m
      → IsIn (acc ++ ms) obs dead m
  IsIn-accept acc obs ms dead m (by_sink h) = by_sink (Occurs-append_left m acc ms h)
  IsIn-accept acc obs ms dead m (by_dry_run h) = by_dry_run h
  IsIn-accept acc obs ms dead m (by_dlq reason kind h) = by_dlq reason kind h

  pub IsIn-observe :
      (acc obs ms : List (RelayMessage F)) (dead : List (DlqRow F)) (m : RelayMessage F)
      → IsIn acc obs dead m
      → IsIn acc (obs ++ ms) dead m
  IsIn-observe acc obs ms dead m (by_sink h) = by_sink h
  IsIn-observe acc obs ms dead m (by_dry_run h) = by_dry_run (Occurs-append_left m obs ms h)
  IsIn-observe acc obs ms dead m (by_dlq reason kind h) = by_dlq reason kind h

  pub IsIn-bury :
      (acc obs : List (RelayMessage F)) (old new : List (DlqRow F)) (m : RelayMessage F)
      → ((d : DlqEntry F) → has_key d old ≡ true → has_key d new ≡ true)
      → IsIn acc obs old m
      → IsIn acc obs new m
  IsIn-bury acc obs old new m keeps (by_sink h) = by_sink h
  IsIn-bury acc obs old new m keeps (by_dry_run h) = by_dry_run h
  IsIn-bury acc obs old new m keeps (by_dlq reason kind h) = by_dlq reason kind (keeps _ h)

  abbrev pub RowHandled : Worker F → Row F → Type 0
  RowHandled w = Handles (IsHandled w) s.outbox s.subject_template

  -- A worker is set up as its settings and its replay range say, and its offsets are covered.
  pub record IsSafe (table : List (Row F)) (w : Worker F) : Type 0 where
    pub mode : w.acked.source.replay_mode ≡ is_some w.replay
    pub names :
        (w.acked.source.outbox_name ≡ s.outbox)
        × (w.acked.source.subject_template ≡ s.subject_template)
    pub covered : IsCovered (RowHandled w) table w.acked

  -- The same source and offsets, with more handled.
  pub grow-IsSafe :
      (table : List (Row F)) (v w : Worker F)
      → w.acked ≡ v.acked
      → w.replay ≡ v.replay
      → ((m : RelayMessage F) → IsHandled v m → IsHandled w m)
      → IsSafe table v
      → IsSafe table w
  grow-IsSafe table v w same_acked same_replay keeps safe = record {
    mode = cc (same_acked, same_replay, safe.mode);
    names = (cc (same_acked, safe.names.0), cc (same_acked, safe.names.1));
    covered = subst (IsCovered (RowHandled w) table) (sym same_acked) (
        IsCovered-map (RowHandled v) (RowHandled w) table v.acked (λ row h. (h.0, keeps _ h.1))
          safe.covered);
  }

  -- What a batch's checkpoint stands for.
  abbrev pub Extends : List (Row F) → List (RelayMessage F) → Worker F → ℤ → Type 0
  Extends table msgs w token =
      w.acked.source.replay_mode ≡ false → All (IsHandled w) msgs → Upto (RowHandled w) table token

  pub commit-IsSafe :
      (a : Answers F) (table : List (Row F)) (msgs : List (RelayMessage F)) (last : RelayMessage F)
      (token : ℤ) (w : Worker F)
      → last.ack_token ≡ outbox_offset token
      → Extends table msgs w token
      → All (IsHandled w) msgs
      → IsSafe table w
      → IsSafe table (commit s a (some last) w).1
  unfolding commit commit_checkpoint
  commit-IsSafe a table msgs last token w has extends done safe =
      let k = acknowledge-IsAck a.offset_answer w.acked last token has in
      record {
        mode = cc (k.same_mode, safe.mode);
        names = (cc (k.same_names.0, safe.names.0), cc (k.same_names.1, safe.names.1));
        covered =
            IsAck-IsCovered (RowHandled w) table w.acked token _ k (λ live. extends live done)
              safe.covered;
      }

  pub receipts_of-IsSafe :
      (a : Answers F) (table : List (Row F)) (msgs : List (RelayMessage F)) (r : Next F × Worker F)
      → IsSafe table r.1
      → IsSafe table (receipts_of s a msgs r).1
  unfolding write_delivery_receipts
  receipts_of-IsSafe a table msgs (goes_on, w) safe = by_fault a.receipts_fault
    where
      by_fault : (fault : Bool) → IsSafe table (write_delivery_receipts s fault msgs w)
      by_fault true = safe
      by_fault false = grow-IsSafe table w _ refl refl (λ m h. h) safe
  receipts_of-IsSafe a table msgs (breaks, w) safe = safe
  receipts_of-IsSafe a table msgs (fails_with e, w) safe = safe

  reset_failures-IsSafe :
      (table : List (Row F)) (r : Next F × Worker F)
      → IsSafe table r.1
      → IsSafe table (reset_failures s r).1
  reset_failures-IsSafe table (goes_on, w) safe = grow-IsSafe table w _ refl refl (λ m h. h) safe
  reset_failures-IsSafe table (breaks, w) safe = safe
  reset_failures-IsSafe table (fails_with e, w) safe = safe

  dead-IsIn :
      (reason : Text) (kind : ErrorKind) (acc obs ms : List (RelayMessage F))
      (dead : List (DlqRow F))
      → All (λ e. has_key e dead ≡ true) (map (entry_of s reason kind) ms)
      → All (IsIn acc obs dead) ms
  dead-IsIn reason kind acc obs [] dead h = tt
  dead-IsIn reason kind acc obs (m ∷ ms) dead h =
      (by_dlq reason kind h.0, dead-IsIn reason kind acc obs ms dead h.1)

  -- A batch with its checkpoint, at a state of the worker: once all its messages are handled in a
  -- later state, whose source is the same, every row up to the checkpoint is.
  pub record IsPending (table : List (Row F)) (msgs : List (RelayMessage F))
      (checkpoint : Option (RelayMessage F)) (w : Worker F) : Type 1 where
    pub token : ℤ
    pub last : RelayMessage F
    pub is_last : checkpoint ≡ some last
    pub has_token : last.ack_token ≡ outbox_offset token
    pub extends :
        w.acked.source.replay_mode ≡ false
        → (P : RelayMessage F → Type 0) → ((m : RelayMessage F) → IsHandled w m → P m)
        → All P msgs
        → Upto (Handles P s.outbox s.subject_template) table token

  pub commit_pending-IsSafe :
      (a : Answers F) (table : List (Row F)) (msgs : List (RelayMessage F))
      (checkpoint : Option (RelayMessage F)) (v w : Worker F)
      → IsPending table msgs checkpoint v
      → w.acked ≡ v.acked
      → ((m : RelayMessage F) → IsHandled v m → IsHandled w m)
      → All (IsHandled w) msgs
      → IsSafe table w
      → IsSafe table (commit s a checkpoint w).1
  commit_pending-IsSafe a table msgs checkpoint v w p same keeps done safe = rw p.is_last (
      commit-IsSafe a table msgs p.last p.token w p.has_token
        (λ live all. p.extends (cc (same, live)) (IsHandled w) keeps all) done safe)

  pub after_insert-IsSafe :
      (a : Answers F) (table : List (Row F)) (reason : Text) (kind : ErrorKind)
      (msgs : List (RelayMessage F)) (checkpoint : Option (RelayMessage F)) (w : Worker F)
      (r : Result F (Unit {0}) × List (DlqRow F))
      → IsAtomic a.dlq_faults (map (entry_of s reason kind) msgs) w.dead r
      → IsPending table msgs checkpoint w
      → IsSafe table w
      → IsSafe table (after_dlq s a checkpoint (dlq_outcome r.0) (record w { dead = r.1 })).1
  after_insert-IsSafe a table reason kind msgs checkpoint w (ok x, new) atomic p safe =
      let keeps : (m : RelayMessage F) → IsHandled w m → IsIn w.accepted w.observed new m = λ m h.
        IsIn-bury w.accepted w.observed w.dead new m (IsExtended-kept _ w.dead new atomic) h in
      reset_failures-IsSafe table (commit s a checkpoint (record w { dead = new })) (
        commit_pending-IsSafe a table msgs checkpoint w (record w { dead = new }) p refl keeps
          (dead-IsIn reason kind w.accepted w.observed msgs new atomic.complete)
          (grow-IsSafe table w (record w { dead = new }) refl refl keeps safe))
  after_insert-IsSafe a table reason kind msgs checkpoint w (err e, new) atomic p safe =
      by_class (is_transient e)
    where
      keeps : (m : RelayMessage F) → IsHandled w m → IsIn w.accepted w.observed new m
      keeps m h = elim atomic [
        | inl same ↦ subst (λ dead. IsIn w.accepted w.observed dead m) (sym same) h
        | inr (error, lost, more) ↦
            IsIn-bury w.accepted w.observed w.dead new m (IsExtended-kept _ w.dead new more) h
      ]

      by_class :
          (b : Bool)
          → IsSafe table
              (after_dlq s a checkpoint
                (if b then retry_later else dlq_permanent e)
                (record w { dead = new })).1
      by_class true = grow-IsSafe table w (record w { dead = new }) refl refl keeps safe
      by_class false = grow-IsSafe table w (record w { dead = new }) refl refl keeps safe
