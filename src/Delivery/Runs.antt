-- ===== src/Delivery/Runs.antt =====
-- What holds of a whole sequence of delivery events.
use pg_tide.Prelude.{
  ℕ, ◌≤◌, ◌≡◌, refl, Bool, true, false, not, ◌||◌, some, List, [], ◌∷◌, arith, ◌==◌, length,
}
use pg_tide.Delivery.Invariant.{
  IsConsistent, is_committed, new_polled-IsConsistent, transition-IsConsistent,
}
use pg_tide.Delivery.{
  DeliveryState, DeliveryEvent, DeliveryFacts, Outcome, polled, encoded, publish_started,
  sink_accepted, sink_acknowledged, dry_run_observed, intentionally_filtered, publish_failed,
  dlq_persisted, checkpoint_committed, cleanup_eligible, on_encoded, on_publish_started,
  on_sink_acknowledged, on_dry_run_observed, on_intentionally_filtered, on_dlq_persisted,
  on_checkpoint_committed, on_cleanup_allowed, on_next_batch, ok, err, new_polled, transition,
  apply,
}

-- A run that succeeds goes through a first step that succeeds.
apply-cons :
    (f : DeliveryFacts) (e : DeliveryEvent) (es : List DeliveryEvent) {g : DeliveryFacts}
    → apply f (e ∷ es) ≡ ok g
    → (n : DeliveryFacts) × (transition f e ≡ ok n) × (apply n es ≡ ok g)
unfolding apply
apply-cons f e es {g} h = split (transition f e) h
  where
    split :
        (r : Outcome)
        → (elim r [ ok n ↦ apply n es | err x ↦ err x ]) ≡ ok g
        → (n : DeliveryFacts) × (r ≡ ok n) × (apply n es ≡ ok g)
    split (ok n) h = (n, refl, h)
    split (err x) h = cc

-- Every facts value that a sequence of events reaches from a consistent one is consistent.
apply-IsConsistent_of :
    (f : DeliveryFacts) (es : List DeliveryEvent) {g : DeliveryFacts}
    → IsConsistent f
    → apply f es ≡ ok g
    → IsConsistent g
unfolding apply
apply-IsConsistent_of f [] v h = ground arith
apply-IsConsistent_of f (e ∷ es) v h =
    let (n, q, rest) = apply-cons f e es h in
    apply-IsConsistent_of n es (transition-IsConsistent f e v q) rest

-- Whatever events follow the poll of a batch, as long as each is legal, the facts stay
-- consistent: a source checkpoint is recorded, the source is visible exactly until the checkpoint
-- is committed, cleanup is allowed exactly in the cleanup state, an acknowledged frontier is the
-- source checkpoint, and a sink acceptance that is not acknowledged marks a possible duplicate.
pub apply-IsConsistent :
    (c : ℕ) (es : List DeliveryEvent) {g : DeliveryFacts}
    → apply (new_polled c) es ≡ ok g
    → IsConsistent g
apply-IsConsistent c es h = apply-IsConsistent_of (new_polled c) es (new_polled-IsConsistent c) h

-- The events that settle the batch of checkpoint `c`.
abbrev pub is_disposition : ℕ → DeliveryEvent → Bool
is_disposition c (on_sink_acknowledged frontier) = c == frontier
is_disposition c on_dry_run_observed = true
is_disposition c on_intentionally_filtered = true
is_disposition c on_dlq_persisted = true
is_disposition c _ = false

-- Whether the batch that is current after the events has been settled by one of them.
abbrev pub settled : ℕ → Bool → List DeliveryEvent → Bool
settled c seen [] = seen
settled c seen (on_next_batch c' ∷ es) = settled c' false es
settled c seen (e ∷ es) = settled c (seen || is_disposition c e) es

abbrev is_settled : DeliveryState → Bool
is_settled sink_acknowledged = true
is_settled dry_run_observed = true
is_settled intentionally_filtered = true
is_settled dlq_persisted = true
is_settled s = is_committed s

-- The facts agree with the events so far.
record Agrees (c : ℕ) (seen : Bool) (f : DeliveryFacts) : Type 0 where
  checkpoint : f.source_checkpoint ≡ some c
  disposed : is_settled f.state ≡ true → seen ≡ true
  visible : f.source_visible ≡ not (is_committed f.state)

-- The checkpoint and the flag after one more event.
abbrev next_checkpoint : ℕ → DeliveryEvent → ℕ
next_checkpoint c (on_next_batch c') = c'
next_checkpoint c e = c

abbrev next_seen : ℕ → Bool → DeliveryEvent → Bool
next_seen c seen (on_next_batch c') = false
next_seen c seen e = seen || is_disposition c e

transition-Agrees :
    (f : DeliveryFacts) (e : DeliveryEvent) (c : ℕ) (seen : Bool) {g : DeliveryFacts}
    → Agrees c seen f
    → transition f e ≡ ok g
    → Agrees (next_checkpoint c e) (next_seen c seen e) g
unfolding transition
transition-Agrees f e c seen a h = ground arith

settled-cons :
    (c : ℕ) (seen : Bool) (e : DeliveryEvent) (es : List DeliveryEvent)
    → settled c seen (e ∷ es) ≡ settled (next_checkpoint c e) (next_seen c seen e) es
settled-cons c seen (on_next_batch c') es = refl
settled-cons c seen _ es = refl

apply-settled :
    (f : DeliveryFacts) (es : List DeliveryEvent) (c : ℕ) (seen : Bool) {g : DeliveryFacts}
    → Agrees c seen f
    → apply f es ≡ ok g
    → g.source_visible ≡ false
    → settled c seen es ≡ true
unfolding apply
apply-settled f [] c seen a h hidden = ground arith
apply-settled f (e ∷ es) c seen a h hidden =
    let (n, q, rest) = apply-cons f e es h in
    rw (settled-cons c seen e es) (
      apply-settled n es (next_checkpoint c e) (next_seen c seen e)
        (transition-Agrees f e c seen a q) rest hidden)

-- No batch leaves the source's view before it is settled: when a legal run of events from the
-- poll of checkpoint `c` ends with the source hidden (its checkpoint committed), an event since
-- the last change of batch settled that batch: the sink acknowledged exactly its checkpoint, or it
-- was observed in a dry run, filtered on purpose, or stored in the dead-letter queue.
pub commit_needs_disposition :
    (c : ℕ) (es : List DeliveryEvent) {g : DeliveryFacts}
    → apply (new_polled c) es ≡ ok g
    → g.source_visible ≡ false
    → settled c false es ≡ true
commit_needs_disposition c es h hidden =
    apply-settled (new_polled c) es c false (new_polled-Agrees c) h hidden
  where
    new_polled-Agrees : (c : ℕ) → Agrees c false (new_polled c)
    new_polled-Agrees c = unfold new_polled in ground arith

-- A way on to cleanup from each state.
finish : DeliveryState → ℕ → List DeliveryEvent
finish polled c =
    on_encoded
    ∷ on_publish_started
    ∷ on_sink_acknowledged c
    ∷ on_checkpoint_committed
    ∷ on_cleanup_allowed
    ∷ []
finish encoded c =
    on_publish_started ∷ on_sink_acknowledged c ∷ on_checkpoint_committed ∷ on_cleanup_allowed ∷ []
finish publish_started c =
    on_sink_acknowledged c ∷ on_checkpoint_committed ∷ on_cleanup_allowed ∷ []
finish sink_accepted c = on_sink_acknowledged c ∷ on_checkpoint_committed ∷ on_cleanup_allowed ∷ []
finish publish_failed c = on_dlq_persisted ∷ on_checkpoint_committed ∷ on_cleanup_allowed ∷ []
finish checkpoint_committed c = on_cleanup_allowed ∷ []
finish cleanup_eligible c = []
finish _ c = on_checkpoint_committed ∷ on_cleanup_allowed ∷ []

abbrev pub IsFinished : Outcome → Type 0
IsFinished (ok g) = g.state ≡ cleanup_eligible
IsFinished (err x) = ⊥

apply-finish :
    (s : DeliveryState) (f : DeliveryFacts) (c : ℕ)
    → f.state ≡ s
    → f.source_checkpoint ≡ some c
    → IsFinished (apply f (finish s c))
unfolding finish apply transition
apply-finish cleanup_eligible f c e h = ground arith
apply-finish _ f c e h = ground arith

length-finish : (s : DeliveryState) (c : ℕ) → length (finish s c) ≤ 5
unfolding finish
length-finish cleanup_eligible c = omega arith
length-finish _ c = omega arith

-- The model has no dead end: from any facts whose source checkpoint is `c`, at most five further
-- events, all legal in turn, lead to the state in which cleanup is allowed.
pub cleanup_reachable :
    (f : DeliveryFacts) (c : ℕ)
    → f.source_checkpoint ≡ some c
    → (es : List DeliveryEvent) × IsFinished (apply f es) × (length es ≤ 5)
cleanup_reachable f c h =
    (finish f.state c, apply-finish f.state f c refl h, length-finish f.state c)
