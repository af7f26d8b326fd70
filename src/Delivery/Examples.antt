-- ===== src/Delivery/Examples.antt =====
-- Runs of the delivery model at concrete batches.
use pg_tide.Prelude.{◌≤◌, ◌≡◌, refl, true, false, List, [], ◌∷◌, some, none, length}
use pg_tide.Delivery.Invariant.{IsConsistent}
use pg_tide.Delivery.Runs.{
  apply-IsConsistent, settled, commit_needs_disposition, IsFinished, cleanup_reachable,
}
use pg_tide.Delivery.{
  DeliveryEvent, DeliveryFacts, checkpoint_committed, on_encoded, on_publish_started,
  on_sink_accepted, on_publish_failed, on_dlq_persisted, on_checkpoint_committed, on_next_batch,
  on_sink_acknowledged, ok, new_polled, apply,
}

-- A batch whose acceptance is ambiguous, acknowledged at last, and a failed batch after it.
abbrev two_batches : List DeliveryEvent
two_batches =
    on_encoded
    ∷ on_publish_started
    ∷ on_sink_accepted
    ∷ on_sink_acknowledged 23
    ∷ on_checkpoint_committed
    ∷ on_next_batch 29
    ∷ on_encoded
    ∷ on_publish_started
    ∷ on_publish_failed false
    ∷ on_dlq_persisted
    ∷ on_checkpoint_committed
    ∷ []

abbrev second_committed : DeliveryFacts
second_committed = record {
  state = checkpoint_committed;
  sink_acknowledged_frontier = none;
  source_checkpoint = some 29;
  source_visible = false;
  duplicate_possible = false;
  cleanup_allowed = false;
  failure_transient = false;
}

two_batches_end : apply (new_polled 23) two_batches ≡ ok second_committed
unfolding apply
two_batches_end = unfold pg_tide.Delivery.transition in refl

apply-IsConsistent_example : IsConsistent second_committed
apply-IsConsistent_example = apply-IsConsistent 23 two_batches two_batches_end

commit_needs_disposition_example : settled 23 false two_batches ≡ true
commit_needs_disposition_example = commit_needs_disposition 23 two_batches two_batches_end refl

cleanup_reachable_example :
    (es : List DeliveryEvent) × IsFinished (apply second_committed es) × (length es ≤ 5)
cleanup_reachable_example = cleanup_reachable second_committed 29 refl
