-- ===== src/Delivery/Invariant.antt =====
-- What holds of the facts of a batch between two events.
use pg_tide.Prelude.{ℕ, ◌≡◌, ◌⊎◌, Bool, true, false, not, none, arith, is_some}
use pg_tide.Delivery.{
  DeliveryState, DeliveryEvent, DeliveryFacts, sink_accepted, sink_acknowledged, publish_failed,
  dlq_persisted, checkpoint_committed, cleanup_eligible, ok, new_polled, transition,
}

-- The checkpoint is durable.
abbrev pub is_committed : DeliveryState → Bool
is_committed checkpoint_committed = true
is_committed cleanup_eligible = true
is_committed _ = false

abbrev pub is_cleanup : DeliveryState → Bool
is_cleanup cleanup_eligible = true
is_cleanup _ = false

abbrev pub is_past_failure : DeliveryState → Bool
is_past_failure publish_failed = true
is_past_failure dlq_persisted = true
is_past_failure s = is_committed s

pub record IsConsistent (f : DeliveryFacts) : Type 0 where
  pub checkpointed : is_some f.source_checkpoint ≡ true
  pub visible_until_commit : f.source_visible ≡ not (is_committed f.state)
  pub cleanup_last : f.cleanup_allowed ≡ is_cleanup f.state
  pub frontier_exact :
      (f.sink_acknowledged_frontier ≡ none) ⊎ (f.sink_acknowledged_frontier ≡ f.source_checkpoint)
  pub acknowledged :
      f.state ≡ sink_acknowledged → f.sink_acknowledged_frontier ≡ f.source_checkpoint
  pub ambiguous : f.state ≡ sink_accepted → f.duplicate_possible ≡ true
  pub failure_recorded : f.failure_transient ≡ true → is_past_failure f.state ≡ true

pub new_polled-IsConsistent : (c : ℕ) → IsConsistent (new_polled c)
unfolding new_polled
new_polled-IsConsistent c = ground arith

pub transition-IsConsistent :
    (f : DeliveryFacts) (e : DeliveryEvent) {g : DeliveryFacts}
    → IsConsistent f
    → transition f e ≡ ok g
    → IsConsistent g
unfolding transition
transition-IsConsistent f e v h = ground arith
