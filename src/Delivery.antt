-- ===== src/Delivery.antt =====
-- pg-tide-relay/src/delivery_model.rs: the pure model of one batch's delivery.
pub mod Invariant
pub mod Runs
mod Examples
use pg_tide.Prelude.{ℕ, Bool, true, false, Option, none, some, List, [], ◌∷◌, ◌==◌, if◌then◌else◌}

pub data DeliveryState : Type 0 where
  polled encoded publish_started sink_accepted sink_acknowledged : DeliveryState
  dry_run_observed intentionally_filtered publish_failed dlq_persisted : DeliveryState
  checkpoint_committed cleanup_eligible : DeliveryState

pub data DeliveryEvent : Type 0 where
  on_encoded on_publish_started on_sink_accepted : DeliveryEvent
  on_sink_acknowledged : ℕ → DeliveryEvent
  on_dry_run_observed on_intentionally_filtered : DeliveryEvent
  on_publish_failed : Bool → DeliveryEvent
  on_dlq_persisted on_checkpoint_committed on_cleanup_allowed : DeliveryEvent
  on_next_batch : ℕ → DeliveryEvent

pub record DeliveryFacts : Type 0 where
  pub state : DeliveryState
  pub sink_acknowledged_frontier : Option ℕ
  pub source_checkpoint : Option ℕ
  pub source_visible : Bool
  pub duplicate_possible : Bool
  pub cleanup_allowed : Bool
  pub failure_transient : Bool

-- `DeliveryFacts::polled`.
unfoldable pub new_polled : ℕ → DeliveryFacts
new_polled checkpoint = record {
  state = polled;
  sink_acknowledged_frontier = none;
  source_checkpoint = some checkpoint;
  source_visible = true;
  duplicate_possible = false;
  cleanup_allowed = false;
  failure_transient = false;
}

pub record TransitionError : Type 0 where
  pub at_state : DeliveryState
  pub event : DeliveryEvent

pub data Outcome : Type 0 where
  ok : DeliveryFacts → Outcome
  err : TransitionError → Outcome

-- `facts.source_checkpoint == Some(frontier)`.
abbrev checkpoint_is : Option ℕ → ℕ → Bool
checkpoint_is none frontier = false
checkpoint_is (some c) frontier = c == frontier

acknowledge : DeliveryFacts → ℕ → Outcome
acknowledge facts frontier =
    if checkpoint_is facts.source_checkpoint frontier
    then ok (record facts { state = sink_acknowledged; sink_acknowledged_frontier = some frontier })
    else err (record { at_state = facts.state; event = on_sink_acknowledged frontier })

fail_publish : DeliveryFacts → Bool → Outcome
fail_publish facts transient =
    ok (record facts { state = publish_failed; failure_transient = transient })

commit : DeliveryFacts → Outcome
commit facts = ok (record facts { state = checkpoint_committed; source_visible = false })

-- The `match (state, event)`; the last clause is `_ => false`.
dispatch : DeliveryState → DeliveryEvent → DeliveryFacts → Outcome
unfolding acknowledge fail_publish commit
dispatch polled on_encoded f = ok (record f { state = encoded })
dispatch encoded on_publish_started f = ok (record f { state = publish_started })
dispatch publish_started on_sink_accepted f =
    ok (record f { state = sink_accepted; duplicate_possible = true })
dispatch publish_started (on_sink_acknowledged frontier) f = acknowledge f frontier
dispatch sink_accepted (on_sink_acknowledged frontier) f = acknowledge f frontier
dispatch encoded on_dry_run_observed f = ok (record f { state = dry_run_observed })
dispatch encoded on_intentionally_filtered f = ok (record f { state = intentionally_filtered })
dispatch publish_started (on_publish_failed transient) f = fail_publish f transient
dispatch sink_accepted (on_publish_failed transient) f = fail_publish f transient
dispatch publish_failed on_dlq_persisted f = ok (record f { state = dlq_persisted })
dispatch sink_acknowledged on_checkpoint_committed f = commit f
dispatch dry_run_observed on_checkpoint_committed f = commit f
dispatch intentionally_filtered on_checkpoint_committed f = commit f
dispatch dlq_persisted on_checkpoint_committed f = commit f
dispatch checkpoint_committed on_cleanup_allowed f =
    ok (record f { state = cleanup_eligible; cleanup_allowed = true })
dispatch checkpoint_committed (on_next_batch checkpoint) f = ok (new_polled checkpoint)
dispatch cleanup_eligible (on_next_batch checkpoint) f = ok (new_polled checkpoint)
dispatch state event f = err (record { at_state = state; event = event })

unfoldable pub transition : DeliveryFacts → DeliveryEvent → Outcome
unfolding dispatch new_polled
transition facts event = dispatch facts.state event facts

-- Events applied in turn, as the fold of the tests does, up to the first illegal one.
unfoldable pub apply : DeliveryFacts → List DeliveryEvent → Outcome
apply facts [] = ok facts
apply facts (e ∷ es) = elim (transition facts e) [ ok next ↦ apply next es | err x ↦ err x ]
