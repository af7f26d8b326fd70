-- ===== src/Worker/Outcome/Retries.antt =====
-- How a worker counts the failures of one batch, and where they lead.
use pg_tide.Prelude.{
  ℕ, ◌+◌, ◌<◌, ◌≡◌, refl, Bool, true, false, List, [], ◌∷◌, arith, inl, inr, if◌then◌else◌, ltb,
  Bool-cases, ◌&&◌,
}
use pg_tide.Prelude.Text.{Text}
use pg_tide.Foreign.{Foreign}
use pg_tide.Errors.{RelayError, RetryClass, transient, permanent, retry_class}
use pg_tide.Dlq.{DlqConfig, max_retries_exceeded}
use pg_tide.Breaker.{wrap_u32}
use pg_tide.Worker.Outcome.{
  PublishOutcome, success, failure, circuit_breaker_open, WorkerDirective, continue, backoff_ms,
  route, shut_down, safe_dlq_reason, handle_failure, handle_publish_outcome,
}

module _ {F : Foreign} where
  -- The directives for failures in a row, from a count on.
  abbrev pub directives : List (RelayError F) → ℕ → DlqConfig → ℕ → List (WorkerDirective F)
  directives [] failures dlq interval = []
  directives (e ∷ es) failures dlq interval =
      let (d, counted) = handle_publish_outcome (failure e) failures dlq interval in
      d ∷ directives es counted dlq interval

  -- The first so many are a backoff, and the next one, if any, dead-letters.
  abbrev pub BacksOffThenRoutes : ℕ → ℕ → List (WorkerDirective F) → Type 0
  BacksOffThenRoutes interval n [] = Unit
  BacksOffThenRoutes interval ℕ.zero (d ∷ ds) =
      (reason : Text) × (d ≡ route reason max_retries_exceeded)
  BacksOffThenRoutes interval (ℕ.suc n) (d ∷ ds) =
      (d ≡ backoff_ms interval) × BacksOffThenRoutes interval n ds

  -- All errors of the list are transient.
  abbrev pub AreTransient : List (RelayError F) → Type 0
  AreTransient [] = Unit
  AreTransient (e ∷ es) = (retry_class e ≡ transient) × AreTransient es

  handle_transient :
      (e : RelayError F) (failures : ℕ) (dlq : DlqConfig) (interval : ℕ)
      → retry_class e ≡ transient
      → dlq.enabled ≡ true
      → failures + 1 < 4294967296
      → let (d, counted) = handle_publish_outcome (failure e) failures dlq interval in
        (counted ≡ failures + 1)
        × (d ≡ (
            if ltb dlq.max_retries (failures + 1)
            then route (safe_dlq_reason e) max_retries_exceeded
            else backoff_ms interval))
  unfolding handle_publish_outcome handle_failure
  handle_transient e failures dlq interval soft on small = ground arith

  -- With dead letters enabled, transient failures of a batch in a row are retried as long as they
  -- are at most `max_retries` together with those counted before, and the next one dead-letters the
  -- batch, where `max_retries` is below the greatest 32-bit number: a batch is tried once more than
  -- `max_retries` says.
  pub directives_back_off_then_route :
      (es : List (RelayError F)) (failures left : ℕ) (dlq : DlqConfig) (interval : ℕ)
      → AreTransient es
      → dlq.enabled ≡ true
      → failures + left ≡ dlq.max_retries
      → dlq.max_retries + 1 < 4294967296
      → BacksOffThenRoutes interval left (directives es failures dlq interval)
  directives_back_off_then_route [] failures left dlq interval soft on sum small = tt
  directives_back_off_then_route (e ∷ es) failures ℕ.zero dlq interval soft on sum small =
      let h = handle_transient e failures dlq interval soft.0 on (omega arith) in
      (safe_dlq_reason e, ground (arith, h.1))
  directives_back_off_then_route (e ∷ es) failures (ℕ.suc n) dlq interval soft on sum small =
      let h = handle_transient e failures dlq interval soft.0 on (omega arith) in
      (
        ground (arith, h.1),
        rw h.0 (
            directives_back_off_then_route es (failures + 1) n dlq interval soft.1 on (omega arith)
              small),
      )

  -- What a directive may be: with dead letters enabled it does not stop the worker, and without
  -- them it does not route; and after a permanent failure it is not another attempt.
  abbrev pub IsAllowed : Bool → Bool → WorkerDirective F → Type 0
  IsAllowed enabled retries continue = Unit
  IsAllowed enabled retries (backoff_ms n) = retries ≡ true
  IsAllowed enabled retries (route reason kind) = enabled ≡ true
  IsAllowed enabled retries (shut_down e) = enabled ≡ false

  abbrev pub may_retry : PublishOutcome F → Bool
  may_retry (failure e) = elim (retry_class e) [ transient ↦ true | permanent ↦ false ]
  may_retry outcome = true

  either_way :
      (b retries : Bool) (d c : WorkerDirective F)
      → (b ≡ true → IsAllowed b retries d)
      → (b ≡ false → IsAllowed b retries c)
      → IsAllowed b retries (if b then d else c)
  either_way true retries d c f g = f refl
  either_way false retries d c f g = g refl

  handle_failure-IsAllowed :
      (e : RelayError F) (class : RetryClass) (failures : ℕ) (dlq : DlqConfig) (interval : ℕ)
      → IsAllowed dlq.enabled
          (elim class [ transient ↦ true | permanent ↦ false ])
          (handle_failure e class failures dlq interval)
  unfolding handle_failure
  handle_failure-IsAllowed e permanent failures dlq interval =
      either_way dlq.enabled false _ _ (λ h. h) (λ h. h)
  handle_failure-IsAllowed e transient failures dlq interval =
      elim (Bool-cases (dlq.enabled && ltb dlq.max_retries failures)) [
        | inl hit ↦ rw hit (ground arith)
        | inr miss ↦ rw miss refl
      ]

  -- Whatever the outcome of a publish: with dead letters enabled the worker is not stopped, without
  -- them the batch is not dead-lettered, and a permanent failure is not followed by another attempt.
  pub handle_publish_outcome-IsAllowed :
      (outcome : PublishOutcome F) (failures : ℕ) (dlq : DlqConfig) (interval : ℕ)
      → IsAllowed dlq.enabled
          (may_retry outcome)
          (handle_publish_outcome outcome failures dlq interval).0
  unfolding handle_publish_outcome
  handle_publish_outcome-IsAllowed success failures dlq interval = tt
  handle_publish_outcome-IsAllowed circuit_breaker_open failures dlq interval =
      either_way dlq.enabled true _ _ (λ h. h) (λ h. refl)
  handle_publish_outcome-IsAllowed (failure e) failures dlq interval =
      handle_failure-IsAllowed e (retry_class e) (wrap_u32 (failures + 1)) dlq interval
