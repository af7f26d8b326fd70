-- ===== src/Breaker/Timeouts.antt =====
-- What an open circuit lets through.
use pg_tide.Prelude.{
  ℕ, ◌+◌, ◌≤◌, ◌<◌, ◌≡◌, refl, sym, ◌∙◌, ap, subst, true, false, some, List, [], ◌∷◌, ◌++◌, map,
  arith, length, All,
}
use pg_tide.Breaker.Invariant.{IsU32}
use pg_tide.Breaker.{
  CircuitBreakerConfig, CircuitBreaker, Call, closed, opened, half_open, allows, succeeds, fails,
  new_breaker, should_allow, record_success, record_failure, step, run, answers,
}

run-append : (b : CircuitBreaker) (cs ds : List Call) → run b (cs ++ ds) ≡ run (run b cs) ds
unfolding run
run-append b [] ds = refl
run-append b (c ∷ cs) ds = run-append (step b c) cs ds

-- A failure below the threshold is only counted.
failure_counted :
    (b : CircuitBreaker) (n : ℕ)
    → b.config.enabled ≡ true
    → b.config.failure_threshold < 4294967296
    → b.state ≡ closed
    → b.failure_count + 1 < b.config.failure_threshold
    → record_failure b n ≡ record b { failure_count = b.failure_count + 1 }
unfolding record_failure
failure_counted b n on u s h = ground arith

failures_counted :
    (b : CircuitBreaker) (ns : List ℕ)
    → b.config.enabled ≡ true
    → b.config.failure_threshold < 4294967296
    → b.state ≡ closed
    → b.failure_count + length ns < b.config.failure_threshold
    → run b (map fails ns) ≡ record b { failure_count = b.failure_count + length ns }
unfolding run step
failures_counted b [] on u s h =
    let same : b.failure_count + 0 ≡ b.failure_count = omega arith in rw same refl
failures_counted b (n ∷ ns) on u s h =
    rw (failure_counted b n on u s (omega arith), run)
      (failures_counted (record b { failure_count = b.failure_count + 1 }) ns on u s (omega arith)
        ∙ ap (λ (k : ℕ). record b { failure_count = k }) (omega arith))

-- The last failure to the threshold opens the circuit at its time.
failure_trips :
    (b : CircuitBreaker) (at : ℕ)
    → b.config.enabled ≡ true
    → b.config.failure_threshold < 4294967296
    → b.state ≡ closed
    → b.failure_count + 1 ≡ b.config.failure_threshold
    → record_failure b at
      ≡ record b { failure_count = b.failure_count + 1; state = opened; opened_at = some at }
unfolding record_failure
failure_trips b at on u s h = ground arith

-- A request among the calls comes before the time.
abbrev pub IsBefore : ℕ → Call → Type 0
IsBefore limit (allows now) = now < limit
IsBefore limit (succeeds now) = Unit
IsBefore limit (fails now) = Unit

early_request :
    (b : CircuitBreaker) (at now : ℕ)
    → b.config.enabled ≡ true
    → 0 < b.config.half_open_timeout
    → b.state ≡ opened
    → b.opened_at ≡ some at
    → now < at + b.config.half_open_timeout
    → should_allow b now ≡ (b, false)
unfolding should_allow
early_request b at now on positive s e h = ground arith

late_request :
    (b : CircuitBreaker) (at now : ℕ)
    → b.config.enabled ≡ true
    → b.state ≡ opened
    → b.opened_at ≡ some at
    → at + b.config.half_open_timeout ≤ now
    → should_allow b now ≡ (record b { state = half_open; success_count = 0 }, true)
unfolding should_allow
late_request b at now on s e h = ground arith

opened_quiet :
    (b : CircuitBreaker) (at : ℕ) (cs : List Call)
    → b.config.enabled ≡ true
    → 0 < b.config.half_open_timeout
    → b.state ≡ opened
    → b.opened_at ≡ some at
    → All (IsBefore (at + b.config.half_open_timeout)) cs
    → (run b cs ≡ b) × All (λ a. a ≡ false) (answers b cs)
unfolding run step answers
opened_quiet b at [] on positive s e h = (refl, tt)
opened_quiet b at (allows now ∷ cs) on positive s e h =
    let refused = early_request b at now on positive s e h.0 in
    let (same, all) = opened_quiet b at cs on positive s e h.1 in
    let kept : (should_allow b now).0 ≡ b = ap (λ p. p.0) refused in
    (
      ap (λ x. run x cs) kept ∙ same,
      (ap (λ p. p.1) refused, subst (λ x. All (λ a. a ≡ false) (answers x cs)) (sym kept) all),
    )
opened_quiet b at (succeeds now ∷ cs) on positive s e h =
    let kept : record_success b ≡ b = unfold record_success in ground arith in
    let (same, all) = opened_quiet b at cs on positive s e h.1 in
    (
      ap (λ x. run x cs) kept ∙ same,
      subst (λ x. All (λ a. a ≡ false) (answers x cs)) (sym kept) all,
    )
opened_quiet b at (fails now ∷ cs) on positive s e h =
    let kept : record_failure b now ≡ b = unfold record_failure in ground arith in
    let (same, all) = opened_quiet b at cs on positive s e h.1 in
    (
      ap (λ x. run x cs) kept ∙ same,
      subst (λ x. All (λ a. a ≡ false) (answers x cs)) (sym kept) all,
    )

tripped_at : CircuitBreakerConfig → ℕ → CircuitBreaker
tripped_at c at = record {
  config = c;
  state = opened;
  failure_count = c.failure_threshold;
  success_count = 0;
  opened_at = some at;
}

failures_trip :
    (c : CircuitBreakerConfig) (ns : List ℕ) (at : ℕ)
    → c.enabled ≡ true
    → IsU32 c
    → length ns + 1 ≡ c.failure_threshold
    → run (new_breaker c) (map fails ns ++ fails at ∷ []) ≡ tripped_at c at
unfolding run step new_breaker tripped_at
failures_trip c ns at on u many =
    let counted : run (new_breaker c) (map fails ns)
        ≡ record (new_breaker c) { failure_count = length ns } =
      failures_counted (new_breaker c) ns on u.failure_u32 refl (omega arith)
      ∙ ap (λ (k : ℕ). record (new_breaker c) { failure_count = k }) (omega arith) in
    run-append (new_breaker c) (map fails ns) (fails at ∷ [])
    ∙ ap (λ b. record_failure b at) counted
    ∙ failure_trips (record (new_breaker c) { failure_count = length ns }) at on u.failure_u32 refl
        many
    ∙ ap (λ (k : ℕ). record (tripped_at c at) { failure_count = k }) many

-- An enabled breaker with 32-bit thresholds and a positive timeout that sees failures alone is open once they are the
-- failure threshold. From then on, whatever calls come in whatever order, as long as each request
-- comes before the timeout after the last of those failures, every request is refused and nothing
-- changes, also not the time from which the timeout counts; and the first request at or after the
-- timeout is let through, in a half-open circuit that has counted no success.
pub trip_refuses_until_timeout :
    (c : CircuitBreakerConfig) (ns : List ℕ) (at : ℕ) (cs : List Call) (now : ℕ)
    → c.enabled ≡ true
    → IsU32 c
    → 0 < c.half_open_timeout
    → length ns + 1 ≡ c.failure_threshold
    → All (IsBefore (at + c.half_open_timeout)) cs
    → at + c.half_open_timeout ≤ now
    → let tripped = run (new_breaker c) (map fails ns ++ fails at ∷ []) in
      let next = should_allow (run tripped cs) now in
      (tripped.state ≡ opened)
      × (run tripped cs ≡ tripped)
      × All (λ a. a ≡ false) (answers tripped cs)
      × (next.1 ≡ true)
      × (next.0.state ≡ half_open)
      × (next.0.success_count ≡ 0)
unfolding tripped_at
trip_refuses_until_timeout c ns at cs now on u positive many early late =
    let (same, refused) = opened_quiet (tripped_at c at) at cs on positive refl refl early in
    rw (failures_trip c ns at on u many) (
      rw (same, late_request (tripped_at c at) at now on refl refl late)
        (refl, refl, refused, refl, refl, refl))
