-- ===== src/Breaker/Recovery.antt =====
-- How a half-open circuit closes again.
use pg_tide.Prelude.{
  ℕ, ◌+◌, ◌<◌, ◌≡◌, refl, sym, ap, ◌∙◌, subst, Bool, true, none, Bool-cases, inl, inr, List, [],
  ◌∷◌, map, arith, leb, if◌then◌else◌, length,
}
use pg_tide.Breaker.{CircuitBreaker, closed, half_open, succeeds, record_success, step, run}

-- A closed circuit without failures stays as it is.
closed_stays :
    (b : CircuitBreaker) (ns : List ℕ)
    → b.state ≡ closed
    → b.failure_count ≡ 0
    → run b (map succeeds ns) ≡ b
unfolding run step
closed_stays b [] s z = refl
closed_stays b (n ∷ ns) s z =
    let kept : record_success b ≡ b = unfold record_success in ground arith in
    rw (kept, run) (closed_stays b ns s z)

abbrev afresh : CircuitBreaker → CircuitBreaker
afresh b = record b { state = closed; failure_count = 0; success_count = 0; opened_at = none }

-- A probe that succeeds is counted, and closes the circuit at the threshold.
record_success-half_open :
    (b : CircuitBreaker)
    → b.config.enabled ≡ true
    → b.config.success_threshold < 4294967296
    → b.state ≡ half_open
    → b.success_count < b.config.success_threshold
    → record_success b ≡ (
        if leb b.config.success_threshold (b.success_count + 1)
        then afresh b
        else record b { success_count = b.success_count + 1 })
unfolding record_success
record_success-half_open b on u s h = ground arith

-- What successes leave of a half-open breaker, by whether they reach the threshold.
abbrev pub IsRecovered : CircuitBreaker → Bool → CircuitBreaker → Type 0
IsRecovered b reached end =
    (end.state ≡ (if reached then closed else half_open))
    × (end.failure_count ≡ (if reached then 0 else b.failure_count))
    × (end.opened_at ≡ (if reached then none else b.opened_at))

-- Recovery: in a half-open circuit of an enabled breaker, with fewer successes counted than the
-- success threshold, a 32-bit number, any number of successes in a row closes the circuit exactly if they reach the
-- threshold with those counted; then the failure count is 0 and the opening time forgotten. Fewer
-- leave the circuit half-open, its failure count and its opening time as they were.
pub successes_close :
    (b : CircuitBreaker) (ns : List ℕ)
    → b.config.enabled ≡ true
    → b.config.success_threshold < 4294967296
    → b.state ≡ half_open
    → b.success_count < b.config.success_threshold
    → IsRecovered b
        (leb b.config.success_threshold (b.success_count + length ns))
        (run b (map succeeds ns))
unfolding run step
successes_close b [] on u s h = ground arith
successes_close b (n ∷ ns) on u s h =
    elim (Bool-cases (leb b.config.success_threshold (b.success_count + 1))) [
      | inl hit ↦
          let closes : record_success b ≡ afresh b =
            rw hit at (record_success-half_open b on u s h) in
          let done : run (record_success b) (map succeeds ns) ≡ afresh b =
            ap (λ x. run x (map succeeds ns)) closes ∙ closed_stays (afresh b) ns refl refl in
          let reached : leb b.config.success_threshold (b.success_count + length (n ∷ ns)) ≡ true =
            ground (arith, hit) in
          subst (λ r. IsRecovered b r (run (record_success b) (map succeeds ns))) (sym reached)
            (subst (IsRecovered b true) (sym done) (refl, refl, refl))
      | inr missing ↦
          let counts : record_success b ≡ record b { success_count = b.success_count + 1 } =
            rw missing at (record_success-half_open b on u s h) in
          let total : b.success_count + 1 + length ns ≡ b.success_count + length (n ∷ ns) =
            omega arith in
          subst
            (λ k.
              IsRecovered b (leb b.config.success_threshold k)
                (run (record_success b) (map succeeds ns)))
            total
            (subst
              (λ x.
                IsRecovered b (leb b.config.success_threshold (b.success_count + 1 + length ns))
                  (run x (map succeeds ns)))
              (sym counts)
              (successes_close (record b { success_count = b.success_count + 1 }) ns on u s
                (ground (arith, missing))))
    ]
