-- ===== src/Worker/Limits/Bounds.antt =====
-- What the publish limits guarantee of a batch that passes them.
use pg_tide.Prelude.{
  ℕ, ◌+◌, ◌≤◌, ◌<◌, ◌≡◌, refl, Bool, true, false, some, List, [], ◌∷◌, arith, if◌then◌else◌, ltb,
  length,
}
use pg_tide.Prelude.Text.{Text, text}
use pg_tide.Foreign.{Foreign}
use pg_tide.Errors.{RelayError, Result, ok, err, ◌>>=◌, >>=-eq-ok}
use pg_tide.Envelope.{RelayMessage}
use pg_tide.Worker.Limits.{
  Capabilities, saturating_add, too_large, sum_bytes, check_total, check_limits,
  validate_publish_limits,
}

-- A sum that stays below the greatest value has not been cut off.
saturating_add-below :
    (a b rest result : ℕ)
    → saturating_add a b + rest ≡ result
    → result < 18446744073709551615
    → a + (b + rest) ≡ result
unfolding saturating_add
saturating_add-below a b rest result e small = ground arith

module _ {F : Foreign} where
  -- The messages encode, each within the limit, to so many bytes together.
  abbrev pub IsSizeOf : (RelayMessage F → Result F ℕ) → ℕ → List (RelayMessage F) → ℕ → Type 0
  IsSizeOf encode limit [] total = total ≡ 0
  IsSizeOf encode limit (m ∷ ms) total =
      (n : ℕ) × (rest : ℕ) × (encode m ≡ ok n)
      × (n ≤ limit)
      × (total ≡ n + rest)
      × IsSizeOf encode limit ms rest

  pass :
      (b : Bool) (e : RelayError F) (r : Result F ℕ) (total : ℕ)
      → (if b then err e else r) ≡ ok total
      → (b ≡ false) × (r ≡ ok total)
  pass true e r total h = cc
  pass false e r total h = (refl, h)

  sum_bytes-IsSizeOf :
      (encode : RelayMessage F → Result F ℕ) (sink_type : Text) (limit total : ℕ)
      (ms : List (RelayMessage F)) (result : ℕ)
      → sum_bytes encode sink_type limit total ms ≡ ok result
      → result < 18446744073709551615
      → (size : ℕ) × (total + size ≡ result) × IsSizeOf encode limit ms size
  unfolding sum_bytes
  sum_bytes-IsSizeOf encode sink_type limit total [] result h small =
      let same : total ≡ result = cc h in (0, omega (arith, same), refl)
  sum_bytes-IsSizeOf encode sink_type limit total (m ∷ ms) result h small =
      let (n, encoded, more) = >>=-eq-ok (encode m) _ h in
      let (fits, counted) = pass (ltb limit n) _ _ result more in
      let (size, sum, sizes) =
        sum_bytes-IsSizeOf encode sink_type limit (saturating_add total n) ms result counted
          small in
      (
        n + size,
        saturating_add-below total n size result sum small,
        (n, size, encoded, ground (arith, fits), refl, sizes),
      )

  check_total-ok :
      (sink_type : Text) (limit total : ℕ)
      → check_total {F = F} sink_type limit total ≡ ok tt
      → total ≤ limit
  unfolding too_large
  check_total-ok sink_type limit total h = ground arith

  -- A batch that passes the limits of its connector has at most as many messages as allowed; each
  -- of them encodes to at most the bytes allowed for a message, and together they take at most the
  -- bytes allowed for a batch, where that limit is below the greatest 64-bit number: the sum that
  -- stops there hides nothing.
  pub validate_publish_limits-IsSizeOf :
      (encode : RelayMessage F → Result F ℕ) (pipeline sink_type : Text) (c : Capabilities)
      (ms : List (RelayMessage F))
      → validate_publish_limits encode pipeline sink_type (some (some c)) ms ≡ ok tt
      → c.max_batch_bytes < 18446744073709551615
      → (length ms ≤ c.max_batch_size)
        × ((size : ℕ) × (size ≤ c.max_batch_bytes) × IsSizeOf encode c.max_message_bytes ms size)
  unfolding validate_publish_limits check_limits
  validate_publish_limits-IsSizeOf encode pipeline sink_type c ms h small =
      by_count (ltb c.max_batch_size (length ms)) refl h
    where
      by_count :
          (b : Bool)
          → ltb c.max_batch_size (length ms) ≡ b
          → (if b
              then err (
                  too_large sink_type
                    (text "publish batch exceeds the connector message-count limit"))
              else sum_bytes encode sink_type c.max_message_bytes 0 ms
                >>= check_total sink_type c.max_batch_bytes)
            ≡ ok tt
          → (length ms ≤ c.max_batch_size)
            × ((size : ℕ) × (size ≤ c.max_batch_bytes)
                × IsSizeOf encode c.max_message_bytes ms size)
      by_count true over e = cc e
      by_count false fits e =
          let (total, summed, checked) =
            >>=-eq-ok (sum_bytes encode sink_type c.max_message_bytes 0 ms) _ e in
          let low = check_total-ok sink_type c.max_batch_bytes total checked in
          let (size, sum, sizes) =
            sum_bytes-IsSizeOf encode sink_type c.max_message_bytes 0 ms total summed
              (omega (arith, low)) in
          (ground (arith, fits), (size, omega (arith, sum, low), sizes))
