-- ===== src/Worker/Limits.antt =====
-- pg-tide-relay/src/coordinator.rs, `validate_publish_limits`: the limits of a connector on the
-- size of a batch and of its messages.
pub mod Bounds
use pg_tide.Prelude.{ℕ, ◌+◌, Option, none, some, List, [], ◌∷◌, ◌++◌, if◌then◌else◌, ltb, length}
use pg_tide.Prelude.Text.{Text, text}
use pg_tide.Foreign.{Foreign}
use pg_tide.Errors.{
  RelayError, Result, ok, err, ◌>>=◌, ◌>>◌, connector_failure, invalid_config, message_too_large,
  permanent,
}
use pg_tide.Envelope.{RelayMessage}

-- The limits of a connector's descriptor.
pub record Capabilities : Type 0 where
  pub max_batch_size : ℕ  -- u32
  pub max_batch_bytes : ℕ  -- u64
  pub max_message_bytes : ℕ  -- u64

-- A `u64` sum that stops at the greatest value.
unfoldable pub saturating_add : ℕ → ℕ → ℕ
saturating_add a b = if ltb (a + b) 18446744073709551616 then a + b else 18446744073709551615

module _ {F : Foreign} where
  unfoldable pub too_large : Text → Text → RelayError F
  too_large sink_type summary = connector_failure sink_type message_too_large permanent summary

  -- The loop over the messages; `encode` is the length of a message's JSON, or the error.
  unfoldable pub sum_bytes :
      (RelayMessage F → Result F ℕ) → Text → ℕ → ℕ → List (RelayMessage F) → Result F ℕ
  unfolding saturating_add too_large
  sum_bytes encode sink_type limit total [] = ok total
  sum_bytes encode sink_type limit total (m ∷ ms) = encode m >>= λ message_bytes.
      let rest = sum_bytes encode sink_type limit (saturating_add total message_bytes) ms in
      if ltb limit message_bytes
      then err
          (too_large sink_type (text "encoded message exceeds the connector message-size limit"))
      else rest

  abbrev pub check_total : Text → ℕ → ℕ → Result F (Unit {0})
  check_total sink_type limit total =
      if ltb limit total
      then err (too_large sink_type (text "encoded batch exceeds the connector byte limit"))
      else ok tt

  unfoldable pub check_limits :
      (RelayMessage F → Result F ℕ)
      → Text
      → Capabilities
      → List (RelayMessage F)
      → Result F (Unit {0})
  unfolding sum_bytes
  check_limits encode sink_type capabilities msgs =
      if ltb capabilities.max_batch_size (length msgs)
      then err
          (too_large sink_type (text "publish batch exceeds the connector message-count limit"))
      else sum_bytes encode sink_type capabilities.max_message_bytes 0 msgs
        >>= check_total sink_type capabilities.max_batch_bytes

  -- `validate_publish_limits`, with the descriptor that the table of connectors has for the sink
  -- type: none for an unknown type, and one without capabilities for a sink that has no limits.
  unfoldable pub validate_publish_limits :
      (RelayMessage F → Result F ℕ)
      → Text
      → Text
      → Option (Option Capabilities)
      → List (RelayMessage F)
      → Result F (Unit {0})
  unfolding check_limits
  validate_publish_limits encode pipeline sink_type none msgs =
      err (invalid_config pipeline (text "unknown sink_type '" ++ (sink_type ++ text "'")))
  validate_publish_limits encode pipeline sink_type (some none) msgs = ok tt
  validate_publish_limits encode pipeline sink_type (some (some capabilities)) msgs =
      check_limits encode sink_type capabilities msgs
