-- ===== src/Errors.antt =====
-- pg-tide-relay/src/error.rs: the relay's error type and how errors are classified for retry.
mod Examples
use pg_tide.Prelude.{◌≡◌, refl, Bool, true, false, Option, none, some, ◌||◌, if◌then◌else◌}
use pg_tide.Prelude.Int.{ℤ}
use pg_tide.Prelude.Text.{Text, text, text_eq}
use pg_tide.Foreign.{Foreign}

pub data RetryClass : Type 0 where
  transient permanent : RetryClass

pub data ConnectorFailureCode : Type 0 where
  unavailable timeout throttled authentication authorization : ConnectorFailureCode
  tls_verification invalid_destination message_too_large : ConnectorFailureCode
  protocol_rejection invalid_config_code shutdown unknown : ConnectorFailureCode

pub record IncompatibleExtensionVersion : Type 0 where
  pub installed_version : Text
  pub relay_version : Text
  pub policy_version : Text
  pub compatibility_class : Text
  pub supported_range : Text
  pub next_action : Text
  pub reason : Text

-- The boxed errors of `SinkPublish` and `SourcePoll`, and those of `std::io`, `serde_json` and
-- `toml`, are foreign as `tokio_postgres::Error` is.
pub data RelayError (F : Foreign) : Type 0 where
  postgres : F.Error → RelayError F
  connection_failed : Text → F.Error → RelayError F
  config : Text → RelayError F
  incompatible_extension_version : IncompatibleExtensionVersion → RelayError F
  invalid_config : Text → Text → RelayError F
  unsupported_surface : Text → Text → RelayError F
  pipeline_not_found : Text → RelayError F
  missing_config_key : Text → Text → RelayError F
  unsupported_payload_version : ℤ → RelayError F
  payload_decode : Text → ℤ → Text → RelayError F
  sink_publish : Text → F.Error → RelayError F
  connector_failure : Text → ConnectorFailureCode → RetryClass → Text → RelayError F
  sink_unhealthy : Text → Text → RelayError F
  source_poll : Text → F.Error → RelayError F
  source_decode : Text → Text → RelayError F
  io : F.Error → RelayError F
  json : F.Error → RelayError F
  toml : F.Error → RelayError F
  channel_closed : RelayError F
  secret_not_found : Text → RelayError F
  secret_read_error : Text → Text → RelayError F
  invalid_secret_token : Text → RelayError F
  other : Text → RelayError F
  tls_required : Text → RelayError F
  insecure_transport : Text → Text → RelayError F
  tls_setup : Text → RelayError F
  not_implemented : Text → Text → RelayError F

pub data Result {ℓ} (F : Foreign) (A : Type ℓ) : Type ℓ where
  ok : A → Result F A
  err : RelayError F → Result F A

infixl 5 ◌>>=◌ ◌>>◌
-- The `?` operator, with what follows it.
abbrev pub ◌>>=◌ {ℓ κ} :
    {F : Foreign} {A : Type ℓ} {B : Type κ} → Result F A → (A → Result F B) → Result F B
ok value >>= rest = rest value
err error >>= rest = err error

abbrev pub ◌>>◌ {ℓ} : {F : Foreign} {B : Type ℓ} → Result F (Unit {0}) → Result F B → Result F B
first >> second = first >>= λ done. second

-- If what follows a `?` returns, so did the operation before it.
pub >>=-eq-ok {ℓ κ} :
    {F : Foreign} {A : Type ℓ} {B : Type κ} (first : Result F A) (rest : A → Result F B)
    {returned : B} (returns : first >>= rest ≡ ok returned)
    → (value : A) × (first ≡ ok value) × (rest value ≡ ok returned)
>>=-eq-ok (err error) rest returns = cc
>>=-eq-ok (ok value) rest returns = (value, refl, returns)

abbrev pub is_transient_class : RetryClass → Bool
is_transient_class transient = true
is_transient_class permanent = false

module _ {F : Foreign} where
  unfoldable pub is_transient : RelayError F → Bool
  is_transient (config m) = false
  is_transient (incompatible_extension_version v) = false
  is_transient (invalid_config n r) = false
  is_transient (pipeline_not_found n) = false
  is_transient (missing_config_key p k) = false
  is_transient (unsupported_payload_version v) = false
  is_transient (invalid_secret_token t) = false
  is_transient (secret_not_found t) = false
  is_transient (secret_read_error p r) = false
  is_transient (tls_required u) = false
  is_transient (tls_setup m) = false
  is_transient (source_decode s r) = false
  is_transient (not_implemented p m) = false
  is_transient (connector_failure c k class s) = is_transient_class class
  is_transient _ = true

  unfoldable pub retry_class : RelayError F → RetryClass
  unfolding is_transient
  retry_class (connector_failure c k class s) = class
  retry_class e = if is_transient e then transient else permanent

  unfoldable pub connector_code : RelayError F → Option ConnectorFailureCode
  connector_code (connector_failure c k class s) = some k
  connector_code _ = none

  unfoldable pub public_code : RelayError F → ConnectorFailureCode
  public_code (connector_failure c k class s) = k
  public_code _ = unknown

  unfoldable pub public_summary : RelayError F → Text
  public_summary (connector_failure c k class s) = s
  public_summary _ = text "relay operation failed"

  unfoldable pub owned_connector_failure : RelayError F → Option (RelayError F)
  owned_connector_failure (connector_failure c k class s) = some (connector_failure c k class s)
  owned_connector_failure _ = none

-- `Some("a" | "b" | …)`.
one_of : Option Text → Text → Bool
one_of none t = false
one_of (some s) t = text_eq s t

is_unavailable_state : Option Text → Bool
unfolding one_of
is_unavailable_state s =
    one_of s (text "08001")
    || one_of s (text "08003")
    || one_of s (text "08006")
    || one_of s (text "08007")
    || one_of s (text "57P01")

is_rejection_state : Option Text → Bool
unfolding one_of
is_rejection_state s =
    one_of s (text "23505")
    || one_of s (text "42P01")
    || one_of s (text "42703")
    || one_of s (text "42883")

module _ {F : Foreign} where
  open F use {Error, sql_state}

  unfoldable pub postgres_connector_failure : Text → Error → RelayError F
  unfolding is_unavailable_state is_rejection_state one_of
  postgres_connector_failure connector error =
      let state = sql_state error in
      if is_unavailable_state state
      then connector_failure connector unavailable transient (text "database unavailable")
      else if one_of state (text "57014")
      then connector_failure connector timeout transient (text "database operation timed out")
      else if one_of state (text "28P01")
      then connector_failure connector authentication permanent
          (text "database authentication rejected")
      else if one_of state (text "42501")
      then connector_failure connector authorization permanent
          (text "database authorization rejected")
      else if is_rejection_state state
      then connector_failure connector protocol_rejection permanent
          (text "database rejected the inbox write")
      else connector_failure connector unknown transient (text "database operation failed")

  tls_failure : Text → RelayError F
  tls_failure connector =
      connector_failure connector tls_verification permanent
        (text "connector TLS verification failed")

  unfoldable pub into_connector_failure : RelayError F → Text → RelayError F
  unfolding tls_failure
  into_connector_failure (connection_failed url e) c = postgres_connector_failure c e
  into_connector_failure (postgres e) c = postgres_connector_failure c e
  into_connector_failure (tls_required url) c = tls_failure c
  into_connector_failure (insecure_transport mode url) c = tls_failure c
  into_connector_failure (tls_setup m) c = tls_failure c
  into_connector_failure e c = e
