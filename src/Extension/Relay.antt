-- ===== src/Extension/Relay.antt =====
-- pg-tide-ext/src/relay.rs: the catalog of pipelines that the relay reads.
pub mod Surfaces
mod Examples
use pg_tide.Prelude.{
  ℕ, ◌-◌, ◌%◌, Bool, true, false, not, Option, none, some, List, [], ◌∷◌, ◌++◌, map, ◌||◌, ◌&&◌,
  any, find, filter, if◌then◌else◌, leb, ltb, unwrap_or, and_then, is_empty, String,
}
use pg_tide.Prelude.Int.{ℤ, pos, negsuc, leb_ℤ}
use pg_tide.Prelude.Text.{Text, text, text_eq}
use pg_tide.Foreign.{Foreign}
use pg_tide.Extension.Failures.{
  PgResult, ok, err, ◌>>=◌, ◌>>◌, run_spi, invalid_argument, unsupported_surface, outbox_not_found,
  relay_not_found,
}
use pg_tide.Extension.Validation.{validate_identifier}
use pg_tide.Extension.Database.{Pipeline, ReversePipeline, Database, Faults}
use pg_tide.Extension.Outboxes.{outbox_exists}

abbrev pub occurs_in : Text → List Text → Bool
occurs_in t ts = any (text_eq t) ts

unfoldable pub supported_sinks : List Text
supported_sinks =
    text "inbox"
    ∷ text "pg_outbox"
    ∷ text "nats"
    ∷ text "kafka"
    ∷ text "webhook"
    ∷ text "stdout"
    ∷ text "file"
    ∷ []

unfoldable pub removed_sinks : List Text
removed_sinks =
    text "redis"
    ∷ text "rabbitmq"
    ∷ text "sqs"
    ∷ text "kinesis"
    ∷ text "pubsub"
    ∷ text "servicebus"
    ∷ text "eventhubs"
    ∷ text "mqtt"
    ∷ text "elasticsearch"
    ∷ text "object-storage"
    ∷ text "slack"
    ∷ text "discord"
    ∷ text "pagerduty"
    ∷ text "arrow-flight"
    ∷ text "singer"
    ∷ text "airbyte"
    ∷ text "clickhouse"
    ∷ text "mongodb"
    ∷ text "bigquery"
    ∷ text "snowflake"
    ∷ text "delta"
    ∷ text "iceberg"
    ∷ text "ducklake"
    ∷ text "rocklake"
    ∷ []

unfoldable pub removed_wire_formats : List Text
removed_wire_formats = text "debezium" ∷ text "maxwell" ∷ text "canal" ∷ text "cdc_json" ∷ []

context_of : Text → Text → Text
context_of pipeline part = text "relay pipeline '" ++ pipeline ++ text "' " ++ part

unfoldable pub check_source : Text → Option Text → PgResult (Unit {0})
unfolding context_of
check_source pipeline none = ok tt
check_source pipeline (some t) =
    if text_eq t (text "pg_trickle_outbox")
    then err
        (unsupported_surface t (context_of pipeline (text "source")) (text "source_type=outbox"))
    else if text_eq t (text "outbox")
    then ok tt
    else err (invalid_argument (text "relay_set_outbox_v2: unknown source_type '" ++ t ++ text "'"))

unfoldable pub check_sink : Text → Option Text → PgResult (Unit {0})
unfolding context_of removed_sinks supported_sinks
check_sink pipeline none = ok tt
check_sink pipeline (some t) =
    if occurs_in t removed_sinks
    then err (
        unsupported_surface t (context_of pipeline (text "sink"))
          (text "inbox, nats, kafka, webhook, stdout, or file"))
    else if occurs_in t supported_sinks
    then ok tt
    else err (invalid_argument (text "relay_set_outbox_v2: unknown sink_type '" ++ t ++ text "'"))

unfoldable pub check_wire_format : Text → Option Text → PgResult (Unit {0})
unfolding context_of removed_wire_formats
check_wire_format pipeline none = ok tt
check_wire_format pipeline (some t) =
    if occurs_in t removed_wire_formats
    then err (
        unsupported_surface t (context_of pipeline (text "wire format"))
          (text "wire_format=native or wire_format=cloudevents"))
    else if text_eq t (text "native") || text_eq t (text "cloudevents")
    then ok tt
    else err (invalid_argument (text "relay_set_outbox_v2: unknown wire_format '" ++ t ++ text "'"))

unfoldable pub validate_outbox_surface :
    Text → Option Text → Option Text → Option Text → PgResult (Unit {0})
unfolding check_source check_sink check_wire_format
validate_outbox_surface pipeline source_type sink_type wire_format =
    check_source pipeline source_type
    >> check_sink pipeline sink_type
    >> check_wire_format pipeline wire_format

-- An `as i32` cast keeps the low 32 bits, as a signed number.
unfoldable pub as_i32 : ℤ → ℤ
as_i32 (pos n) =
    let low = n % 4294967296 in if ltb low 2147483648 then pos low else negsuc (4294967295 - low)
as_i32 (negsuc n) =
    let low = n % 4294967296 in if ltb low 2147483648 then negsuc low else pos (4294967295 - low)

abbrev pub check_source_mode : Text → Option Text → PgResult (Unit {0})
check_source_mode name none = ok tt
check_source_mode name (some mode) =
    if text_eq mode (text "pg_trickle")
    then err (
        unsupported_surface (text "source_mode=pg_trickle")
          (text "relay pipeline '" ++ name ++ text "' source mode")
          (text "omit source_mode and use the native outbox"))
    else if text_eq mode (text "native")
    then ok tt
    else err
        (invalid_argument (text "relay_set_outbox_v2: unknown source_mode '" ++ mode ++ text "'"))

abbrev pub check_batch_size : ℤ → PgResult (Unit {0})
check_batch_size n =
    if leb_ℤ (pos 1) n && leb_ℤ n (pos 10000)
    then ok tt
    else err (invalid_argument (text "relay_set_outbox_v2: batch_size must be between 1 and 10000"))

abbrev pub is_reverse : Text → ReversePipeline → Bool
is_reverse name p = text_eq name p.name

abbrev pub switch_reverse : Text → Bool → ReversePipeline → ReversePipeline
switch_reverse name enabled p = if is_reverse name p then record p { enabled = enabled } else p

abbrev pub if_known {ℓ} : {A : Type ℓ} → Bool → Text → PgResult A → PgResult A
if_known true name rest = rest
if_known false name rest = err (relay_not_found name)

module _ (F : Foreign) where
  open F use {Value, get, as_bool, as_i64, as_str}

  abbrev pub text_at : Value → String → Option Text
  text_at config key = and_then (get config key) as_str

  -- A member that must be a text, and not an empty one.
  abbrev pub required : Value → String → PgResult Text
  required config key = present (text_at config key)
    where
      present : Option Text → PgResult Text
      present none = err (
          invalid_argument (
            text "relay_set_outbox_v2: config must include a non-empty \""
            ++ text key
            ++ text "\" key"))
      present (some []) = err (
          invalid_argument (
            text "relay_set_outbox_v2: config must include a non-empty \""
            ++ text key
            ++ text "\" key"))
      present (some (c ∷ s)) = ok (c ∷ s)

  unfoldable pub batch_size_of : Value → ℤ
  unfolding as_i32
  batch_size_of config = as_i32 (unwrap_or (and_then (get config "batch_size") as_i64) (pos 100))

module _ {F : Foreign} where
  open F use {Value, get, as_bool}

  -- The last check before the tables.
  abbrev pub surface_checked : Pipeline F → PgResult (Pipeline F)
  surface_checked p = validate_outbox_surface p.name p.source_type p.sink_type p.wire_format >> ok p

  -- `none` is the sink of an empty object.
  unfoldable pub pipeline_of : Value → Text → Text → Text → Pipeline F
  pipeline_of config name outbox sink_type = record {
    name = name;
    enabled = unwrap_or (and_then (get config "enabled") as_bool) true;
    source_outbox = some outbox;
    source_type = some (text "outbox");
    sink_type = some sink_type;
    wire_format = some (unwrap_or (text_at F config "wire_format") (text "native"));
    batch_size = some (batch_size_of F config);
    sink = get config "config";
  }

  -- The pipeline that a configuration describes.
  unfoldable pub read_config : Value → PgResult (Pipeline F)
  unfolding batch_size_of validate_outbox_surface pipeline_of
  read_config config = do
    name ← required F config "name"
    outbox ← required F config "outbox"
    sink_type ← required F config "sink_type"
    check_source_mode name (text_at F config "source_mode")
    check_batch_size (batch_size_of F config)
    validate_identifier name
    validate_identifier outbox
    surface_checked (pipeline_of config name outbox sink_type)

  abbrev pub is_pipeline : Text → Pipeline F → Bool
  is_pipeline name p = text_eq name p.name

  -- `INSERT … ON CONFLICT (name) DO UPDATE`.
  unfoldable pub upsert_pipeline : Pipeline F → List (Pipeline F) → List (Pipeline F)
  upsert_pipeline p [] = p ∷ []
  upsert_pipeline p (q ∷ qs) =
      let rest = upsert_pipeline p qs in if is_pipeline p.name q then p ∷ qs else q ∷ rest

  unfoldable pub set_statements : Faults F → Text → PgResult (Unit {0})
  set_statements faults name =
      run_spi F (faults.fault 1) (text "serialize config: ")
      >> run_spi F (faults.fault 2) (text "UPSERT relay_outbox_config: ")
      >> run_spi F (faults.fault 3) (text "notify relay config '" ++ name ++ text "': ")

  unfoldable pub store_pipeline :
      Faults F → Pipeline F → Bool → Database F → PgResult (Unit {0} × Database F)
  unfolding set_statements upsert_pipeline
  store_pipeline faults p false db = err (outbox_not_found (unwrap_or p.source_outbox []))
  store_pipeline faults p true db =
      set_statements faults p.name
      >> ok (tt, record db { pipelines = upsert_pipeline p db.pipelines })

  unfoldable pub relay_set_outbox_v2 :
      Faults F → Value → Database F → PgResult (Unit {0} × Database F)
  unfolding read_config outbox_exists store_pipeline
  relay_set_outbox_v2 faults config db = read_config config >>= λ p.
      outbox_exists (faults.fault 0) (unwrap_or p.source_outbox []) db >>= λ exists.
      store_pipeline faults p exists db

  unfoldable pub relay_exists : Faults F → Text → Database F → PgResult Bool
  relay_exists faults name db =
      run_spi F (faults.fault 0) (text "relay_exists outbox SPI error: ")
      >> run_spi F (faults.fault 1) (text "relay_exists inbox SPI error: ")
      >> ok (any (is_pipeline name) db.pipelines || any (is_reverse name) db.reverse_pipelines)

  abbrev pub switch_pipeline : Text → Bool → Pipeline F → Pipeline F
  switch_pipeline name enabled p = if is_pipeline name p then record p { enabled = enabled } else p

  -- The update of both tables, which changes some row when the pipeline exists.
  unfoldable pub switched : Text → Bool → Database F → Database F
  switched name enabled db = record db {
    pipelines = map (switch_pipeline name enabled) db.pipelines;
    reverse_pipelines = map (switch_reverse name enabled) db.reverse_pipelines;
  }

  abbrev pub check_configured : Text → Option (Pipeline F) → PgResult (Unit {0})
  check_configured name none = err (
      unsupported_surface (text "reverse pipeline")
        (text "relay pipeline '" ++ name ++ text "' enable")
        (text "configure a native outbox pipeline with relay_set_outbox_v2"))
  check_configured name (some p) =
      validate_outbox_surface name p.source_type p.sink_type p.wire_format

  unfoldable pub relay_enable : Faults F → Text → Database F → PgResult (Bool × Database F)
  unfolding relay_exists validate_outbox_surface switched
  relay_enable faults name db = relay_exists faults name db >>= λ known. if_known known name (
      run_spi F (faults.fault 2) (text "check relay '" ++ name ++ text "' before enable: ")
      >> check_configured name (find (is_pipeline name) db.pipelines)
      >> run_spi F (faults.fault 3) (text "enable relay '" ++ name ++ text "': ")
      >> run_spi F (faults.fault 4) (text "notify relay config '" ++ name ++ text "': ")
      >> ok (true, switched name true db))

  unfoldable pub relay_disable : Faults F → Text → Database F → PgResult (Bool × Database F)
  unfolding relay_exists switched
  relay_disable faults name db = relay_exists faults name db >>= λ known. if_known known name (
      run_spi F (faults.fault 2) (text "disable relay '" ++ name ++ text "': ")
      >> run_spi F (faults.fault 3) (text "notify relay config '" ++ name ++ text "': ")
      >> ok (true, switched name false db))

  unfoldable pub relay_delete : Faults F → Text → Database F → PgResult (Unit {0} × Database F)
  unfolding relay_exists
  relay_delete faults name db = relay_exists faults name db >>= λ known. if_known known name (
      run_spi F (faults.fault 2) (text "delete relay '" ++ name ++ text "': ")
      >> run_spi F (faults.fault 3) (text "notify relay config '" ++ name ++ text "': ")
      >> ok (
        tt,
        record db {
          pipelines = filter (λ p. not (is_pipeline name p)) db.pipelines;
          reverse_pipelines = filter (λ p. not (is_reverse name p)) db.reverse_pipelines;
        },
      ))
