-- ===== src/Extension/Relay/Examples.antt =====
-- A pipeline that is stored in the catalog of a database with one outbox.
use pg_tide.Prelude.{ℕ, ◌≡◌, refl, true, Option, none, some, [], ◌∷◌, if◌then◌else◌, String}
use pg_tide.Prelude.Int.{pos}
use pg_tide.Prelude.Text.{Text, text, text_eq, byte_len}
use pg_tide.Foreign.{Foreign}
use pg_tide.Extension.Failures.{ok}
use pg_tide.Extension.Validation.{validate_identifier}
use pg_tide.Extension.Database.{Database, Pipeline, Faults}
use pg_tide.Extension.Outboxes.{outbox_exists}
use pg_tide.Extension.Relay.{
  read_config, pipeline_of, batch_size_of, as_i32, validate_outbox_surface, check_source,
  check_sink, check_wire_format, removed_sinks, supported_sinks, removed_wire_formats,
  upsert_pipeline, set_statements, store_pipeline, relay_set_outbox_v2,
}
use pg_tide.Extension.Relay.Surfaces.{IsStored, relay_set_outbox_v2-IsStored}

-- The members of the one object, `none`; `some` is a text.
abbrev member : Option Text → String → Option (Option Text)
member none key =
    if text_eq (text key) (text "name")
    then some (some (text "relay"))
    else if text_eq (text key) (text "outbox")
    then some (some (text "orders"))
    else if text_eq (text key) (text "sink_type")
    then some (some (text "nats"))
    else none
member (some t) key = none

abbrev json : Foreign
json = record {
  Value = Option Text;
  get = member;
  as_bool = λ v. none;
  as_u64 = λ v. none;
  as_i64 = λ v. none;
  as_str = λ v. v;
  Uuid = ℕ;
  uuid_text = λ u. u ∷ [];
  DateTime = ℕ;
  Error = Text;
  error_text = λ e. e;
  sql_state = λ e. some e;
}

abbrev calm : Faults json
calm = record { fault = λ i. none; duplicate_key = []; missing_key = [] }

abbrev before : Database json
before = record {
  outboxes =
      record {
        name = text "orders";
        retention_hours = pos 24;
        inline_threshold = pos 10000;
        partition_strategy = text "none";
        enabled = true;
      }
      ∷ [];
  messages = [];
  next_id = 1;
  cleanups = [];
  groups = [];
  offsets = [];
  leases = [];
  publishers = [];
  pipelines = [];
  reverse_pipelines = [];
  relay_offsets = [];
}

abbrev stored : Pipeline json
stored = pipeline_of none (text "relay") (text "orders") (text "nats")

abbrev after : Database json
after = record before { pipelines = upsert_pipeline stored [] }

stores_well : relay_set_outbox_v2 calm none before ≡ ok (tt, after)
unfolding relay_set_outbox_v2 read_config batch_size_of as_i32 validate_outbox_surface check_source
    check_sink check_wire_format removed_sinks supported_sinks removed_wire_formats set_statements
    store_pipeline outbox_exists validate_identifier byte_len text_eq text pipeline_of
stores_well = refl

relay_set_outbox_v2-IsStored_example : IsStored calm none before after
relay_set_outbox_v2-IsStored_example =
    relay_set_outbox_v2-IsStored calm calm none before after (λ i. refl) stores_well
