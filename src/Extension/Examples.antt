-- ===== src/Extension/Examples.antt =====
-- An outbox with two messages, which a pipeline and a consumer group read.
use pg_tide.Prelude.{ℕ, ◌≡◌, refl, true, false, none, some, List, [], ◌∷◌, arith, inl, ◌==◌}
use pg_tide.Prelude.Int.{pos}
use pg_tide.Prelude.Text.{Text, text, text_eq}
use pg_tide.Foreign.Samples.{sample}
use pg_tide.Source.Rows.{Row}
use pg_tide.Breaker.{default_config}
use pg_tide.Dlq.{default_dlq}
use pg_tide.Worker.State.{Settings}
use pg_tide.Worker.Runs.{World, new_world}
use pg_tide.Extension.Failures.{ok}
use pg_tide.Extension.Database.{Database, Pipeline, Faults, Clock, or_abort}
use pg_tide.Extension.Candidates.{safe_offset}
use pg_tide.Extension.Publish.{Roles, enabled_of, insert_message, outbox_publish}
use pg_tide.Extension.Publish.Authority.{MayPublish, as_publisher}
use pg_tide.Extension.Publish.Outcomes.{
  IsPublished, outbox_publish-IsPublished, MayPublish-outbox_publish,
}
use pg_tide.Extension.Groups.{committed, commit_offset}
use pg_tide.Extension.Groups.Registers.{commit_register}
use pg_tide.Extension.Groups.Commits.{commit_offset-refines}
use pg_tide.Extension.Sweep.{
  SweepReport, participants, lease_blocked, candidate_now, sweep_statements, sweep_outcome,
  released, sweep_one_locked, sweep_one, reads_outbox, relay_offset_of,
}
use pg_tide.Extension.Sweep.Deletion.{IsSweep, sweep_one-IsSweep}
use pg_tide.Extension.Sweep.Refinement.{rows_of, IsPipelineOf, IsRefined, sweep_one-IsRefined}
use pg_tide.Extension.Calls.{Call, publishes, drops, sweeps, commits, run_calls}
use pg_tide.Extension.Calls.Consistency.{IsConsistent}
use pg_tide.Extension.Calls.Preservation.{run_calls-IsConsistent}

abbrev orders : Text
orders = text "orders"

abbrev row : ℕ → Row sample
row n = record { id = n; payload = n; headers = none; created_at = some 5 }

abbrev relay : Pipeline sample
relay = record {
  name = text "relay";
  enabled = true;
  source_outbox = some orders;
  source_type = some (text "outbox");
  sink_type = some (text "nats");
  wire_format = some (text "native");
  batch_size = some (pos 100);
  sink = none;
}

abbrev tables : Database sample
tables = record {
  outboxes =
      record {
        name = orders;
        retention_hours = pos 24;
        inline_threshold = pos 10000;
        partition_strategy = text "none";
        enabled = true;
      }
      ∷ [];
  messages = record { outbox = orders; row = row 1 } ∷ record { outbox = orders; row = row 2 } ∷ [];
  next_id = 3;
  cleanups = [];
  groups =
      record { name = text "audit"; outbox = orders; auto_offset_reset = text "earliest" } ∷ [];
  offsets =
      record {
        group = text "audit";
        consumer = text "one";
        committed_offset = pos 2;
        last_heartbeat = 5;
      }
      ∷ [];
  leases = [];
  publishers = record { outbox = orders; role = text "shop" } ∷ [];
  pipelines = relay ∷ [];
  reverse_pipelines = [];
  relay_offsets =
      record {
        relay_group = text "default";
        pipeline = text "relay";
        outbox = orders;
        last_change_id = pos 0;
      }
      ∷ [];
}

abbrev calm : Faults sample
calm = record { fault = λ i. none; duplicate_key = []; missing_key = [] }

abbrev noon : Clock sample
noon = record { now = 12; is_after_now = λ t. false; is_expired = λ hours t. t == 5 }

-- A member of the publishers' role and of the role that is granted.
abbrev roles : Roles
roles = record {
  session_user = some (text "app");
  is_superuser = λ u. some false;
  is_extension_owner = λ u. some false;
  is_member = λ u r. true;
  has_publisher_role = true;
}

abbrev may : MayPublish roles (text "app") orders tables.publishers
unfolding text_eq text
may = as_publisher (record {
  role_exists = refl;
  has_role = refl;
  grant = record { outbox = orders; role = text "shop" };
  granted = inl refl;
  on_outbox = refl;
  to_user = refl;
})

MayPublish-outbox_publish_example :
    outbox_publish calm roles noon 0 orders 7 8 tables
    ≡ ok (tt, insert_message noon 0 orders 7 8 tables)
unfolding enabled_of text text_eq
MayPublish-outbox_publish_example =
    MayPublish-outbox_publish calm roles noon 0 orders 7 8 tables (text "app") false false
      (λ i. refl) refl refl refl refl may

outbox_publish-IsPublished_example :
    IsPublished calm roles noon 0 orders 7 8 tables (insert_message noon 0 orders 7 8 tables)
outbox_publish-IsPublished_example =
    outbox_publish-IsPublished calm roles noon 0 orders 7 8 tables
      (insert_message noon 0 orders 7 8 tables) MayPublish-outbox_publish_example

abbrev swept_tables : SweepReport × Database sample
swept_tables =
    sweep_outcome (candidate_now noon (λ i. false) orders tables) (lease_blocked noon orders tables)
      (safe_offset (participants orders tables)) orders 10 false tables

sweeps_well : sweep_one calm noon (λ i. false) orders 10 false tables ≡ ok swept_tables
unfolding sweep_one sweep_one_locked sweep_statements released text_eq text safe_offset
sweeps_well = refl

sweep_one-IsSweep_example : IsSweep noon (λ i. false) orders 10 false tables swept_tables
sweep_one-IsSweep_example =
    sweep_one-IsSweep noon (λ i. false) orders calm 10 false tables swept_tables sweeps_well

abbrev settings : Settings
settings = record {
  name = text "relay";
  outbox = orders;
  subject_template = text "tide";
  sink_name = text "nats";
  sink_type = text "nats";
  descriptor = none;
  batch_size = pos 2;
  poll_interval_ms = 1000;
  max_poll_backoff_ms = 60000;
  dry_run = false;
  dlq_config = default_dlq;
  breaker_config = default_config;
}

-- The run's view of the two messages.
abbrev two_arrived : World sample
two_arrived = record (new_world settings) {
  table = row 1 ∷ row 2 ∷ [];
  published = row 1 ∷ row 2 ∷ [];
  next_id = 3;
}

is_pipeline : IsPipelineOf settings two_arrived tables relay
unfolding rows_of reads_outbox relay_offset_of safe_offset text_eq text new_world
is_pipeline = record { table = refl; is_listed = inl refl; reads = refl; offset = refl }

sweep_one-IsRefined_example : IsRefined settings two_arrived tables relay swept_tables
sweep_one-IsRefined_example =
    sweep_one-IsRefined settings two_arrived tables relay calm noon (λ i. false) 10 false
      swept_tables is_pipeline sweeps_well

commit_offset-refines_example :
    committed
      (text "audit")
      (text "one")
      (or_abort (commit_offset calm noon (text "audit") (text "one") (pos 5) tables) tables).offsets
    ≡ commit_register true
        (text "audit")
        (text "one")
        (pos 5)
        (λ h d. committed h d tables.offsets)
        (text "audit")
        (text "one")
unfolding text_eq text
commit_offset-refines_example =
    commit_offset-refines calm noon (text "audit") (text "one") (pos 5) tables (λ i. refl)
      (text "audit") (text "one")

tables-IsConsistent : IsConsistent tables
unfolding text_eq text
tables-IsConsistent = record {
  messages = (refl, (refl, tt));
  groups = (refl, tt);
  publishers = (refl, tt);
  offsets = (refl, tt);
  leases = tt;
  in_order = (omega arith, (omega arith, omega arith));
}

abbrev some_calls : List (Faults sample × Clock sample × Call sample)
some_calls =
    (calm, noon, publishes roles 0 orders 7 8)
    ∷ (calm, noon, commits (text "audit") (text "one") (pos 3))
    ∷ (calm, noon, sweeps none (λ i. calm) (λ i. false) (λ names. names) none (pos 10) false)
    ∷ (calm, noon, drops orders false)
    ∷ []

run_calls-IsConsistent_example : IsConsistent (run_calls some_calls tables)
run_calls-IsConsistent_example = run_calls-IsConsistent some_calls tables tables-IsConsistent
