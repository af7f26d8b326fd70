-- ===== src/Extension/Calls.antt =====
-- Sequences of calls of the extension's functions on outboxes, each in a transaction of its own.
pub mod Tables
pub mod Consistency
pub mod Outboxes
pub mod Grouping
pub mod Preservation
use pg_tide.Prelude.{ℕ, Bool, Option, List, [], ◌∷◌}
use pg_tide.Prelude.Int.{ℤ}
use pg_tide.Prelude.Text.{Text}
use pg_tide.Foreign.{Foreign}
use pg_tide.Extension.Database.{Database, Faults, Clock, or_abort}
use pg_tide.Extension.Outboxes.{
  outbox_create, outbox_create_if_not_exists, outbox_drop, outbox_disable, outbox_enable,
}
use pg_tide.Extension.Publish.{Roles, outbox_publish}
use pg_tide.Extension.Groups.{
  create_consumer_group, drop_consumer_group, commit_offset, consumer_heartbeat,
  outbox_grant_publish, outbox_revoke_publish,
}
use pg_tide.Extension.Sweep.Rounds.{outbox_sweep}

pub data Call (F : Foreign) : Type 0 where
  creates : Text → ℤ → ℤ → Text → Call F
  creates_if_not_exists : Text → ℤ → ℤ → Text → Call F
  drops : Text → Bool → Call F
  disables enables : Text → Call F
  publishes : Roles → ℕ → Text → F.Value → F.Value → Call F
  creates_group : Text → Text → Text → Bool → Call F
  drops_group : Text → Bool → Call F
  commits : Text → Text → ℤ → Call F
  beats : Text → Text → Call F
  grants revokes : Text → Text → Call F
  -- With the rows that others lock, and the order of the names.
  sweeps :
      Option F.Error
      → (ℕ → Faults F)
      → (ℕ → Bool)
      → (List Text → List Text)
      → Option Text
      → ℤ
      → Bool
      → Call F

module _ {F : Foreign} where
  unfoldable pub call : Faults F → Clock F → Call F → Database F → Database F
  call faults clock (creates name hours threshold strategy) db =
      or_abort (outbox_create faults name hours threshold strategy db) db
  call faults clock (creates_if_not_exists name hours threshold strategy) db =
      or_abort (outbox_create_if_not_exists faults name hours threshold strategy db) db
  call faults clock (drops name if_exists) db = or_abort (outbox_drop faults name if_exists db) db
  call faults clock (disables name) db = or_abort (outbox_disable faults name db) db
  call faults clock (enables name) db = or_abort (outbox_enable faults name db) db
  call faults clock (publishes roles gap name payload headers) db =
      or_abort (outbox_publish faults roles clock gap name payload headers db) db
  call faults clock (creates_group name outbox reset if_not_exists) db =
      or_abort (create_consumer_group faults name outbox reset if_not_exists db) db
  call faults clock (drops_group name if_exists) db =
      or_abort (drop_consumer_group faults name if_exists db) db
  call faults clock (commits group consumer offset) db =
      or_abort (commit_offset faults clock group consumer offset db) db
  call faults clock (beats group consumer) db =
      or_abort (consumer_heartbeat faults clock group consumer db) db
  call faults clock (grants outbox role) db =
      or_abort (outbox_grant_publish faults outbox role db) db
  call faults clock (revokes outbox role) db =
      or_abort (outbox_revoke_publish faults outbox role db) db
  call faults clock (sweeps fault each locked in_order name batch dry_run) db =
      or_abort (outbox_sweep fault each clock locked in_order name batch dry_run db) db

  -- Calls one after the other, each with its faults and its time.
  unfoldable pub run_calls : List (Faults F × Clock F × Call F) → Database F → Database F
  unfolding call
  run_calls [] db = db
  run_calls ((faults, clock, c) ∷ rest) db = run_calls rest (call faults clock c db)

  -- The tables of a new installation.
  unfoldable pub new_database : Database F
  new_database = record {
    outboxes = [];
    messages = [];
    next_id = 1;
    cleanups = [];
    groups = [];
    offsets = [];
    leases = [];
    publishers = [];
    pipelines = [];
    reverse_pipelines = [];
    relay_offsets = [];
  }
