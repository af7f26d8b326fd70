-- ===== src/Extension/Database.antt =====
-- The tables that the extension's functions read and write (the columns that they use), and what
-- PostgreSQL answers to them.
use pg_tide.Prelude.{ℕ, Bool, Option, List, ◌&&◌}
use pg_tide.Prelude.Int.{ℤ}
use pg_tide.Prelude.Text.{Text, text_eq}
use pg_tide.Foreign.{Foreign}
use pg_tide.Source.Rows.{Row}
use pg_tide.Extension.Failures.{PgResult, ok, err}

-- `tide.tide_outbox_config`.
pub record Outbox : Type 0 where
  pub name : Text
  pub retention_hours : ℤ
  pub inline_threshold : ℤ
  pub partition_strategy : Text
  pub enabled : Bool

-- `tide.tide_outbox_messages`.
pub record Message (F : Foreign) : Type 0 where
  pub outbox : Text
  pub row : Row F

-- `tide.outbox_cleanup_state`, without its times.
pub record Cleanup : Type 0 where
  pub outbox : Text
  pub last_safe_offset : Option ℤ
  pub highest_deleted_id : ℤ
  pub last_batch_rows : ℕ
  pub total_rows_deleted : ℕ

-- `tide.tide_consumer_groups`.
pub record Group : Type 0 where
  pub name : Text
  pub outbox : Text
  pub auto_offset_reset : Text

-- `tide.tide_consumer_offsets`.
pub record ConsumerOffset (F : Foreign) : Type 0 where
  pub group : Text
  pub consumer : Text
  pub committed_offset : ℤ
  pub last_heartbeat : F.DateTime

-- `tide.tide_consumer_leases`.
pub record Lease (F : Foreign) : Type 0 where
  pub group : Text
  pub consumer : Text
  pub expires_at : F.DateTime

-- `tide.outbox_publishers`.
pub record Publisher : Type 0 where
  pub outbox : Text
  pub role : Text

-- `tide.relay_outbox_config`, with what its JSON has under `source.outbox`, `source_type`,
-- `sink_type`, `wire_format`, `batch_size` and `sink`.
pub record Pipeline (F : Foreign) : Type 0 where
  pub name : Text
  pub enabled : Bool
  pub source_outbox : Option Text
  pub source_type : Option Text
  pub sink_type : Option Text
  pub wire_format : Option Text
  pub batch_size : Option ℤ
  pub sink : Option F.Value

-- `tide.relay_inbox_config`.
pub record ReversePipeline : Type 0 where
  pub name : Text
  pub enabled : Bool

-- `tide.relay_consumer_offsets`.
pub record RelayOffset : Type 0 where
  pub relay_group : Text
  pub pipeline : Text
  pub outbox : Text
  pub last_change_id : ℤ

pub record Database (F : Foreign) : Type 0 where
  pub outboxes : List Outbox
  pub messages : List (Message F)
  -- The next value of the identity column of the messages.
  pub next_id : ℕ
  pub cleanups : List Cleanup
  pub groups : List Group
  pub offsets : List (ConsumerOffset F)
  pub leases : List (Lease F)
  pub publishers : List Publisher
  pub pipelines : List (Pipeline F)
  pub reverse_pipelines : List ReversePipeline
  pub relay_offsets : List RelayOffset

-- Which statements of a call fail, counted in the order of the source, and the errors of the
-- constraints.
pub record Faults (F : Foreign) : Type 0 where
  pub fault : ℕ → Option F.Error
  pub duplicate_key : F.Error
  pub missing_key : F.Error

-- `now()` and the comparisons with it.
pub record Clock (F : Foreign) : Type 0 where
  pub now : F.DateTime
  pub is_after_now : F.DateTime → Bool
  -- `created_at < now() - make_interval(hours => …)`.
  pub is_expired : ℤ → F.DateTime → Bool

abbrev pub is_outbox : Text → Outbox → Bool
is_outbox n o = text_eq n o.name

abbrev pub is_group : Text → Group → Bool
is_group n g = text_eq n g.name

module _ {F : Foreign} where
  abbrev pub is_offset_of : Text → Text → ConsumerOffset F → Bool
  is_offset_of g c o = text_eq g o.group && text_eq c o.consumer

  abbrev pub is_lease_of : Text → Text → Lease F → Bool
  is_lease_of g c l = text_eq g l.group && text_eq c l.consumer

  -- An error of a call aborts the transaction: `pgrx::error!`.
  abbrev pub or_abort {ℓ} : {A : Type ℓ} → PgResult (A × Database F) → Database F → Database F
  or_abort (ok (a, new)) old = new
  or_abort (err e) old = old
