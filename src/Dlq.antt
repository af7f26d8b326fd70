-- ===== src/Dlq.antt =====
-- pg-tide-relay/src/dlq.rs: dead-letter entries and their transactional insert. The table holds its
-- rows in the order of insertion; its unique index is on the pipeline and the deduplication key of
-- the entries that are not resolved. Which statements fail, and with what, is an argument.
pub mod Additions
pub mod Insert
mod Examples
use pg_tide.Prelude.{
  ℕ, ◌+◌, ◌-◌, ◌%◌, ltb, Bool, true, false, Option, none, some, List, [], ◌∷◌, ◌++◌, ◌&&◌, ◌||◌,
  not, if◌then◌else◌, unwrap_or, and_then,
}
use pg_tide.Prelude.Int.{ℤ, pos, negsuc}
use pg_tide.Prelude.Text.{Text, text, text_eq}
use pg_tide.Foreign.{Foreign, as_u32}
use pg_tide.Errors.{RelayError, Result, ok, err, postgres, other}
use pg_tide.Envelope.{RelayMessage}

pub data ErrorKind : Type 0 where
  decode sink_permanent inbox_permanent max_retries_exceeded : ErrorKind

pub record DlqEntry (F : Foreign) : Type 0 where
  pub relay_mode : Text
  pub pipeline_name : Text
  pub source_name : Text
  pub sink_name : Text
  pub dedup_key : Text
  pub subject : Option Text
  pub payload : F.Value
  pub error_message : Text
  pub error_kind : ErrorKind

module _ {F : Foreign} where
  -- `DlqEntry::from_message`.
  unfoldable pub from_message :
      Text → Text → Text → Text → RelayMessage F → Text → ErrorKind → DlqEntry F
  from_message relay_mode pipeline_name source_name sink_name msg error kind = record {
    relay_mode = relay_mode;
    pipeline_name = pipeline_name;
    source_name = source_name;
    sink_name = sink_name;
    dedup_key = msg.dedup_key;
    subject = some msg.subject;
    payload = msg.payload;
    error_message = error;
    error_kind = kind;
  }

pub record DlqRow (F : Foreign) : Type 0 where
  pub entry : DlqEntry F
  pub resolved : Bool

-- The outcome of a COMMIT: an error can come before it took effect or after.
pub data Commit (F : Foreign) : Type 0 where
  committed : Commit F
  lost_before lost_after : F.Error → Commit F

-- What the database answers to the statements of one insert; the entries are numbered from 0.
pub record InsertFaults (F : Foreign) : Type 0 where
  pub begin_fault : Option F.Error
  pub insert_fault : ℕ → Option F.Error
  pub rollback_fault : Option F.Error
  pub commit : Commit F

module _ {F : Foreign} where
  -- Whether the unique index has the key of the entry.
  abbrev pub same_key : DlqEntry F → DlqRow F → Bool
  same_key e r =
      not r.resolved
      && (text_eq r.entry.pipeline_name e.pipeline_name && text_eq r.entry.dedup_key e.dedup_key)

  unfoldable pub has_key : DlqEntry F → List (DlqRow F) → Bool
  has_key e [] = false
  has_key e (r ∷ rs) = same_key e r || has_key e rs

  -- `insert_one`, `ON CONFLICT DO NOTHING`.
  unfoldable pub insert_one : DlqEntry F → List (DlqRow F) → List (DlqRow F)
  insert_one e table =
      if has_key e table then table else table ++ record { entry = e; resolved = false } ∷ []

  -- The loop inside the transaction; `err` carries the error of the first insert that fails.
  unfoldable pub insert_all :
      (ℕ → Option F.Error) → ℕ → List (DlqEntry F) → List (DlqRow F) → Result F (List (DlqRow F))
  insert_all fault i [] table = ok table
  insert_all fault i (e ∷ es) table = elim (fault i) [
    | some error ↦ err (postgres error)
    | none ↦ insert_all fault (i + 1) es (insert_one e table)
  ]

  abbrev pub finish_commit :
      Commit F → List (DlqRow F) → List (DlqRow F) → Result F (Unit {0}) × List (DlqRow F)
  finish_commit committed old new = (ok tt, new)
  finish_commit (lost_before e) old new = (err (postgres e), old)
  finish_commit (lost_after e) old new = (err (postgres e), new)

  -- After a failed insert: ROLLBACK, which discards the transaction whether or not it is answered.
  abbrev pub rolled_back : (RelayError F → Text) → Option F.Error → RelayError F → RelayError F
  rolled_back display none e = e
  rolled_back display (some r) e = other (
      text "DLQ insert failed: " ++ display e ++ text "; rollback failed: " ++ display (postgres r))

  abbrev pub close_transaction :
      (RelayError F → Text)
      → InsertFaults F
      → List (DlqRow F)
      → Result F (List (DlqRow F))
      → Result F (Unit {0}) × List (DlqRow F)
  close_transaction display faults old (ok new) = finish_commit faults.commit old new
  close_transaction display faults old (err e) =
      (err (rolled_back display faults.rollback_fault e), old)

  -- `insert_batch`; `display` is the text of an error.
  unfoldable pub insert_batch :
      (RelayError F → Text)
      → InsertFaults F
      → List (DlqEntry F)
      → List (DlqRow F)
      → Result F (Unit {0}) × List (DlqRow F)
  unfolding insert_all
  insert_batch display faults [] table = (ok tt, table)
  insert_batch display faults (e ∷ es) table = elim faults.begin_fault [
    | some error ↦ (err (postgres error), table)
    | none ↦
        close_transaction display faults table (insert_all faults.insert_fault 0 (e ∷ es) table)
  ]

pub record DlqConfig : Type 0 where
  pub enabled : Bool
  pub max_retries : ℕ  -- u32
  pub retry_delay_seconds : ℕ  -- u64
  pub retention_days : ℤ  -- i32

-- `DlqConfig::default`.
abbrev pub default_dlq : DlqConfig
default_dlq = record {
  enabled = false;
  max_retries = 5;
  retry_delay_seconds = 60;
  retention_days = pos 30;
}

-- An `as i32` cast keeps the low 32 bits, read in two's complement.
low_u32 : ℤ → ℕ
low_u32 (pos n) = n % 4294967296
low_u32 (negsuc n) = 4294967295 - n % 4294967296

as_i32 : ℤ → ℤ
unfolding low_u32
as_i32 i = if ltb (low_u32 i) 2147483648 then pos (low_u32 i) else negsuc (4294967295 - low_u32 i)

module _ (F : Foreign) where
  open F use {Value, get, as_bool, as_u64, as_i64}

  -- `DlqConfig::from_pipeline_config`.
  unfoldable pub dlq_from_pipeline : Value → DlqConfig
  unfolding as_i32
  dlq_from_pipeline config = elim (get config "dlq") [
    | none ↦ default_dlq
    | some dlq ↦ record {
      enabled = unwrap_or (and_then (get dlq "enabled") as_bool) false;
      max_retries = as_u32 (unwrap_or (and_then (get dlq "max_retries") as_u64) 5);
      retry_delay_seconds = unwrap_or (and_then (get dlq "retry_delay_seconds") as_u64) 60;
      retention_days = as_i32 (unwrap_or (and_then (get dlq "retention_days") as_i64) (pos 30));
    }
  ]
