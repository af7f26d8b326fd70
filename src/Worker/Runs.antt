-- ===== src/Worker/Runs.antt =====
-- Runs of a pipeline: rows arrive in the outbox, a worker is started, by hand or after an error,
-- for live delivery or a replay, and iterates. A row becomes visible in the order of the ids, which
-- is what the outbox's advisory lock is for; a rolled-back publish leaves a gap. The extension sweeps
-- rows that have expired from the table, up to the least offset of all who read the outbox.
pub mod Sweeps
pub mod Delivery
mod Examples
use pg_tide.Prelude.{
  ℕ, ◌+◌, Bool, true, false, Option, none, some, List, [], ◌∷◌, ◌++◌, ◌&&◌, unwrap_or,
}
use pg_tide.Prelude.Int.{ℤ, pos}
use pg_tide.Foreign.{Foreign}
use pg_tide.Errors.{Result, ok, err}
use pg_tide.Source.Rows.{Row}
use pg_tide.Breaker.{new_breaker}
use pg_tide.Worker.Outcome.{ReplayRange}
use pg_tide.Worker.State.{Settings, Answers, Worker, Next, goes_on, breaks, fails_with}
use pg_tide.Worker.Loop.{iterate, start}
use pg_tide.Extension.Candidates.{safe_offset, is_below, delete_first}

pub record World (F : Foreign) : Type 0 where
  pub worker : Worker F
  pub running : Bool
  pub table : List (Row F)
  -- All rows that were ever in the table; no code reads it.
  pub published : List (Row F)
  pub next_id : ℕ

pub data Event (F : Foreign) : Type 0 where
  arrives : ℕ → F.Value → Option F.Value → Option F.DateTime → Event F
  iterates : Answers F → Event F
  starts : Option F.Error → Option ReplayRange → Event F
  -- A sweep of a batch, with which rows are expired and not locked, and the offsets of the outbox's
  -- other readers, those before the pipeline and those after it.
  sweeps : ℕ → (Row F → Bool) → List ℤ → List ℤ → Event F

module _ {F : Foreign} where
  abbrev pub is_going : Next F → Bool
  is_going goes_on = true
  is_going breaks = false
  is_going (fails_with e) = false

  -- A row gets the next value of the identity column, after a gap.
  abbrev pub insert_row : ℕ → F.Value → Option F.Value → Option F.DateTime → World F → World F
  insert_row gap payload headers created_at world =
      let row : Row F = record {
        id = world.next_id + gap;
        payload = payload;
        headers = headers;
        created_at = created_at;
      } in
      record world {
        table = world.table ++ row ∷ [];
        published = world.published ++ row ∷ [];
        next_id = world.next_id + gap + 1;
      }

  -- A pipeline without a stored offset counts as one at 0.
  abbrev pub is_swept : (Row F → Bool) → Option ℤ → Row F → Bool
  is_swept ready safe row = ready row && is_below safe (pos row.id)

  abbrev pub sweep_table : ℕ → (Row F → Bool) → List ℤ → List ℤ → World F → World F
  sweep_table n ready before after world =
      let safe = safe_offset (before ++ unwrap_or world.worker.acked.stored (pos 0) ∷ after) in
      record world { table = delete_first n (is_swept ready safe) world.table }

module _ {F : Foreign} (s : Settings) where
  abbrev pub iterated : Next F × Worker F → World F → World F
  iterated (n, w) world = record world { worker = w; running = is_going n }

  abbrev pub started : Result F (Worker F) → World F → World F
  started (ok w) world = record world { worker = w; running = true }
  started (err e) world = record world { running = false }

  abbrev pub if_running : Bool → Answers F → World F → World F
  if_running true a world = iterated (iterate s a world.table world.worker) world
  if_running false a world = world

  unfoldable pub happens : World F → Event F → World F
  happens world (arrives gap payload headers created_at) =
      insert_row gap payload headers created_at world
  happens world (iterates a) = if_running world.running a world
  happens world (starts fault replay) = started (start s fault replay world.worker) world
  happens world (sweeps n ready before after) = sweep_table n ready before after world

  unfoldable pub run : World F → List (Event F) → World F
  unfolding happens
  run world [] = world
  run world (e ∷ es) = run (happens world e) es

  -- A new pipeline on an empty outbox, before its first worker.
  unfoldable pub new_world : World F
  new_world = record {
    worker = record {
      acked = record {
        source = record {
          outbox_name = s.outbox;
          subject_template = s.subject_template;
          pipeline_id = s.name;
          last_offset = pos 0;
          pending_cc_oids = [];
          replay_mode = false;
        };
        stored = none;
        unlinked = [];
      };
      replay = none;
      breaker = new_breaker s.breaker_config;
      consecutive_failures = 0;
      poll_backoff_ms = s.poll_interval_ms;
      accepted = [];
      observed = [];
      dead = [];
      receipts = [];
    };
    running = false;
    table = [];
    published = [];
    next_id = 1;
  }
