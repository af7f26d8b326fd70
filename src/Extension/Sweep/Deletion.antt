-- ===== src/Extension/Sweep/Deletion.antt =====
-- What a sweep deletes, and what it may not.
use pg_tide.Prelude.{
  Occurs, ℕ, ◌+◌, ◌≤◌, ◌≡◌, ◌⊎◌, refl, sym, subst, Bool, true, false, List, [], ◌∷◌, ◌++◌, arith,
  All, inl, inr, length, filter, length-take,
}
use mathlib.Core.List.{append_assoc}
use pg_tide.Prelude.Int.{ℤ, pos, ◌≤ℤ◌}
use pg_tide.Prelude.Text.{Text, text_eq}
use pg_tide.Foreign.{Foreign}
use pg_tide.Extension.Failures.{ok, run_spi, ◌>>=◌, >>=-eq-ok, >>-eq-ok}
use pg_tide.Extension.Database.{Message, Database, Faults, Clock}
use pg_tide.Extension.Candidates.{safe_offset, is_below}
use pg_tide.Extension.Candidates.Removal.{
  delete_first-Occurs, Occurs-delete_first, length-delete_first, and_left, and_right,
}
use pg_tide.Worker.Runs.Sweeps.{safe_offset_below}
use pg_tide.Extension.Sweep.{
  SweepReport, participants, lease_blocked, retention_of, is_ready, is_candidate, swept,
  delete_swept, sweep_outcome, candidate_now, sweep_statements, sweep_one_locked, sweep_one,
}

-- A row that is below the least of some offsets is below all.
below_each :
    (before after : List ℤ) (id : ℤ)
    → is_below (safe_offset (before ++ after)) id ≡ true
    → All (λ o. id ≤ℤ o) after
below_each before [] id h = tt
below_each before (o ∷ after) id h = (
  safe_offset_below before o after id h,
  below_each (before ++ o ∷ []) after id (
      subst (λ os. is_below (safe_offset os) id ≡ true) (sym (append_assoc before (o ∷ []) after))
        h),
)

-- A sweep that returns has the outcome of one in which no statement fails.
pub sweep_one-outcome :
    {F : Foreign} (faults : Faults F) (clock : Clock F) (locked : ℕ → Bool) (name : Text)
    (batch : ℕ) (dry_run : Bool) (db : Database F) (r : SweepReport × Database F)
    → sweep_one faults clock locked name batch dry_run db ≡ ok r
    → sweep_outcome
        (candidate_now clock locked name db)
        (lease_blocked clock name db)
        (safe_offset (participants name db))
        name
        batch
        dry_run
        db
      ≡ r
unfolding sweep_one sweep_one_locked pg_tide.Extension.Sweep.released
sweep_one-outcome {F = F} faults clock locked name batch dry_run db r h =
    let locked_now = sweep_one_locked faults clock locked name batch dry_run db in
    let swept_then = >>-eq-ok (run_spi F (faults.fault 1) _) (locked_now >>= _) h in
    let (done, e, unlocked) = >>=-eq-ok locked_now _ swept_then in
    let same = >>-eq-ok (run_spi F (faults.fault 6) _) (ok done) unlocked in
    cc (>>-eq-ok (sweep_statements faults name _ _ dry_run) (ok _) e, same)

module _ {F : Foreign} (clock : Clock F) (locked : ℕ → Bool) (name : Text) where
  -- What must hold of a message for a sweep to delete it: it is one of the outbox, expired and not
  -- locked, no lease is held on the outbox, and every reader has passed it.
  pub record MayGo (db : Database F) (m : Message F) : Type 0 where
    pub of_outbox : text_eq name m.outbox ≡ true
    pub ready : is_ready clock locked (retention_of name db.outboxes) m.row ≡ true
    pub no_lease : lease_blocked clock name db ≡ false
    pub passed : All (λ o. pos m.row.id ≤ℤ o) (participants name db)

  -- The messages after a sweep, with how many it reports.
  pub record IsSwept (batch : ℕ) (db new : Database F) (affected : ℕ) : Type 0 where
    pub within_batch : affected ≤ batch
    pub counted : length new.messages + affected ≡ length db.messages
    pub stays : (m : Message F) → Occurs m db.messages → MayGo db m ⊎ Occurs m new.messages
    pub invents_none : (m : Message F) → Occurs m new.messages → Occurs m db.messages

  unchanged-IsSwept : (batch : ℕ) (db : Database F) → IsSwept batch db db 0
  unchanged-IsSwept batch db = record {
    within_batch = omega arith;
    counted = omega arith;
    stays = λ m o. inr o;
    invents_none = λ m o. o;
  }

  delete_swept-IsSwept :
      (batch : ℕ) (db : Database F) (blocked : Bool)
      → lease_blocked clock name db ≡ blocked
      → (let candidate = candidate_now clock locked name db in
          IsSwept batch db
            (delete_swept candidate blocked (safe_offset (participants name db)) name batch db)
            (length (swept candidate blocked batch db.messages)))
  unfolding delete_swept swept candidate_now
  delete_swept-IsSwept batch db true e = record {
    within_batch = omega arith;
    counted = omega arith;
    stays = λ m o. inr o;
    invents_none = λ m o. o;
  }
  delete_swept-IsSwept batch db false e =
      let ready = is_ready clock locked (retention_of name db.outboxes) in
      let safe = safe_offset (participants name db) in
      let candidate : Message F → Bool = is_candidate ready safe name in
      record {
        within_batch = length-take batch (filter candidate db.messages);
        counted = length-delete_first batch candidate db.messages;
        stays = λ m o. elim (delete_first-Occurs batch candidate db.messages m o) [
          | inl hit ↦
              let rest = and_right (text_eq name m.outbox) _ hit in
              inl (record {
                of_outbox = and_left (text_eq name m.outbox) _ hit;
                ready = and_left (ready m.row) _ rest;
                no_lease = e;
                passed =
                    below_each [] (participants name db) (pos m.row.id)
                      (and_right (ready m.row) _ rest);
              })
          | inr here ↦ inr here
        ];
        invents_none = Occurs-delete_first batch candidate db.messages;
      }

  -- What the outcome of a sweep is, on either branch.
  abbrev pub IsSweep : ℕ → Bool → Database F → SweepReport × Database F → Type 0
  IsSweep batch dry_run db r = IsSwept batch db r.1 r.0.affected_rows × (dry_run ≡ true → r.1 ≡ db)

  sweep_outcome-IsSweep :
      (batch : ℕ) (dry_run : Bool) (db : Database F)
      → IsSweep batch dry_run db (
          sweep_outcome
            (candidate_now clock locked name db)
            (lease_blocked clock name db)
            (safe_offset (participants name db))
            name
            batch
            dry_run
            db)
  unfolding sweep_outcome
  sweep_outcome-IsSweep batch true db = (unchanged-IsSwept batch db, λ e. refl)
  sweep_outcome-IsSweep batch false db =
      (delete_swept-IsSwept batch db (lease_blocked clock name db) refl, λ e. cc e)

  -- A sweep that returns deletes at most a batch, and reports how many messages it deleted. Each
  -- message it deletes is one of the outbox, expired, not locked, and passed by every pipeline and
  -- every consumer group that reads the outbox; and no message goes while a lease is held on the
  -- outbox. No message appears, and a dry run changes nothing.
  pub sweep_one-IsSweep :
      (faults : Faults F) (batch : ℕ) (dry_run : Bool) (db : Database F)
      (r : SweepReport × Database F)
      → sweep_one faults clock locked name batch dry_run db ≡ ok r
      → IsSweep batch dry_run db r
  sweep_one-IsSweep faults batch dry_run db r h =
      subst (IsSweep batch dry_run db)
        (sweep_one-outcome faults clock locked name batch dry_run db r h)
        (sweep_outcome-IsSweep batch dry_run db)
