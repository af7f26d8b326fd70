-- ===== src/Extension/Calls/Preservation.antt =====
-- Every call, sweeps included, keeps the tables consistent.
use pg_tide.Prelude.{ℕ, ◌+◌, ◌≡◌, subst, Bool, true, false, Option, List, [], ◌∷◌, ◌&&◌, leb}
use pg_tide.Prelude.Int.{ℤ, pos, negsuc}
use pg_tide.Prelude.Text.{Text}
use pg_tide.Foreign.{Foreign}
use pg_tide.Extension.Failures.{PgResult, ok, err, ◌>>=◌}
use pg_tide.Extension.Database.{Message, Database, Faults, Clock}
use pg_tide.Extension.Candidates.{safe_offset}
use pg_tide.Extension.Sweep.{
  SweepReport, participants, lease_blocked, candidate_now, delete_swept, sweep_outcome, sweep_one,
}
use pg_tide.Extension.Sweep.Deletion.{sweep_one-outcome}
use pg_tide.Extension.Sweep.Rounds.{sweep_all, sweep_names, outbox_sweep}
use pg_tide.Extension.Calls.{
  Call, creates, creates_if_not_exists, drops, disables, enables, publishes, creates_group,
  drops_group, commits, beats, grants, revokes, sweeps, call, run_calls,
}
use pg_tide.Extension.Calls.Tables.{All-delete_first, Within-delete_first}
use pg_tide.Extension.Calls.Consistency.{IsConsistent, Holds, Holds-or_abort, Holds-bind, Holds-if}
use pg_tide.Extension.Calls.Outboxes.{
  outbox_create-Holds, outbox_create_if_not_exists-Holds, outbox_drop-Holds, switch-Holds,
  outbox_publish-Holds,
}
use pg_tide.Extension.Calls.Grouping.{
  create_consumer_group-Holds, drop_consumer_group-Holds, commit_offset-Holds,
  consumer_heartbeat-Holds, outbox_grant_publish-Holds, outbox_revoke_publish-Holds,
}
use pg_tide.Extension.Outboxes.{outbox_disable, outbox_enable}

module _ {F : Foreign} where
  sweep_outcome-IsConsistent :
      (candidate : Message F → Bool) (blocked : Bool) (safe : Option ℤ) (name : Text) (batch : ℕ)
      (dry_run : Bool) (db : Database F)
      → IsConsistent db
      → IsConsistent (sweep_outcome candidate blocked safe name batch dry_run db).1
  unfolding sweep_outcome delete_swept
  sweep_outcome-IsConsistent candidate blocked safe name batch true db c = c
  sweep_outcome-IsConsistent candidate true safe name batch false db c = record {
    messages = c.messages;
    groups = c.groups;
    publishers = c.publishers;
    offsets = c.offsets;
    leases = c.leases;
    in_order = c.in_order;
  }
  sweep_outcome-IsConsistent candidate false safe name batch false db c = record {
    messages = All-delete_first _ batch candidate db.messages c.messages;
    groups = c.groups;
    publishers = c.publishers;
    offsets = c.offsets;
    leases = c.leases;
    in_order = Within-delete_first batch candidate 0 db.next_id db.messages c.in_order;
  }

  sweep_one-IsConsistent :
      (faults : Faults F) (clock : Clock F) (locked : ℕ → Bool) (name : Text) (batch : ℕ)
      (dry_run : Bool) (db : Database F) (r : SweepReport × Database F)
      → sweep_one faults clock locked name batch dry_run db ≡ ok r
      → IsConsistent db
      → IsConsistent r.1
  sweep_one-IsConsistent faults clock locked name batch dry_run db r h c =
      subst (λ (x : SweepReport × Database F). IsConsistent x.1)
        (sweep_one-outcome faults clock locked name batch dry_run db r h)
        (sweep_outcome-IsConsistent (candidate_now clock locked name db)
          (lease_blocked clock name db) (safe_offset (participants name db)) name batch dry_run db
          c)

  sweep_all-Holds :
      (faults : ℕ → Faults F) (clock : Clock F) (locked : ℕ → Bool) (names : List Text) (batch : ℕ)
      (dry_run : Bool) (db : Database F)
      → IsConsistent db
      → Holds IsConsistent (sweep_all faults clock locked names batch dry_run db)
  unfolding sweep_all
  sweep_all-Holds faults clock locked [] batch dry_run db c = c
  sweep_all-Holds faults clock locked (name ∷ names) batch dry_run db c =
      Holds-bind IsConsistent (sweep_one (faults 0) clock locked name batch dry_run db) _
        (λ first e.
          Holds-last (sweep_all (λ i. faults (i + 1)) clock locked names batch dry_run first.1)
            first.0
            (sweep_all-Holds (λ i. faults (i + 1)) clock locked names batch dry_run first.1
              (sweep_one-IsConsistent (faults 0) clock locked name batch dry_run db first e c)))
    where
      Holds-last :
          (r : PgResult (List SweepReport × Database F)) (report : SweepReport)
          → Holds IsConsistent r
          → Holds IsConsistent (r >>= λ (x : List SweepReport × Database F). ok (report ∷ x.0, x.1))
      Holds-last (ok x) report h = h
      Holds-last (err e) report h = tt

  outbox_sweep-Holds :
      (fault : Option F.Error) (faults : ℕ → Faults F) (clock : Clock F) (locked : ℕ → Bool)
      (in_order : List Text → List Text) (name : Option Text) (batch : ℤ) (dry_run : Bool)
      (db : Database F)
      → IsConsistent db
      → Holds IsConsistent (outbox_sweep fault faults clock locked in_order name batch dry_run db)
  unfolding outbox_sweep pg_tide.Extension.Sweep.Rounds.bad_batch
  outbox_sweep-Holds fault faults clock locked in_order name (negsuc n) dry_run db c = tt
  outbox_sweep-Holds fault faults clock locked in_order name (pos n) dry_run db c =
      Holds-if IsConsistent (leb 1 n && leb n 10000) _ _
        (λ fine.
          Holds-bind IsConsistent (sweep_names fault in_order name db) _
            (λ names e. sweep_all-Holds faults clock locked names n dry_run db c))
        (λ wrong. tt)

  call-IsConsistent :
      (faults : Faults F) (clock : Clock F) (c : Call F) (db : Database F)
      → IsConsistent db
      → IsConsistent (call faults clock c db)
  unfolding call outbox_disable outbox_enable
  call-IsConsistent faults clock (creates name hours threshold strategy) db h =
      Holds-or_abort IsConsistent _ db
        (outbox_create-Holds faults name hours threshold strategy db h) h
  call-IsConsistent faults clock (creates_if_not_exists name hours threshold strategy) db h =
      Holds-or_abort IsConsistent _ db
        (outbox_create_if_not_exists-Holds faults name hours threshold strategy db h) h
  call-IsConsistent faults clock (drops name if_exists) db h =
      Holds-or_abort IsConsistent _ db (outbox_drop-Holds faults name if_exists db h) h
  call-IsConsistent faults clock (disables name) db h =
      Holds-or_abort IsConsistent _ db (switch-Holds (faults.fault 0) name false _ db h) h
  call-IsConsistent faults clock (enables name) db h =
      Holds-or_abort IsConsistent _ db (switch-Holds (faults.fault 0) name true _ db h) h
  call-IsConsistent faults clock (publishes roles gap name payload headers) db h =
      Holds-or_abort IsConsistent _ db
        (outbox_publish-Holds faults roles clock gap name payload headers db h) h
  call-IsConsistent faults clock (creates_group name outbox reset if_not_exists) db h =
      Holds-or_abort IsConsistent _ db
        (create_consumer_group-Holds faults name outbox reset if_not_exists db h) h
  call-IsConsistent faults clock (drops_group name if_exists) db h =
      Holds-or_abort IsConsistent _ db (drop_consumer_group-Holds faults name if_exists db h) h
  call-IsConsistent faults clock (commits group consumer offset) db h =
      Holds-or_abort IsConsistent _ db (commit_offset-Holds faults clock group consumer offset db h)
        h
  call-IsConsistent faults clock (beats group consumer) db h =
      Holds-or_abort IsConsistent _ db (consumer_heartbeat-Holds faults clock group consumer db h) h
  call-IsConsistent faults clock (grants outbox role) db h =
      Holds-or_abort IsConsistent _ db (outbox_grant_publish-Holds faults outbox role db h) h
  call-IsConsistent faults clock (revokes outbox role) db h =
      Holds-or_abort IsConsistent _ db (outbox_revoke_publish-Holds faults outbox role db h) h
  call-IsConsistent faults clock (sweeps fault each locked in_order name batch dry_run) db h =
      Holds-or_abort IsConsistent _ db
        (outbox_sweep-Holds fault each clock locked in_order name batch dry_run db h) h

  -- The tables stay consistent. Whatever calls follow one another on consistent tables, each with
  -- whatever statements failing, no message, group or publisher is left of an outbox that is gone,
  -- no offset of a group that is gone, no lease of an offset that is gone; and the messages stay in
  -- the order of their ids, below the next one.
  pub run_calls-IsConsistent :
      (calls : List (Faults F × Clock F × Call F)) (db : Database F)
      → IsConsistent db
      → IsConsistent (run_calls calls db)
  unfolding run_calls
  run_calls-IsConsistent [] db h = h
  run_calls-IsConsistent ((faults, clock, c) ∷ rest) db h =
      run_calls-IsConsistent rest (call faults clock c db) (call-IsConsistent faults clock c db h)
