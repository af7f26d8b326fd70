-- ===== src/Extension/Sweep.antt =====
-- pg-tide-ext/src/outbox.rs, `outbox_sweep`: the deletion of expired messages that every reader of
-- the outbox has passed.
pub mod Rounds
pub mod Deletion
pub mod Refinement
use pg_tide.Prelude.{
  ℕ, ◌+◌, Bool, false, not, Option, none, some, List, [], ◌∷◌, ◌++◌, map, ◌&&◌, ◌||◌, any, filter,
  take, length, ltb, if◌then◌else◌, unwrap_or, get_last?, is_empty,
}
use pg_tide.Prelude.Int.{ℤ, pos, negsuc, max_ℤ}
use pg_tide.Prelude.Text.{Text, text, text_eq}
use pg_tide.Foreign.{Foreign}
use pg_tide.Source.Rows.{Row}
use pg_tide.Extension.Failures.{
  PgResult, ok, err, ◌>>=◌, ◌>>◌, run_spi, invalid_argument, outbox_not_found, sweep_failed,
}
use pg_tide.Extension.Database.{
  Outbox, Message, Cleanup, Group, ConsumerOffset, Pipeline, RelayOffset, Database, Faults, Clock,
  is_outbox,
}
use pg_tide.Extension.Outboxes.{outbox_exists}
use pg_tide.Extension.Candidates.{safe_offset, is_below, delete_first}

abbrev pub is_text : Text → Option Text → Bool
is_text t none = false
is_text t (some u) = text_eq t u

-- `COALESCE(MIN(…), 0)`.
abbrev pub least_or_zero : List ℤ → ℤ
least_or_zero offsets = unwrap_or (safe_offset offsets) (pos 0)

-- What a sweep reports, as far as its JSON is decided by the tables.
pub record SweepReport : Type 0 where
  pub outbox : Text
  pub safe : Option ℤ
  pub is_lease_blocked : Bool
  pub eligible_in_batch : ℕ
  pub affected_rows : ℕ
  pub has_more : Bool
  pub highest_deleted_id : Option ℤ

-- `ON CONFLICT (outbox_name) DO UPDATE`.
abbrev pub record_cleanup : Option ℤ → Option ℤ → ℕ → Cleanup → Cleanup
record_cleanup safe highest affected c = record c {
  last_safe_offset = safe;
  highest_deleted_id = max_ℤ c.highest_deleted_id (unwrap_or highest (pos 0));
  last_batch_rows = affected;
  total_rows_deleted = c.total_rows_deleted + affected;
}

unfoldable pub upsert_cleanup : Text → Option ℤ → Option ℤ → ℕ → List Cleanup → List Cleanup
upsert_cleanup name safe highest affected [] =
    record {
      outbox = name;
      last_safe_offset = safe;
      highest_deleted_id = unwrap_or highest (pos 0);
      last_batch_rows = affected;
      total_rows_deleted = affected;
    }
    ∷ []
upsert_cleanup name safe highest affected (c ∷ cs) =
    let rest = upsert_cleanup name safe highest affected cs in
    if text_eq name c.outbox then record_cleanup safe highest affected c ∷ cs else c ∷ rest

unfoldable pub retention_of : Text → List Outbox → ℤ
retention_of name [] = pos 24
retention_of name (o ∷ os) =
    let rest = retention_of name os in if is_outbox name o then o.retention_hours else rest

abbrev pub failed : (F : Foreign) → Option F.Error → Text → Text → PgResult (Unit {0})
failed F none name context = ok tt
failed F (some e) name context = err (sweep_failed name (context ++ F.error_text e))

module _ {F : Foreign} where
  -- `relay_participants`: the pipelines that read the outbox, enabled or not.
  unfoldable pub reads_outbox : Text → Pipeline F → Bool
  reads_outbox name p = is_text name p.source_outbox && is_text (text "outbox") p.source_type

  unfoldable pub relay_offset_of : Text → List RelayOffset → Pipeline F → ℤ
  relay_offset_of name relay_offsets p = least_or_zero (
      map (λ (o : RelayOffset). o.last_change_id)
        (filter (λ o. text_eq o.pipeline p.name && text_eq o.outbox name) relay_offsets))

  -- `group_participants`.
  unfoldable pub group_offset_of : List (ConsumerOffset F) → Group → ℤ
  group_offset_of offsets g = least_or_zero (
      map (λ (o : ConsumerOffset F). o.committed_offset)
        (filter (λ o. text_eq o.group g.name) offsets))

  -- `all_participants`, by their offsets.
  unfoldable pub participants : Text → Database F → List ℤ
  unfolding reads_outbox relay_offset_of group_offset_of
  participants name db =
      map (relay_offset_of name db.relay_offsets) (filter (reads_outbox name) db.pipelines)
      ++ map (group_offset_of db.offsets) (filter (λ g. text_eq name g.outbox) db.groups)

  -- A lease on the outbox that has not run out.
  unfoldable pub lease_blocked : Clock F → Text → Database F → Bool
  lease_blocked clock name db =
      any
        (λ l.
          clock.is_after_now l.expires_at
          && any (λ g. text_eq name g.outbox && text_eq l.group g.name) db.groups)
        db.leases

  -- `created_at < …`, NULL when there is no time.
  abbrev pub is_expired_at : Clock F → ℤ → Option F.DateTime → Bool
  is_expired_at clock hours none = false
  is_expired_at clock hours (some t) = clock.is_expired hours t

  -- A row that is expired and that no other transaction has locked.
  abbrev pub is_ready : Clock F → (ℕ → Bool) → ℤ → Row F → Bool
  is_ready clock locked hours row = is_expired_at clock hours row.created_at && not (locked row.id)

  abbrev pub is_candidate : (Row F → Bool) → Option ℤ → Text → Message F → Bool
  is_candidate ready safe name m =
      text_eq name m.outbox && (ready m.row && is_below safe (pos m.row.id))

  abbrev pub ids_of : List (Message F) → List ℤ
  ids_of = map (λ (m : Message F). pos m.row.id)

  -- The messages that the sweep of a batch deletes.
  unfoldable pub swept : (Message F → Bool) → Bool → ℕ → List (Message F) → List (Message F)
  swept candidate blocked batch messages =
      if blocked then [] else take batch (filter candidate messages)

  -- The deletion, unless there is nothing to delete, and the record of it.
  unfoldable pub delete_swept :
      (Message F → Bool) → Bool → Option ℤ → Text → ℕ → Database F → Database F
  unfolding swept
  delete_swept candidate blocked safe name batch db =
      let gone = swept candidate blocked batch db.messages in
      record db {
        messages = if blocked then db.messages else delete_first batch candidate db.messages;
        cleanups = upsert_cleanup name safe (get_last? (ids_of gone)) (length gone) db.cleanups;
      }

  -- The statements of a sweep, of which some are left out: no candidates are selected under a
  -- lease, and a dry run deletes and records nothing.
  unfoldable pub sweep_statements : Faults F → Text → Bool → Bool → Bool → PgResult (Unit {0})
  sweep_statements faults name blocked nothing dry_run =
      failed F (faults.fault 2) name (text "resolve retention participants: ")
      >> failed F (if blocked then none else faults.fault 3) name (text "select candidates: ")
      >> failed F (if dry_run || nothing then none else faults.fault 4) name
          (text "delete candidates: ")
      >> failed F (if dry_run then none else faults.fault 5) name (text "record cleanup state: ")

  -- The report and the tables, when no statement fails.
  unfoldable pub sweep_outcome :
      (Message F → Bool) → Bool → Option ℤ → Text → ℕ → Bool → Database F → SweepReport × Database F
  unfolding swept delete_swept
  sweep_outcome candidate blocked safe name batch dry_run db =
      let gone = swept candidate blocked batch db.messages in
      let more = ltb batch (length (filter candidate db.messages)) in
      (
        record {
          outbox = name;
          safe = safe;
          is_lease_blocked = blocked;
          eligible_in_batch = length gone;
          affected_rows = if dry_run then 0 else length gone;
          has_more = not blocked && more;
          highest_deleted_id = if dry_run then none else get_last? (ids_of gone);
        },
        if dry_run then db else delete_swept candidate blocked safe name batch db,
      )

  -- The messages that a sweep may delete now.
  unfoldable pub candidate_now : Clock F → (ℕ → Bool) → Text → Database F → Message F → Bool
  unfolding participants retention_of
  candidate_now clock locked name db =
      is_candidate (is_ready clock locked (retention_of name db.outboxes))
        (safe_offset (participants name db)) name

  unfoldable pub sweep_one_locked :
      Faults F
      → Clock F
      → (ℕ → Bool)
      → Text
      → ℕ
      → Bool
      → Database F
      → PgResult (SweepReport × Database F)
  unfolding participants lease_blocked swept candidate_now sweep_statements sweep_outcome
  sweep_one_locked faults clock locked name batch dry_run db =
      let blocked = lease_blocked clock name db in
      let candidate = candidate_now clock locked name db in
      let nothing = is_empty (swept candidate blocked batch db.messages) in
      sweep_statements faults name blocked nothing dry_run
      >> ok (
          sweep_outcome candidate blocked (safe_offset (participants name db)) name batch dry_run
            db)

  unfoldable pub released :
      Option F.Error → Text → SweepReport × Database F → PgResult (SweepReport × Database F)
  released fault name done =
      run_spi F fault (text "release outbox fence for '" ++ name ++ text "': ") >> ok done

  -- The session's lock round the sweep; a failure of the sweep comes before one of the unlock.
  unfoldable pub sweep_one :
      Faults F
      → Clock F
      → (ℕ → Bool)
      → Text
      → ℕ
      → Bool
      → Database F
      → PgResult (SweepReport × Database F)
  unfolding sweep_one_locked released
  sweep_one faults clock locked name batch dry_run db =
      run_spi F (faults.fault 1) (text "outbox maintenance fence for '" ++ name ++ text "': ")
      >> (sweep_one_locked faults clock locked name batch dry_run db
          >>= released (faults.fault 6) name)
