-- ===== src/Extension/Sweep/Rounds.antt =====
-- pg-tide-ext/src/outbox.rs: a sweep of one outbox or of all.
use pg_tide.Prelude.{
  ℕ, ◌+◌, Bool, false, Option, none, some, List, [], ◌∷◌, ◌++◌, map, ◌&&◌, leb, if◌then◌else◌,
}
use pg_tide.Prelude.Int.{ℤ, pos, negsuc}
use pg_tide.Prelude.Text.{Text, text, decimal_ℤ}
use pg_tide.Foreign.{Foreign}
use pg_tide.Extension.Failures.{
  PgResult, ok, err, ◌>>=◌, ◌>>◌, run_spi, invalid_argument, outbox_not_found,
}
use pg_tide.Extension.Database.{Outbox, Database, Faults, Clock}
use pg_tide.Extension.Outboxes.{outbox_exists}
use pg_tide.Extension.Sweep.{SweepReport, sweep_one}

total_affected : List SweepReport → ℕ
total_affected [] = 0
total_affected (r ∷ rs) = r.affected_rows + total_affected rs

module _ {F : Foreign} where
  -- `sweep_one` for each outbox in turn, each with its own faults.
  unfoldable pub sweep_all :
      (ℕ → Faults F)
      → Clock F
      → (ℕ → Bool)
      → List Text
      → ℕ
      → Bool
      → Database F
      → PgResult (List SweepReport × Database F)
  unfolding sweep_one
  sweep_all faults clock locked [] batch dry_run db = ok ([], db)
  sweep_all faults clock locked (name ∷ names) batch dry_run db = do
    (report, next) ← sweep_one (faults 0) clock locked name batch dry_run db
    (reports, last) ← sweep_all (λ i. faults (i + 1)) clock locked names batch dry_run next
    ok (report ∷ reports, last)

  -- The outboxes to sweep: the one that is named, if it exists, or all, `ORDER BY outbox_name`.
  abbrev pub sweep_names :
      Option F.Error → (List Text → List Text) → Option Text → Database F → PgResult (List Text)
  sweep_names fault in_order (some name) db = outbox_exists fault name db >>= λ exists.
      if exists then ok (name ∷ []) else err (outbox_not_found name)
  sweep_names fault in_order none db =
      run_spi F fault (text "list sweep outboxes: ")
      >> ok (in_order (map (λ (o : Outbox). o.name) db.outboxes))

  unfoldable pub bad_batch : ℤ → PgResult (List SweepReport × Database F)
  bad_batch batch_size = err (
      invalid_argument
        (text "p_batch_size must be between 1 and 10000; got " ++ decimal_ℤ batch_size))

  unfoldable pub outbox_sweep :
      Option F.Error
      → (ℕ → Faults F)
      → Clock F
      → (ℕ → Bool)
      → (List Text → List Text)
      → Option Text
      → ℤ
      → Bool
      → Database F
      → PgResult (List SweepReport × Database F)
  unfolding sweep_all bad_batch outbox_exists
  outbox_sweep fault faults clock locked in_order outbox_name (negsuc n) dry_run db =
      bad_batch (negsuc n)
  outbox_sweep fault faults clock locked in_order outbox_name (pos n) dry_run db =
      if leb 1 n && leb n 10000
      then (do
        names ← sweep_names fault in_order outbox_name db
        sweep_all faults clock locked names n dry_run db)
      else bad_batch (pos n)

  unfoldable pub outbox_truncate_delivered :
      Option F.Error
      → (ℕ → Faults F)
      → Clock F
      → (ℕ → Bool)
      → (List Text → List Text)
      → Option Text
      → Database F
      → PgResult (ℕ × Database F)
  unfolding outbox_sweep total_affected
  outbox_truncate_delivered fault faults clock locked in_order outbox_name db = do
    (reports, new) ← outbox_sweep fault faults clock locked in_order outbox_name (pos 1000) false db
    ok (total_affected reports, new)
