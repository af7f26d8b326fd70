-- ===== src/Extension/Sweep/Refinement.antt =====
-- A sweep of the extension is the sweep that the runs of a pipeline have as an event.
use mathlib.Core.List.{append_assoc}
use pg_tide.Prelude.{
  Occurs, ℕ, zero, suc, ◌≡◌, refl, sym, ap, ◌∙◌, subst, Bool, true, false, Option, List, [], ◌∷◌,
  ◌++◌, ◌&&◌, map, Bool-cases, inl, inr, filter, if◌then◌else◌, unwrap_or,
}
use pg_tide.Prelude.Int.{ℤ, pos}
use pg_tide.Prelude.Text.{Text, text_eq}
use pg_tide.Foreign.{Foreign}
use pg_tide.Source.Rows.{Row}
use pg_tide.Worker.State.{Settings}
use pg_tide.Worker.Runs.{World, sweeps, happens, is_swept}
use pg_tide.Extension.Failures.{ok}
use pg_tide.Extension.Database.{Message, Database, Pipeline, Faults, Clock}
use pg_tide.Extension.Candidates.{safe_offset, delete_first}
use pg_tide.Extension.Candidates.Removal.{delete_first-hit, delete_first-miss}
use pg_tide.Extension.Sweep.{
  SweepReport, reads_outbox, relay_offset_of, group_offset_of, participants, lease_blocked,
  retention_of, is_ready, is_candidate, candidate_now, delete_swept, sweep_outcome, sweep_one,
}
use pg_tide.Extension.Sweep.Deletion.{sweep_one-outcome}

-- The member of a filtered list, with what stands before and after it.
map-split :
    {A : Type 0} (f : A → ℤ) (q : A → Bool) (xs : List A) (x : A)
    → Occurs x xs
    → q x ≡ true
    → (before : List ℤ) × (after : List ℤ) × (map f (filter q xs) ≡ before ++ f x ∷ after)
map-split f q [] x o e = absurd (o tt)
map-split f q (y ∷ ys) x (inl same) e = (
  [],
  map f (filter q ys),
  subst (λ b. map f (if b then y ∷ filter q ys else filter q ys) ≡ f x ∷ map f (filter q ys))
      (sym (ap q same ∙ e)) (ap (λ z. f z ∷ map f (filter q ys)) same),
)
map-split f q (y ∷ ys) x (inr later) e =
    let (before, after, split) = map-split f q ys x later e in
    elim (Bool-cases (q y)) [
      | inl hit ↦ (f y ∷ before, after, rw hit (ap (λ zs. f y ∷ zs) split))
      | inr miss ↦ (before, after, rw miss split)
    ]

module _ {F : Foreign} where
  -- The rows of one outbox.
  unfoldable pub rows_of : Text → List (Message F) → List (Row F)
  rows_of name [] = []
  rows_of name (m ∷ ms) =
      let rest = rows_of name ms in if text_eq name m.outbox then m.row ∷ rest else rest

  rows_of-mine :
      (name : Text) (m : Message F) (ms : List (Message F))
      → text_eq name m.outbox ≡ true
      → rows_of name (m ∷ ms) ≡ m.row ∷ rows_of name ms
  unfolding rows_of
  rows_of-mine name m ms e =
      ap (λ (b : Bool). if b then m.row ∷ rows_of name ms else rows_of name ms) e

  rows_of-other :
      (name : Text) (m : Message F) (ms : List (Message F))
      → text_eq name m.outbox ≡ false
      → rows_of name (m ∷ ms) ≡ rows_of name ms
  unfolding rows_of
  rows_of-other name m ms e =
      ap (λ (b : Bool). if b then m.row ∷ rows_of name ms else rows_of name ms) e

  -- A deletion of messages of one outbox deletes its rows.
  rows_of-delete_first :
      (n : ℕ) (ready : Row F → Bool) (safe : Option ℤ) (name : Text) (ms : List (Message F))
      → rows_of name (delete_first n (is_candidate ready safe name) ms)
        ≡ delete_first n (is_swept ready safe) (rows_of name ms)
  unfolding rows_of delete_first
  rows_of-delete_first zero ready safe name ms = refl
  rows_of-delete_first (suc n) ready safe name [] = refl
  rows_of-delete_first (suc n) ready safe name (m ∷ ms) =
      let p : Message F → Bool = is_candidate ready safe name in
      let q : Row F → Bool = is_swept ready safe in
      let drops = rows_of-delete_first n ready safe name ms in
      let keeps = rows_of-delete_first (suc n) ready safe name ms in
      elim (Bool-cases (text_eq name m.outbox)) [
        | inl mine ↦ elim (Bool-cases (q m.row)) [
          | inl hit ↦
              ap (rows_of name) (delete_first-hit n p m ms (ap (λ b. b && q m.row) mine ∙ hit))
              ∙ drops
              ∙ sym (delete_first-hit n q m.row (rows_of name ms) hit)
              ∙ ap (delete_first (suc n) q) (sym (rows_of-mine name m ms mine))
          | inr miss ↦
              ap (rows_of name) (delete_first-miss n p m ms (ap (λ b. b && q m.row) mine ∙ miss))
              ∙ rows_of-mine name m _ mine
              ∙ ap (λ (rs : List (Row F)). m.row ∷ rs) keeps
              ∙ sym (delete_first-miss n q m.row (rows_of name ms) miss)
              ∙ ap (delete_first (suc n) q) (sym (rows_of-mine name m ms mine))
        ]
        | inr other ↦
            ap (rows_of name) (delete_first-miss n p m ms (ap (λ b. b && q m.row) other))
            ∙ rows_of-other name m _ other
            ∙ keeps
            ∙ ap (delete_first (suc n) q) (sym (rows_of-other name m ms other))
      ]

  participants-split :
      (name : Text) (db : Database F) (p : Pipeline F)
      → Occurs p db.pipelines
      → reads_outbox name p ≡ true
      → (before : List ℤ) × (after : List ℤ) × (participants name db
          ≡ before ++ relay_offset_of name db.relay_offsets p ∷ after)
  unfolding participants
  participants-split name db p o reads =
      let others =
        map (group_offset_of db.offsets) (filter (λ g. text_eq name g.outbox) db.groups) in
      let (before, after, split) =
        map-split (relay_offset_of name db.relay_offsets) (reads_outbox name) db.pipelines p o
          reads in
      (
        before,
        after ++ others,
        ap (λ (zs : List ℤ). zs ++ others) split ∙ append_assoc before _ others,
      )

  module _ (s : Settings) (world : World F) (db : Database F) (p : Pipeline F) where
    -- The pipeline of the worker, as the extension's tables have it.
    pub record IsPipelineOf : Type 0 where
      pub table : rows_of s.outbox db.messages ≡ world.table
      pub is_listed : Occurs p db.pipelines
      pub reads : reads_outbox s.outbox p ≡ true
      pub offset :
          relay_offset_of s.outbox db.relay_offsets p ≡ unwrap_or world.worker.acked.stored (pos 0)

    outcome-refines :
        (ready : Row F → Bool) (batch : ℕ) (before after : List ℤ)
        → rows_of s.outbox db.messages ≡ world.table
        → participants s.outbox db ≡ before ++ unwrap_or world.worker.acked.stored (pos 0) ∷ after
        → rows_of s.outbox (
            delete_first batch
              (is_candidate ready (safe_offset (participants s.outbox db)) s.outbox)
              db.messages)
          ≡ (happens s world (sweeps batch ready before after)).table
    unfolding happens
    outcome-refines ready batch before after table split =
        rows_of-delete_first batch ready (safe_offset (participants s.outbox db)) s.outbox
          db.messages
        ∙ ap (delete_first batch (is_swept ready (safe_offset (participants s.outbox db)))) table
        ∙ ap (λ (os : List ℤ). delete_first batch (is_swept ready (safe_offset os)) world.table)
            split

    -- The rows that a sweep leaves of the worker's outbox are those that some sweep event leaves.
    pub IsRefined : SweepReport × Database F → Type 0
    IsRefined r =
        (n : ℕ) × (ready : Row F → Bool) × (before : List ℤ) × (after : List ℤ) × (rows_of s.outbox
            r.1.messages
          ≡ (happens s world (sweeps n ready before after)).table)

    -- A sweep that returns is a sweep event of the pipeline's runs: if the rows of the worker's
    -- outbox are the table of the run, and a pipeline that reads the outbox has the worker's stored
    -- offset, or none for none, then the rows that the sweep leaves are those that the event leaves
    -- with some batch, some choice of rows and some offsets of other readers.
    pub sweep_one-IsRefined :
        (faults : Faults F) (clock : Clock F) (locked : ℕ → Bool) (batch : ℕ) (dry_run : Bool)
        (r : SweepReport × Database F)
        → IsPipelineOf
        → sweep_one faults clock locked s.outbox batch dry_run db ≡ ok r
        → IsRefined r
    unfolding sweep_outcome delete_swept candidate_now IsRefined delete_first
    sweep_one-IsRefined faults clock locked batch dry_run r of h =
        let (before, after, split) = participants-split s.outbox db p of.is_listed of.reads in
        subst IsRefined (sweep_one-outcome faults clock locked s.outbox batch dry_run db r h) (
          by_mode before after (split ∙ ap (λ (o : ℤ). before ++ o ∷ after) of.offset) dry_run
            (lease_blocked clock s.outbox db))
      where
        ready : Row F → Bool
        ready = is_ready clock locked (retention_of s.outbox db.outboxes)

        by_mode :
            (before after : List ℤ)
            → participants s.outbox db
              ≡ before ++ unwrap_or world.worker.acked.stored (pos 0) ∷ after
            → (dry blocked : Bool)
            → IsRefined (
                sweep_outcome
                  (candidate_now clock locked s.outbox db)
                  blocked
                  (safe_offset (participants s.outbox db))
                  s.outbox
                  batch
                  dry
                  db)
        by_mode before after split true blocked =
            (0, ready, before, after, outcome-refines ready 0 before after of.table split)
        by_mode before after split false true =
            (0, ready, before, after, outcome-refines ready 0 before after of.table split)
        by_mode before after split false false =
            (batch, ready, before, after, outcome-refines ready batch before after of.table split)
