-- ===== src/Worker/Runs/Delivery.antt =====
-- At-least-once delivery over whole runs.
use pg_tide.Prelude.{
  Option, unwrap_or, ℕ, ◌+◌, ◌<◌, ◌≤◌, All-map, Occurs-append_left, Occurs-append_right, ◌≡◌, refl,
  Bool, true, false, none, some, List, [], ◌∷◌, ◌++◌, arith, All, All-append, Bool-cases, inl, inr,
}
use pg_tide.Prelude.Int.{ℤ, pos, ltb_ℤ, ◌≤ℤ◌}
use pg_tide.Foreign.{Foreign}
use pg_tide.Source.Rows.{Row}
use pg_tide.Source.Poll.{configure_replay}
use pg_tide.Source.Order.{Above, last_id}
use pg_tide.Source.Commit.{StoredOffset, new_simple_native}
use pg_tide.Source.Coverage.{Upto, UptoStored, Kept, Kept-map}
use pg_tide.Worker.Outcome.{ReplayRange}
use pg_tide.Worker.State.{Settings, Worker}
use pg_tide.Worker.Loop.{start}
use pg_tide.Worker.Loop.Commits.{RowHandled, IsSafe}
use pg_tide.Worker.Loop.Iterations.{iterate-IsSafe}
use pg_tide.Worker.Loop.Growth.{iterate-Grows}
use pg_tide.Extension.Candidates.{safe_offset}
use pg_tide.Worker.Runs.Sweeps.{delete_first-Above, delete_first-Kept}
use pg_tide.Worker.Runs.{
  World, Event, arrives, iterates, starts, sweeps, happens, run, new_world, started, if_running,
  is_swept,
}

module _ {F : Foreign} where
  Above-snoc :
      (d : ℕ) (rows : List (Row F)) (r : Row F)
      → Above d rows
      → last_id d rows < r.id
      → Above d (rows ++ r ∷ [])
  Above-snoc d [] r a h = (h, tt)
  Above-snoc d (x ∷ xs) r a h = (a.0, Above-snoc x.id xs r a.1 h)

  last_id-snoc : (d : ℕ) (rows : List (Row F)) (r : Row F) → last_id d (rows ++ r ∷ []) ≡ r.id
  last_id-snoc d [] r = refl
  last_id-snoc d (x ∷ xs) r = last_id-snoc x.id xs r

  Upto-snoc :
      (D : Row F → Type 0) (rows : List (Row F)) (r : Row F) (offset : ℤ)
      → last_id 0 rows < r.id
      → Upto D rows offset
      → Upto D (rows ++ r ∷ []) offset
  Upto-snoc D rows r offset h low = (
    All-append (λ row. pos row.id ≤ℤ offset → D row) rows (r ∷ [])
        ((λ le. absurd (ground (arith, h, low.1, le))), tt) low.0,
    rw (last_id-snoc 0 rows r) (ground (arith, h, low.1)),
  )

  UptoStored-snoc :
      (D : Row F → Type 0) (rows : List (Row F)) (r : Row F) (stored : StoredOffset)
      → last_id 0 rows < r.id
      → UptoStored D rows stored
      → UptoStored D (rows ++ r ∷ []) stored
  UptoStored-snoc D rows r none h low = tt
  UptoStored-snoc D rows r (some offset) h low = Upto-snoc D rows r offset h low

  Kept-snoc :
      (D : Row F → Type 0) (table published : List (Row F)) (r : Row F)
      → Kept D table published
      → Kept D (table ++ r ∷ []) (published ++ r ∷ [])
  Kept-snoc D table published r kept =
      All-append _ published (r ∷ []) (inr (Occurs-append_right r table (r ∷ []) (inl refl)), tt)
        (All-map _ _ published
          (λ row k. elim k [
            | inl done ↦ inl done
            | inr here ↦ inr (Occurs-append_left row table (r ∷ []) here)
          ])
          kept)

  nothing_below :
      (D : Row F → Type 0) (d : ℕ) (rows : List (Row F))
      → Above d rows
      → All (λ row. pos row.id ≤ℤ pos 0 → D row) rows
  nothing_below D d [] a = tt
  nothing_below D d (r ∷ rs) a =
      ((λ le. absurd (omega (arith, a.0, le))), nothing_below D r.id rs a.1)

  loaded-Upto :
      (D : Row F → Type 0) (rows : List (Row F)) (stored : StoredOffset)
      → Above 0 rows
      → UptoStored D rows stored
      → Upto D rows (unwrap_or stored (pos 0))
  loaded-Upto D rows none a h = (nothing_below D 0 rows a, omega arith)
  loaded-Upto D rows (some offset) a h = h

module _ {F : Foreign} (s : Settings) where
  -- The rows stand in the order of their ids, below the next one; every row that was ever published
  -- is handled or still in the table; and the worker is safe for the published rows.
  pub record IsSound (world : World F) : Type 0 where
    pub sorted : Above 0 world.table
    pub in_order : Above 0 world.published
    pub within : last_id 0 world.table ≤ last_id 0 world.published
    pub below : last_id 0 world.published < world.next_id
    pub kept : Kept (RowHandled s world.worker) world.table world.published
    pub safe : IsSafe s world.published world.worker

  arrives-IsSafe :
      (table : List (Row F)) (r : Row F) (w : Worker F)
      → last_id 0 table < r.id
      → IsSafe s table w
      → IsSafe s (table ++ r ∷ []) w
  arrives-IsSafe table r w h safe = record {
    mode = safe.mode;
    names = safe.names;
    covered = record {
      live = λ mode.
          Upto-snoc (RowHandled s w) table r w.acked.source.last_offset h (safe.covered.live mode);
      stored = UptoStored-snoc (RowHandled s w) table r w.acked.stored h safe.covered.stored;
    };
  }

  started-IsSound :
      (fault : Option F.Error) (replay : Option ReplayRange) (world : World F)
      → IsSound world
      → IsSound (started s (start s fault replay world.worker) world)
  unfolding start new_simple_native configure_replay
  started-IsSound (some e) replay world sound = record {
    sorted = sound.sorted;
    in_order = sound.in_order;
    within = sound.within;
    below = sound.below;
    kept = sound.kept;
    safe = sound.safe;
  }
  started-IsSound none none world sound = record {
    sorted = sound.sorted;
    in_order = sound.in_order;
    within = sound.within;
    below = sound.below;
    kept = sound.kept;
    safe = record {
      mode = refl;
      names = (refl, refl);
      covered = record {
        live = λ mode.
            loaded-Upto (RowHandled s world.worker) world.published world.worker.acked.stored
              sound.in_order sound.safe.covered.stored;
        stored = sound.safe.covered.stored;
      };
    };
  }
  started-IsSound none (some range) world sound = elim (Bool-cases (ltb_ℤ range.from_id (pos 0))) [
    | inl negative ↦ rw negative (record {
      sorted = sound.sorted;
      in_order = sound.in_order;
      within = sound.within;
      below = sound.below;
      kept = sound.kept;
      safe = sound.safe;
    })
    | inr fine ↦ rw fine (record {
      sorted = sound.sorted;
      in_order = sound.in_order;
      within = sound.within;
      below = sound.below;
      kept = sound.kept;
      safe = record {
        mode = refl;
        names = (refl, refl);
        covered = record { live = λ mode. cc mode; stored = sound.safe.covered.stored };
      };
    })
  ]

  happens-IsSound : (world : World F) (e : Event F) → IsSound world → IsSound (happens s world e)
  unfolding happens
  happens-IsSound world (arrives gap payload headers created_at) sound =
      let row : Row F = record {
        id = world.next_id + gap;
        payload = payload;
        headers = headers;
        created_at = created_at;
      } in
      let below = sound.below in
      let within = sound.within in
      record {
        sorted = Above-snoc 0 world.table row sound.sorted (omega (arith, below, within));
        in_order = Above-snoc 0 world.published row sound.in_order (omega (arith, below));
        within =
            rw (last_id-snoc 0 world.table row, last_id-snoc 0 world.published row) (omega arith);
        below = rw (last_id-snoc 0 world.published row) (omega arith);
        kept = Kept-snoc (RowHandled s world.worker) world.table world.published row sound.kept;
        safe = arrives-IsSafe world.published row world.worker (omega (arith, below)) sound.safe;
      }
  happens-IsSound world (iterates a) sound = by_running world.running
    where
      by_running : (b : Bool) → IsSound (if_running s b a world)
      by_running true = record {
        sorted = sound.sorted;
        in_order = sound.in_order;
        within = sound.within;
        below = sound.below;
        kept =
            Kept-map (RowHandled s world.worker) _ world.table world.published
              (λ row h. (h.0, iterate-Grows s a world.table world.worker _ h.1)) sound.kept;
        safe =
            iterate-IsSafe s a world.table world.published world.worker sound.sorted sound.within
              sound.kept sound.safe;
      }
      by_running false = sound
  happens-IsSound world (starts fault replay) sound = started-IsSound fault replay world sound
  happens-IsSound world (sweeps n ready before after) sound =
      let stored = world.worker.acked.stored in
      let (sorted, last) =
        delete_first-Above n
          (is_swept ready (safe_offset (before ++ unwrap_or stored (pos 0) ∷ after))) 0 world.table
          sound.sorted in
      let within = sound.within in
      record {
        sorted = sorted;
        in_order = sound.in_order;
        within = omega (arith, last, within);
        below = sound.below;
        kept =
            delete_first-Kept (RowHandled s world.worker) n ready before (unwrap_or stored (pos 0))
              after world.table world.published
              (loaded-Upto (RowHandled s world.worker) world.published stored sound.in_order
                sound.safe.covered.stored).0
              sound.kept;
        safe = sound.safe;
      }

  run-IsSound_from :
      (world : World F) (es : List (Event F)) → IsSound world → IsSound (run s world es)
  unfolding run
  run-IsSound_from world [] sound = sound
  run-IsSound_from world (e ∷ es) sound =
      run-IsSound_from (happens s world e) es (happens-IsSound world e sound)

  new_world-IsSound : IsSound (new_world s)
  unfolding new_world
  new_world-IsSound = record {
    sorted = tt;
    in_order = tt;
    within = omega arith;
    below = omega arith;
    kept = tt;
    safe = record {
      mode = refl;
      names = (refl, refl);
      covered = record { live = λ mode. (tt, omega arith); stored = tt };
    };
  }

  -- No row is lost. Whatever rows arrive and whatever sweeps of expired rows run between, whenever
  -- workers start, stop, fail and start again, for live delivery or for replays, and whatever the
  -- database and the sink answer: each row ever published is still in the table, or it has a message
  -- that the sink accepted, that a dry run observed, or that the dead letters hold; and so does each
  -- published row up to the stored offset, and up to the worker's own offset unless it replays.
  pub run-IsSound : (es : List (Event F)) → IsSound (run s (new_world s) es)
  run-IsSound es = run-IsSound_from (new_world s) es new_world-IsSound
