-- ===== src/Worker/Runs/Sweeps.antt =====
-- What a sweep leaves of the table.
use pg_tide.Prelude.{
  ℕ, zero, suc, ◌≤◌, ◌≡◌, refl, Bool, true, false, Option, none, some, List, [], ◌∷◌, ◌++◌, arith,
  All, inl, inr,
}
use pg_tide.Prelude.Int.{ℤ, pos, leb_ℤ, ◌≤ℤ◌}
use pg_tide.Foreign.{Foreign}
use pg_tide.Source.Rows.{Row}
use pg_tide.Source.Order.{Above, Above-mono, last_id}
use pg_tide.Source.Coverage.{Kept, last_id_mono}
use pg_tide.Extension.Candidates.{safe_offset, is_below, delete_first, least}
use pg_tide.Extension.Candidates.Removal.{delete_first-Occurs, and_right}
use pg_tide.Worker.Runs.{is_swept}

least_below :
    (a : ℤ) (rest : Option ℤ) (id : ℤ)
    → leb_ℤ id (least a rest) ≡ true
    → (id ≤ℤ a) × (is_below rest id ≡ true)
least_below a none id h = (ground (arith, h), refl)
least_below a (some b) id h = (ground (arith, h), ground (arith, h))

-- The safe offset is at most each reader's.
pub safe_offset_below :
    (before : List ℤ) (a : ℤ) (after : List ℤ) (id : ℤ)
    → is_below (safe_offset (before ++ a ∷ after)) id ≡ true
    → id ≤ℤ a
unfolding safe_offset
safe_offset_below [] a after id h = (least_below a (safe_offset after) id h).0
safe_offset_below (b ∷ before) a after id h =
    safe_offset_below before a after id (least_below b (safe_offset (before ++ a ∷ after)) id h).1

module _ {F : Foreign} where
  pub delete_first-Above :
      (n : ℕ) (p : Row F → Bool) (d : ℕ) (rows : List (Row F))
      → Above d rows
      → Above d (delete_first n p rows) × (last_id d (delete_first n p rows) ≤ last_id d rows)
  unfolding delete_first
  delete_first-Above zero p d rows a = (a, omega arith)
  delete_first-Above (suc n) p d [] a = (a, omega arith)
  delete_first-Above (suc n) p d (r ∷ rs) a =
      let more = last_id_mono d r.id rs (omega (arith, a.0)) in
      by_hit (p r) (delete_first-Above n p d rs (Above-mono d r.id rs (omega (arith, a.0)) a.1))
        more (delete_first-Above (suc n) p r.id rs a.1)
    where
      by_hit :
          (b : Bool)
          → Above d (delete_first n p rs) × (last_id d (delete_first n p rs) ≤ last_id d rs)
          → last_id d rs ≤ last_id r.id rs
          → Above r.id (delete_first (suc n) p rs)
            × (last_id r.id (delete_first (suc n) p rs) ≤ last_id r.id rs)
          → (let left : List (Row F) = elim b [
            | true ↦ delete_first n p rs
            | false ↦ r ∷ delete_first (suc n) p rs
          ] in
              Above d left × (last_id d left ≤ last_id d (r ∷ rs)))
      by_hit true drops more keeps = let last = drops.1 in (drops.0, omega (arith, last, more))
      by_hit false drops more keeps = ((a.0, keeps.0), keeps.1)

  -- A sweep that deletes only rows up to an offset, below which all published rows are handled.
  pub delete_first-Kept :
      (D : Row F → Type 0) (n : ℕ) (ready : Row F → Bool) (before : List ℤ) (offset : ℤ)
      (after : List ℤ) (table published : List (Row F))
      → All (λ row. pos row.id ≤ℤ offset → D row) published
      → Kept D table published
      → Kept D
          (delete_first n (is_swept ready (safe_offset (before ++ offset ∷ after))) table)
          published
  delete_first-Kept D n ready before offset after table [] low kept = tt
  delete_first-Kept D n ready before offset after table (row ∷ rows) low kept = (
    elim kept.0 [
      | inl done ↦ inl done
      | inr here ↦
          elim (delete_first-Occurs n (is_swept ready (safe_offset (before ++ offset ∷ after)))
            table row here) [
              | inl swept ↦ inl (
                  low.0 (
                    safe_offset_below before offset after (pos row.id)
                      (and_right (ready row) _ swept)))
              | inr stays ↦ inr stays
            ]
    ],
    delete_first-Kept D n ready before offset after table rows low.1 kept.1,
  )
