-- ===== src/Extension/Groups/Commits.antt =====
-- A commit of a consumer's offset is a step of the registers.
use pg_tide.Prelude.{
  ℕ, ◌≡◌, refl, ap, ◌∙◌, subst, Bool, true, false, Option, none, some, ◌&&◌, any, Bool-cases, inl,
  inr, if◌then◌else◌,
}
use pg_tide.Prelude.Int.{ℤ, pos, ltb_ℤ, leb_ℤ}
use pg_tide.Prelude.Text.{Text, text_eq, text_eq_sound}
use pg_tide.Foreign.{Foreign}
use pg_tide.Extension.Failures.{◌>>=◌}
use pg_tide.Extension.Database.{Database, Faults, Clock, is_group, or_abort}
use pg_tide.Extension.Candidates.Removal.{and_left, and_right}
use pg_tide.Extension.Groups.{committed, upsert, clear_lease, commit_offset}
use pg_tide.Extension.Groups.Registers.{
  raise, commit_register, new_offset, committed-set_offset, committed-set_offset_other,
  committed-append, committed-append_other,
}

module _ {F : Foreign} (faults : Faults F) (clock : Clock F) (g c : Text) (v : ℤ) (db : Database F)
    (calm : (i : ℕ) → faults.fault i ≡ none) where
  after : Database F
  after = or_abort (commit_offset faults clock g c v db) db

  is_there : Bool
  is_there = any (is_group g) db.groups

  -- The offsets after the statements of a commit that is not negative.
  finished : Option ℤ → Database F
  finished old =
      or_abort (upsert faults clock g c v old db >>= λ os. clear_lease faults g c v os db) db

  after_negative : ltb_ℤ v (pos 0) ≡ true → after ≡ db
  unfolding after commit_offset
  after_negative e = rw e refl

  after_fine : ltb_ℤ v (pos 0) ≡ false → after ≡ finished (committed g c db.offsets)
  unfolding after commit_offset finished
  after_fine e = rw (e, calm 0) refl

  finished_own :
      (old : Option ℤ)
      → committed g c db.offsets ≡ old
      → committed g c (finished old).offsets ≡ raise is_there v old
  unfolding finished clear_lease is_there new_offset
  finished_own none e = elim (Bool-cases (any (is_group g) db.groups)) [
    | inl there ↦ rw (there, calm 1) (committed-append clock g c v db.offsets e)
    | inr missing ↦ rw missing e
  ]
  finished_own (some old) e = elim (Bool-cases (leb_ℤ old v)) [
    | inl up ↦ rw (up, calm 1) (committed-set_offset clock g c v db.offsets old e)
    | inr down ↦ rw down e
  ]

  finished_other :
      (old : Option ℤ) (h d : Text)
      → (text_eq g h && text_eq c d) ≡ false
      → committed h d (finished old).offsets ≡ committed h d db.offsets
  unfolding finished clear_lease new_offset
  finished_other none h d apart = elim (Bool-cases (any (is_group g) db.groups)) [
    | inl there ↦ rw (there, calm 1) (committed-append_other clock g c v db.offsets h d apart)
    | inr missing ↦ rw missing refl
  ]
  finished_other (some old) h d apart = elim (Bool-cases (leb_ℤ old v)) [
    | inl up ↦ rw (up, calm 1) (committed-set_offset_other clock g c v db.offsets h d apart)
    | inr down ↦ rw down refl
  ]

  if_same {ℓ} : {A : Type ℓ} (b : Bool) (x : A) → x ≡ (if b then x else x)
  if_same true x = refl
  if_same false x = refl

  -- Commits of offsets are steps of registers that only rise. Whatever the consumer and the offset,
  -- if no statement fails then what each consumer of each group has committed after the call is what
  -- the registers have after the step; a call that is refused leaves them all as they were.
  pub commit_offset-refines :
      (h d : Text)
      → committed h d (or_abort (commit_offset faults clock g c v db) db).offsets
        ≡ commit_register (any (is_group g) db.groups) g c v (λ h d. committed h d db.offsets) h d
  unfolding commit_register after is_there
  commit_offset-refines h d = elim (Bool-cases (ltb_ℤ v (pos 0))) [
    | inl negative ↦
        ap (λ (a : Database F). committed h d a.offsets) (after_negative negative)
        ∙ rw negative (if_same (text_eq g h && text_eq c d) (committed h d db.offsets))
    | inr fine ↦ elim (Bool-cases (text_eq g h && text_eq c d)) [
      | inl same ↦
          rw (same, fine)
            (own_as (text_eq_sound g h (and_left (text_eq g h) _ same))
              (text_eq_sound c d (and_right (text_eq g h) _ same)) fine)
      | inr apart ↦ rw apart (
          ap (λ (a : Database F). committed h d a.offsets) (after_fine fine)
          ∙ finished_other (committed g c db.offsets) h d apart)
    ]
  ]
    where
      own_as :
          g ≡ h
          → c ≡ d
          → ltb_ℤ v (pos 0) ≡ false
          → committed h d after.offsets
            ≡ raise (any (is_group g) db.groups) v (committed h d db.offsets)
      own_as group consumer fine =
          subst
            (λ x.
              committed h x after.offsets
              ≡ raise (any (is_group g) db.groups) v (committed h x db.offsets))
            consumer
            (subst
              (λ x.
                committed x c after.offsets
                ≡ raise (any (is_group g) db.groups) v (committed x c db.offsets))
              group
              (ap (λ (a : Database F). committed g c a.offsets) (after_fine fine)
                ∙ finished_own (committed g c db.offsets) refl))
