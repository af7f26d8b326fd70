-- ===== src/Dlq/Insert.antt =====
-- What an insert of dead letters leaves in the table.
use mathlib.Core.List.{append-nil}
use pg_tide.Prelude.{
  sym, ℕ, ◌+◌, ◌≡◌, refl, ◌⊎◌, inl, inr, true, Option, none, some, List, [], ◌∷◌, ◌++◌, arith, All,
}
use pg_tide.Prelude.Text.{Text}
use pg_tide.Foreign.{Foreign}
use pg_tide.Errors.{RelayError, Result, ok, err, postgres}
use pg_tide.Dlq.{
  DlqEntry, DlqRow, Commit, InsertFaults, has_key, insert_one, insert_all, insert_batch,
  finish_commit, close_transaction, committed, lost_before, lost_after,
}
use pg_tide.Dlq.Additions.{has_key-append, insert_all_complete, insert_all_adds, IsNew}

module _ {F : Foreign} where
  -- The table keeps every row it had, as it was, and each entry of the batch is in it unresolved;
  -- what is new are unresolved rows of entries of the batch whose pipeline and key were missing.
  pub record IsExtended (es : List (DlqEntry F)) (old new : List (DlqRow F)) : Type 0 where
    pub complete : All (λ e. has_key e new ≡ true) es
    pub added : List (DlqRow F)
    pub appended : new ≡ old ++ added
    pub only_missing : All (IsNew es old) added

  -- What one batch leaves behind.
  abbrev pub IsAtomic :
      InsertFaults F
      → List (DlqEntry F)
      → List (DlqRow F)
      → Result F (Unit {0}) × List (DlqRow F)
      → Type 0
  IsAtomic faults es old (ok _, new) = IsExtended es old new
  IsAtomic faults es old (err e, new) =
      (new ≡ old) ⊎ ((error : F.Error) × (faults.commit ≡ lost_after error) × IsExtended es old new)

  insert_all-IsExtended :
      (fault : ℕ → Option F.Error) (es : List (DlqEntry F)) (old new : List (DlqRow F))
      → insert_all fault 0 es old ≡ ok new
      → IsExtended es old new
  insert_all-IsExtended fault es old new h =
      let (added, appended, missing) = insert_all_adds fault 0 es old new h in
      record {
        complete = insert_all_complete fault 0 es old new h;
        added = added;
        appended = appended;
        only_missing = missing;
      }

  pub IsExtended-kept :
      (es : List (DlqEntry F)) (old new : List (DlqRow F))
      → IsExtended es old new
      → (d : DlqEntry F) → has_key d old ≡ true
      → has_key d new ≡ true
  IsExtended-kept es old new x d h = rw x.appended (has_key-append d old x.added h)

  insert_nothing : (old : List (DlqRow F)) → IsExtended [] old old
  insert_nothing old = record {
    complete = tt;
    added = [];
    appended = sym (append-nil old);
    only_missing = tt;
  }

  finish-IsAtomic :
      (display : RelayError F → Text) (faults : InsertFaults F) (es : List (DlqEntry F))
      (old : List (DlqRow F)) (r : Result F (List (DlqRow F)))
      → insert_all faults.insert_fault 0 es old ≡ r
      → IsAtomic faults es old (close_transaction display faults old r)
  finish-IsAtomic display faults es old (err e) h = inl refl
  finish-IsAtomic display faults es old (ok new) h = by_commit faults.commit refl
    where
      extended : IsExtended es old new
      extended = insert_all-IsExtended faults.insert_fault es old new h

      by_commit :
          (c : Commit F) → faults.commit ≡ c → IsAtomic faults es old (finish_commit c old new)
      by_commit committed e = extended
      by_commit (lost_before error) e = inl refl
      by_commit (lost_after error) e = inr (error, e, extended)

  -- An insert of dead letters is all or nothing, whichever statement fails. If it succeeds, the
  -- table has the rows it had, unchanged and in their order, and behind them unresolved rows of
  -- entries of the batch, only of those whose pipeline and key no unresolved row had; and each
  -- entry of the batch is in it unresolved under its pipeline and key. If it fails, the table is
  -- unchanged, unless it was the answer to the commit that got lost after the commit took effect,
  -- and then the table is as after a success.
  pub insert_batch-IsAtomic :
      (display : RelayError F → Text) (faults : InsertFaults F) (es : List (DlqEntry F))
      (table : List (DlqRow F))
      → IsAtomic faults es table (insert_batch display faults es table)
  unfolding insert_batch
  insert_batch-IsAtomic display faults [] table = insert_nothing table
  insert_batch-IsAtomic display faults (e ∷ es) table = by_begin faults.begin_fault
    where
      by_begin :
          (o : Option F.Error)
          → IsAtomic faults (e ∷ es) table (elim o [
            | some error ↦ (err (postgres error), table)
            | none ↦
                close_transaction display faults table
                  (insert_all faults.insert_fault 0 (e ∷ es) table)
          ])
      by_begin (some error) = inl refl
      by_begin none = finish-IsAtomic display faults (e ∷ es) table _ refl

  insert_one_known :
      (e : DlqEntry F) (table : List (DlqRow F))
      → has_key e table ≡ true
      → insert_one e table ≡ table
  unfolding insert_one
  insert_one_known e table h = ground arith

  insert_all_known :
      (fault : ℕ → Option F.Error) (i : ℕ) (es : List (DlqEntry F)) (table : List (DlqRow F))
      → ((j : ℕ) → fault j ≡ none)
      → All (λ e. has_key e table ≡ true) es
      → insert_all fault i es table ≡ ok table
  unfolding insert_all
  insert_all_known fault i [] table f h = refl
  insert_all_known fault i (e ∷ es) table f h =
      rw (f i, insert_all)
        (rw (insert_one_known e table h.0) (insert_all_known fault (i + 1) es table f h.1))

  -- A retry is harmless: inserting entries that are in the table already, unresolved under their
  -- pipeline and key, succeeds and changes nothing, when no statement fails.
  pub insert_batch_retry :
      (display : RelayError F → Text) (faults : InsertFaults F) (es : List (DlqEntry F))
      (table : List (DlqRow F))
      → faults.begin_fault ≡ none
      → ((j : ℕ) → faults.insert_fault j ≡ none)
      → faults.commit ≡ committed
      → All (λ e. has_key e table ≡ true) es
      → insert_batch display faults es table ≡ (ok tt, table)
  unfolding insert_batch
  insert_batch_retry display faults [] table b f c h = refl
  insert_batch_retry display faults (e ∷ es) table b f c h =
      rw (b, insert_batch) (rw (insert_all_known faults.insert_fault 0 (e ∷ es) table f h) (rw c))
