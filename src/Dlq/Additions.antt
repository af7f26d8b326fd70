-- ===== src/Dlq/Additions.antt =====
-- What the inserts of one batch add to the table of dead letters.
use mathlib.Core.List.{append-nil, append_assoc}
use pg_tide.Prelude.{
  Occurs, sym, ◌∙◌, Bool-cases, All-append, ℕ, ◌+◌, ◌≡◌, refl, inl, inr, true, false, Option, none,
  some, List, [], ◌∷◌, ◌++◌, arith, All,
}
use pg_tide.Prelude.Text.{text_eq_refl}
use pg_tide.Foreign.{Foreign}
use pg_tide.Errors.{Result, ok, err, postgres}
use pg_tide.Dlq.{DlqEntry, DlqRow, has_key, insert_one, insert_all}

module _ {F : Foreign} where
  pub has_key-append :
      (e : DlqEntry F) (rs ss : List (DlqRow F)) → has_key e rs ≡ true → has_key e (rs ++ ss) ≡ true
  unfolding has_key
  has_key-append e [] ss h = cc
  has_key-append e (r ∷ rs) ss h = ground (arith, has_key-append e rs ss)

  has_key_self :
      (e : DlqEntry F) (rs : List (DlqRow F))
      → has_key e (rs ++ record { entry = e; resolved = false } ∷ []) ≡ true
  unfolding has_key
  has_key_self e [] = ground (arith, text_eq_refl e.pipeline_name, text_eq_refl e.dedup_key)
  has_key_self e (r ∷ rs) = ground (arith, has_key_self e rs)

  has_key-insert_one_self :
      (e : DlqEntry F) (rs : List (DlqRow F)) → has_key e (insert_one e rs) ≡ true
  unfolding insert_one
  has_key-insert_one_self e rs = ground (arith, has_key_self e rs)

  has_key-insert_one :
      (d e : DlqEntry F) (rs : List (DlqRow F))
      → has_key d rs ≡ true
      → has_key d (insert_one e rs) ≡ true
  unfolding insert_one
  has_key-insert_one d e rs h =
      ground (arith, has_key-append d rs (record { entry = e; resolved = false } ∷ []) h)

  -- An insert of several entries that succeeds has inserted the first, and goes on.
  insert_all-cons :
      (fault : ℕ → Option F.Error) (i : ℕ) (e : DlqEntry F) (es : List (DlqEntry F))
      (rs ts : List (DlqRow F))
      → insert_all fault i (e ∷ es) rs ≡ ok ts
      → insert_all fault (i + 1) es (insert_one e rs) ≡ ok ts
  unfolding insert_all
  insert_all-cons fault i e es rs ts h = split (fault i) h
    where
      split :
          (o : Option F.Error)
          → ◌≡◌ {A = Result F (List (DlqRow F))}
              (elim o [
                | some error ↦ err (postgres error)
                | none ↦ insert_all fault (i + 1) es (insert_one e rs)
              ])
              (ok ts)
          → insert_all fault (i + 1) es (insert_one e rs) ≡ ok ts
      split none h = h
      split (some error) h = cc

  has_key-insert_all :
      (d : DlqEntry F) (fault : ℕ → Option F.Error) (i : ℕ) (es : List (DlqEntry F))
      (rs ts : List (DlqRow F))
      → insert_all fault i es rs ≡ ok ts
      → has_key d rs ≡ true
      → has_key d ts ≡ true
  has_key-insert_all d fault i [] rs ts h k = unfold insert_all in ground arith
  has_key-insert_all d fault i (e ∷ es) rs ts h k =
      has_key-insert_all d fault (i + 1) es (insert_one e rs) ts
        (insert_all-cons fault i e es rs ts h) (has_key-insert_one d e rs k)

  pub insert_all_complete :
      (fault : ℕ → Option F.Error) (i : ℕ) (es : List (DlqEntry F)) (rs ts : List (DlqRow F))
      → insert_all fault i es rs ≡ ok ts
      → All (λ e. has_key e ts ≡ true) es
  insert_all_complete fault i [] rs ts h = tt
  insert_all_complete fault i (e ∷ es) rs ts h =
      let rest = insert_all-cons fault i e es rs ts h in
      (
        has_key-insert_all e fault (i + 1) es (insert_one e rs) ts rest
            (has_key-insert_one_self e rs),
        insert_all_complete fault (i + 1) es (insert_one e rs) ts rest,
      )

  -- A row that an insert of a batch may add to a table.
  pub record IsNew (es : List (DlqEntry F)) (old : List (DlqRow F)) (r : DlqRow F) : Type 0 where
    pub of_batch : Occurs r.entry es
    pub unresolved : r.resolved ≡ false
    pub missing : has_key r.entry old ≡ false

  has_key-missing :
      (e : DlqEntry F) (rs ss : List (DlqRow F))
      → has_key e (rs ++ ss) ≡ false
      → has_key e rs ≡ false
  has_key-missing e rs ss h = elim (Bool-cases (has_key e rs)) [
    | inl there ↦ absurd (cc (has_key-append e rs ss there, h))
    | inr missing ↦ missing
  ]

  IsNew-later :
      (e : DlqEntry F) (es : List (DlqEntry F)) (old more : List (DlqRow F)) (rs : List (DlqRow F))
      → All (IsNew es (old ++ more)) rs
      → All (IsNew (e ∷ es) old) rs
  IsNew-later e es old more [] h = tt
  IsNew-later e es old more (r ∷ rs) h =
      let n = h.0 in
      (
        record {
          of_batch = inr n.of_batch;
          unresolved = n.unresolved;
          missing = has_key-missing r.entry old more n.missing;
        },
        IsNew-later e es old more rs h.1,
      )

  -- What one insert adds: nothing, or the row of the missing entry.
  insert_one_adds :
      (e : DlqEntry F) (es : List (DlqEntry F)) (rs : List (DlqRow F))
      → (more : List (DlqRow F)) × (insert_one e rs ≡ rs ++ more) × All (IsNew (e ∷ es) rs) more
  unfolding insert_one
  insert_one_adds e es rs = elim (Bool-cases (has_key e rs)) [
    | inl there ↦ ([], rw there (sym (append-nil rs)), tt)
    | inr missing ↦ (
      record { entry = e; resolved = false } ∷ [],
      rw missing refl,
      (record { of_batch = inl refl; unresolved = refl; missing = missing }, tt),
    )
  ]

  pub insert_all_adds :
      (fault : ℕ → Option F.Error) (i : ℕ) (es : List (DlqEntry F)) (rs ts : List (DlqRow F))
      → insert_all fault i es rs ≡ ok ts
      → (added : List (DlqRow F)) × (ts ≡ rs ++ added) × All (IsNew es rs) added
  insert_all_adds fault i [] rs ts h =
      let same : rs ≡ ts = unfold insert_all in cc h in ([], sym same ∙ sym (append-nil rs), tt)
  insert_all_adds fault i (e ∷ es) rs ts h =
      let (one, on, fresh) = insert_one_adds e es rs in
      let (rest, onward, later) =
        insert_all_adds fault (i + 1) es (rs ++ one) ts
          (rw (on) at (insert_all-cons fault i e es rs ts h)) in
      (
        one ++ rest,
        onward ∙ append_assoc rs one rest,
        All-append _ one rest (IsNew-later e es rs one rest later) fresh,
      )
