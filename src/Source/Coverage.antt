-- ===== src/Source/Coverage.antt =====
-- Which rows a source has passed: a property of their messages holds for all rows up to an offset.
use pg_tide.Prelude.{
  Occurs, All-lookup, ℕ, zero, suc, ◌≤◌, ◌≡◌, ◌⊎◌, refl, sym, subst, Bool, true, false, none, some,
  List, [], ◌∷◌, arith, All, All-map, take, filter, get_last?, Bool-cases, inl, inr,
}
use pg_tide.Prelude.Int.{ℤ, pos, negsuc, ltb_ℤ, leb_ℤ, max_ℤ, ◌≤ℤ◌}
use pg_tide.Prelude.Text.{Text}
use pg_tide.Foreign.{Foreign}
use pg_tide.Errors.{Result, ok, >>=-eq-ok}
use pg_tide.Envelope.{outbox_offset, RelayMessage}
use pg_tide.Source.Rows.{Row, PollAnswers, or_postgres}
use pg_tide.Source.Poll.{
  OutboxPollerSource, select_after, or_fence, fenced_native_rows, rows_messages, poll,
}
use pg_tide.Source.Order.{
  Above, Above-mono, last_id, take-covers, message_of, AreMessagesOf, rows_messages-AreMessagesOf,
}
use pg_tide.Source.Commit.{Acked, StoredOffset, upsert_offset}
use pg_tide.Source.Offsets.{IsAck}

module _ {F : Foreign} where
  -- A message of the row has the property.
  abbrev pub Handles : (RelayMessage F → Type 0) → Text → Text → Row F → Type 0
  Handles P name template row = (v : F.Value) × P (message_of name template row v)

  -- Every row up to the offset is handled, and the offset is not beyond the rows there are.
  abbrev pub Upto : (Row F → Type 0) → List (Row F) → ℤ → Type 0
  Upto D table offset =
      All (λ row. pos row.id ≤ℤ offset → D row) table × (offset ≤ℤ pos (last_id 0 table))

  abbrev pub UptoStored : (Row F → Type 0) → List (Row F) → StoredOffset → Type 0
  UptoStored D table none = Unit
  UptoStored D table (some offset) = Upto D table offset

  pub Upto-map :
      (D E : Row F → Type 0) (table : List (Row F)) (offset : ℤ)
      → ((row : Row F) → D row → E row)
      → Upto D table offset
      → Upto E table offset
  Upto-map D E table offset f h = (All-map _ _ table (λ row g le. f row (g le)) h.0, h.1)

  pub UptoStored-map :
      (D E : Row F → Type 0) (table : List (Row F)) (stored : StoredOffset)
      → ((row : Row F) → D row → E row)
      → UptoStored D table stored
      → UptoStored E table stored
  UptoStored-map D E table none f h = tt
  UptoStored-map D E table (some offset) f h = Upto-map D E table offset f h

  Upto-max :
      (D : Row F → Type 0) (table : List (Row F)) (a b : ℤ)
      → Upto D table a
      → Upto D table b
      → Upto D table (max_ℤ a b)
  Upto-max D table a b ha hb = elim (Bool-cases (leb_ℤ a b)) [
    | inl up ↦ rw up hb
    | inr down ↦ rw down ha
  ]

  UptoStored-upsert :
      (D : Row F → Type 0) (table : List (Row F)) (stored : StoredOffset) (v : ℤ)
      → UptoStored D table stored
      → Upto D table v
      → UptoStored D table (some (upsert_offset stored v))
  UptoStored-upsert D table none v h k = k
  UptoStored-upsert D table (some old) v h k = Upto-max D table old v h k

  -- A live source's own offset and the stored one have only handled rows below them.
  pub record IsCovered (D : Row F → Type 0) (table : List (Row F)) (a : Acked) : Type 0 where
    pub live : a.source.replay_mode ≡ false → Upto D table a.source.last_offset
    pub stored : UptoStored D table a.stored

  pub IsCovered-map :
      (D E : Row F → Type 0) (table : List (Row F)) (a : Acked)
      → ((row : Row F) → D row → E row)
      → IsCovered D table a
      → IsCovered E table a
  IsCovered-map D E table a f h = record {
    live = λ mode. Upto-map D E table a.source.last_offset f (h.live mode);
    stored = UptoStored-map D E table a.stored f h.stored;
  }

  -- An acknowledgment of handled rows keeps them so, however it ends.
  pub IsAck-IsCovered :
      (D : Row F → Type 0) (table : List (Row F)) (a : Acked) (v : ℤ)
      (r : Result F (Unit {0}) × Acked)
      → IsAck a v r
      → (a.source.replay_mode ≡ false → Upto D table v)
      → IsCovered D table a
      → IsCovered D table r.1
  IsAck-IsCovered D table a v r k below c = elim (Bool-cases a.source.replay_mode) [
    | inl replay ↦ record {
      live = λ mode. cc (k.same_mode, mode, replay);
      stored = subst (UptoStored D table) (sym (k.replay_neutral replay).0) c.stored;
    }
    | inr live ↦ record {
      live = λ mode. elim k.offset_exact [
        | inl same ↦ subst (Upto D table) (sym same) (c.live live)
        | inr moved ↦
            subst (Upto D table) (sym moved)
              (Upto-max D table a.source.last_offset v (c.live live) (below live))
      ];
      stored = elim k.stored_exact [
        | inl same ↦ subst (UptoStored D table) (sym same) c.stored
        | inr moved ↦
            subst (UptoStored D table) (sym moved)
              (UptoStored-upsert D table a.stored v c.stored (below live))
      ];
    }
  ]

  -- A fenced query that succeeds returns what its selection does.
  fenced-select :
      (answers : PollAnswers F) (table : List (Row F)) (offset n : ℤ) (rows : List (Row F))
      → fenced_native_rows answers table offset n ≡ ok rows
      → select_after answers table offset n ≡ ok rows
  unfolding fenced_native_rows
  fenced-select answers table offset n rows h =
      let (a, _, h1) = >>=-eq-ok (or_postgres answers.begin_fault) _ h in
      let (b, _, h2) = >>=-eq-ok (or_fence answers.lock_fault) _ h1 in
      let (c, _, h3) = >>=-eq-ok (or_postgres answers.query_fault) _ h2 in
      let (found, selected, h4) = >>=-eq-ok (select_after answers table offset n) _ h3 in
      let (d, _, h5) = >>=-eq-ok (or_postgres answers.commit_fault) _ h4 in cc (selected, h5)

  handled :
      (P : RelayMessage F → Type 0) (name template : Text) (rows : List (Row F))
      (ms : List (RelayMessage F))
      → AreMessagesOf name template rows ms
      → All P ms
      → All (Handles P name template) rows
  handled P name template [] ms h p = tt
  handled P name template (row ∷ rows) ms (v, rest, e, h) p =
      let q = subst (All P) e p in ((v, q.0), handled P name template rows rest h q.1)

  -- The last message polled carries the id of the last row.
  last_token :
      (name template : Text) (d : ℕ) (rows : List (Row F)) (m : RelayMessage F)
      (ms : List (RelayMessage F))
      → AreMessagesOf name template rows (m ∷ ms)
      → (last : RelayMessage F) × (get_last? (m ∷ ms) ≡ some last)
        × (last.ack_token ≡ outbox_offset (pos (last_id d rows)))
  last_token name template d [] m ms h = cc
  last_token name template d (row ∷ []) m [] (v, rest, e, h) = (m, refl, cc e)
  last_token name template d (row ∷ []) m (n ∷ ms) (v, rest, e, h) = cc
  last_token name template d (row ∷ next ∷ rows) m [] (v, rest, e, (w, more, e2, h)) = cc
  last_token name template d (row ∷ next ∷ rows) m (n ∷ ms) (v, rest, e, h) =
      let same : rest ≡ n ∷ ms = cc e in
      last_token name template row.id (next ∷ rows) n ms
        (subst (AreMessagesOf name template (next ∷ rows)) same h)

  -- Every published row is handled or still in the table.
  abbrev pub Kept : (Row F → Type 0) → List (Row F) → List (Row F) → Type 0
  Kept D table published = All (λ row. D row ⊎ Occurs row table) published

  pub Kept-map :
      (D E : Row F → Type 0) (table published : List (Row F))
      → ((row : Row F) → D row → E row)
      → Kept D table published
      → Kept E table published
  Kept-map D E table published f h =
      All-map _ _ published (λ row k. elim k [ inl done ↦ inl (f row done) | inr here ↦ inr here ])
        h

  join :
      (D : Row F → Type 0) (offset : ℤ) (bound : ℕ) (table published : List (Row F))
      → All (λ row. ltb_ℤ offset (pos row.id) ≡ true → row.id ≤ bound → D row) table
      → All (λ row. pos row.id ≤ℤ offset → D row) published
      → Kept D table published
      → All (λ row. pos row.id ≤ℤ pos bound → D row) published
  join D offset bound table [] high low kept = tt
  join D offset bound table (row ∷ rows) high low kept = (
    (λ le. elim kept.0 [
      | inl done ↦ done
      | inr here ↦ elim (Bool-cases (ltb_ℤ offset (pos row.id))) [
        | inl above ↦
            All-lookup (λ r. ltb_ℤ offset (pos r.id) ≡ true → r.id ≤ bound → D r) table row high
              here above (ground (arith, le))
        | inr below ↦ low.0 (ground (arith, below))
      ]
    ]),
    join D offset bound table rows high low.1 kept.1,
  )

  pub last_id_mono : (c d : ℕ) (rows : List (Row F)) → c ≤ d → last_id c rows ≤ last_id d rows
  last_id_mono c d [] h = h
  last_id_mono c d (r ∷ rs) h = omega arith

  pub last_id-Above : (d : ℕ) (rows : List (Row F)) → Above d rows → d ≤ last_id d rows
  last_id-Above d [] a = omega arith
  last_id-Above d (r ∷ rs) a = omega (arith, a.0, last_id-Above r.id rs a.1)

  last_id-select :
      (q : Row F → Bool) (n d : ℕ) (rows : List (Row F))
      → Above d rows
      → last_id d (take n (filter q rows)) ≤ last_id d rows
  last_id-select q zero d rows a = last_id-Above d rows a
  last_id-select q (suc n) d [] a = omega arith
  last_id-select q (suc n) d (r ∷ rs) a = elim (Bool-cases (q r)) [
    | inl hit ↦ rw hit (last_id-select q n r.id rs a.1)
    | inr miss ↦
        let before =
          last_id-select q (suc n) d rs (Above-mono d r.id rs (omega (arith, a.0)) a.1) in
        let after = last_id_mono d r.id rs (omega (arith, a.0)) in
        rw miss (omega (arith, before, after))
  ]

  -- Handling the rows that a query selects extends what is handled up to the last of them.
  select-Upto :
      (D : Row F → Type 0) (answers : PollAnswers F) (table published rows : List (Row F))
      (offset n : ℤ)
      → Above 0 table
      → last_id 0 table ≤ last_id 0 published
      → select_after answers table offset n ≡ ok rows
      → Kept D table published
      → Upto D published offset
      → All D rows
      → Upto D published (pos (last_id 0 rows))
  unfolding select_after
  select-Upto D answers table published rows offset (negsuc n) sorted within e kept low done = cc
  select-Upto D answers table published rows offset (pos n) sorted within e kept low done =
      let q : Row F → Bool = λ r. ltb_ℤ offset (pos r.id) in
      let found : take n (filter q table) ≡ rows = cc e in
      let last = last_id-select q n 0 table sorted in
      subst (λ rs. Upto D published (pos (last_id 0 rs))) found
        (
          join D offset _ table published
              (take-covers D q n 0 table sorted (subst (All D) (sym found) done)) low.0 kept,
          omega (arith, last, within),
        )

  -- What a poll of the table that returns messages says of all rows ever published: the last
  -- message has a token, and once all messages are handled, every published row up to it is.
  pub record IsBatch (source : OutboxPollerSource) (table published : List (Row F))
      (ms : List (RelayMessage F)) : Type 1 where
    pub token : ℤ
    pub last : RelayMessage F
    pub is_last : get_last? ms ≡ some last
    pub has_token : last.ack_token ≡ outbox_offset token
    pub extends :
        (P : RelayMessage F → Type 0)
        → Kept (Handles P source.outbox_name source.subject_template) table published
        → Upto (Handles P source.outbox_name source.subject_template) published source.last_offset
        → All P ms
        → Upto (Handles P source.outbox_name source.subject_template) published token

  -- A poll of the table that returns messages leaves out no row: the last message's token is an
  -- offset such that, if the published rows that are gone from the table are handled and so is every
  -- one up to the source's own offset, handling the messages handles every published row up to it.
  pub poll-IsBatch :
      (source : OutboxPollerSource) (answers : PollAnswers F) (table published : List (Row F))
      (n : ℤ) (m : RelayMessage F) (ms : List (RelayMessage F))
      → Above 0 table
      → last_id 0 table ≤ last_id 0 published
      → (poll source answers table n).0 ≡ ok (m ∷ ms)
      → IsBatch source table published (m ∷ ms)
  unfolding poll
  poll-IsBatch source answers table published n m ms sorted within e =
      let (rows, fenced, decoded) =
        >>=-eq-ok (fenced_native_rows answers table source.last_offset n)
          (rows_messages answers.large_object source.outbox_name source.subject_template) e in
      let found = fenced-select answers table source.last_offset n rows fenced in
      let are =
        rows_messages-AreMessagesOf answers.large_object source.outbox_name source.subject_template
          rows (m ∷ ms) decoded in
      let (last, is_last, has_token) =
        last_token source.outbox_name source.subject_template 0 rows m ms are in
      record {
        token = pos (last_id 0 rows);
        last = last;
        is_last = is_last;
        has_token = has_token;
        extends = λ P kept low done.
            select-Upto (Handles P source.outbox_name source.subject_template) answers table
              published rows source.last_offset n sorted within found kept low
              (handled P source.outbox_name source.subject_template rows (m ∷ ms) are done);
      }
