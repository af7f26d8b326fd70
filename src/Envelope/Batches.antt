-- ===== src/Envelope/Batches.antt =====
-- The messages of one outbox row.
use pg_tide.Prelude.{
  ℕ, zero, suc, ◌+◌, ◌<◌, ◌≡◌, refl, sym, ◌≢◌, ap, ◌∙◌, Bool, false, List, [], ◌∷◌, ◌++◌, length,
  All, All-append, some, arith, map,
}
use mathlib.Core.List.{map-append}
use pg_tide.Prelude.Int.{ℤ}
use pg_tide.Prelude.Text.{Text, text}
use pg_tide.Foreign.{Foreign}
use pg_tide.Envelope.Keys.{dedup_key_of-injective}
use pg_tide.Envelope.{
  RelayMessage, no_token, render_subject, OutboxBatch, dedup_key_of, new_forward, messages_of,
  into_messages,
}

-- No text of the list occurs twice.
abbrev pub IsDistinct : List Text → Type 0
IsDistinct [] = Unit
IsDistinct (k ∷ ks) = All (λ j. k ≢ j) ks × IsDistinct ks

-- The keys of the row indexes from `i` on, as many as the number says.
abbrev pub keys_from : Text → ℤ → ℕ → ℕ → List Text
keys_from t id i zero = []
keys_from t id i (suc n) = dedup_key_of t id i ∷ keys_from t id (i + 1) n

keys_from-fresh :
    (t : Text) (id : ℤ) (i j n : ℕ)
    → i < j
    → All (λ k. dedup_key_of t id i ≢ k) (keys_from t id j n)
keys_from-fresh t id i j zero h = tt
keys_from-fresh t id i j (suc n) h = (
  λ e. omega (arith, (dedup_key_of-injective t t id id i j e).2),
  keys_from-fresh t id i (j + 1) n (omega arith),
)

keys_from-IsDistinct : (t : Text) (id : ℤ) (i n : ℕ) → IsDistinct (keys_from t id i n)
keys_from-IsDistinct t id i zero = tt
keys_from-IsDistinct t id i (suc n) =
    (keys_from-fresh t id i (i + 1) n (omega arith), keys_from-IsDistinct t id (i + 1) n)

keys_from-append :
    (t : Text) (id : ℤ) (i m n : ℕ)
    → keys_from t id i (m + n) ≡ keys_from t id i m ++ keys_from t id (i + m) n
keys_from-append t id i zero n =
    let left : 0 + n ≡ n = omega arith in let right : i + 0 ≡ i = omega arith in rw (left, right)
keys_from-append t id i (suc m) n =
    let left : suc m + n ≡ suc (m + n) = omega arith in
    let right : i + suc m ≡ i + 1 + m = omega arith in
    rw (left, right)
      (ap (λ (ks : List Text). dedup_key_of t id i ∷ ks) (keys_from-append t id (i + 1) m n))

module _ {F : Foreign} (b : OutboxBatch F) (t template : Text) where
  abbrev pub keys : List (RelayMessage F) → List Text
  keys ms = map (λ m. m.dedup_key) ms

  keys-messages_of :
      (op : Text) (full : Bool) (i : ℕ) (rows : List F.Value)
      → keys (messages_of b t template op full i rows) ≡ keys_from t b.batch_id i (length rows)
  unfolding messages_of new_forward
  keys-messages_of op full i [] = refl
  keys-messages_of op full i (row ∷ rows) =
      ap (λ ks. dedup_key_of t b.batch_id i ∷ ks) (keys-messages_of op full (i + 1) rows)

  keys-into_messages :
      keys (into_messages b t template)
      ≡ keys_from t b.batch_id 0 (length b.inserted + length b.deleted)
  unfolding into_messages
  keys-into_messages =
      map-append _ (messages_of b t template (text "insert") b.full_refresh 0 b.inserted) _
      ∙ rw
          (
            keys-messages_of (text "insert") b.full_refresh 0 b.inserted,
            keys-messages_of (text "delete") false (length b.inserted) b.deleted,
          )
          (let start : 0 + length b.inserted ≡ length b.inserted = omega arith in
            sym (
              rw start at (keys_from-append t b.batch_id 0 (length b.inserted) (length b.deleted))))

  -- The values of a row with their operation and whether they are of a full refresh, inserted
  -- values first.
  abbrev pub changes : List (Text × Bool × F.Value)
  changes =
      map (λ value. (text "insert", b.full_refresh, value)) b.inserted
      ++ map (λ value. (text "delete", false, value)) b.deleted

  abbrev pub change_of : RelayMessage F → Text × Bool × F.Value
  change_of m = (m.op, m.is_full_refresh, m.payload)

  -- What every message of the row has in common.
  pub record IsOfRow (m : RelayMessage F) : Type 0 where
    pub same_id : m.outbox_id ≡ some b.batch_id
    pub same_refresh : m.refresh_id ≡ b.batch_refresh
    pub on_subject : m.subject ≡ render_subject F template t m.op b.batch_id b.batch_refresh
    pub unacknowledged : m.ack_token ≡ no_token

  changes-messages_of :
      (op : Text) (full : Bool) (i : ℕ) (rows : List F.Value)
      → map change_of (messages_of b t template op full i rows)
        ≡ map (λ value. (op, full, value)) rows
  unfolding messages_of new_forward
  changes-messages_of op full i [] = refl
  changes-messages_of op full i (row ∷ rows) =
      ap (λ cs. (op, full, row) ∷ cs) (changes-messages_of op full (i + 1) rows)

  messages_of-IsOfRow :
      (op : Text) (full : Bool) (i : ℕ) (rows : List F.Value)
      → All IsOfRow (messages_of b t template op full i rows)
  unfolding messages_of new_forward
  messages_of-IsOfRow op full i [] = tt
  messages_of-IsOfRow op full i (row ∷ rows) = (
    record { same_id = refl; same_refresh = refl; on_subject = refl; unacknowledged = refl },
    messages_of-IsOfRow op full (i + 1) rows,
  )

  -- The messages of a row are one for each inserted and then for each deleted value, in the order
  -- of the values: each has its value as payload, its operation, and the mark of a full refresh,
  -- which a deletion never has. Each has the id and the refresh of the row, the subject of the
  -- template for its operation, and nothing to acknowledge yet. Their keys are those of the row
  -- indexes 0, 1, 2, …, and no two have the same key.
  pub into_messages-changes :
      (map change_of (into_messages b t template) ≡ changes)
      × All IsOfRow (into_messages b t template)
      × (keys (into_messages b t template)
          ≡ keys_from t b.batch_id 0 (length b.inserted + length b.deleted))
      × IsDistinct (keys (into_messages b t template))
  unfolding into_messages
  into_messages-changes = (
    map-append change_of (messages_of b t template (text "insert") b.full_refresh 0 b.inserted) _
        ∙ rw
            (
              changes-messages_of (text "insert") b.full_refresh 0 b.inserted,
              changes-messages_of (text "delete") false (length b.inserted) b.deleted,
            )
            refl,
    All-append IsOfRow (messages_of b t template (text "insert") b.full_refresh 0 b.inserted) _
        (messages_of-IsOfRow (text "delete") false (length b.inserted) b.deleted)
        (messages_of-IsOfRow (text "insert") b.full_refresh 0 b.inserted),
    keys-into_messages,
    rw keys-into_messages (keys_from-IsDistinct t b.batch_id 0 _),
  )
