-- ===== src/Source/Order.antt =====
-- What a poll returns: the rows just after the offset, in order and without a gap.
use pg_tide.Prelude.{
  ℕ, zero, suc, ◌≤◌, ◌<◌, ◌≡◌, sym, subst, Bool, true, false, none, some, List, [], ◌∷◌, ◌++◌,
  arith, All, take, filter, Bool-cases, inl, inr, unwrap_or,
}
use pg_tide.Prelude.Int.{ℤ, pos}
use pg_tide.Prelude.Text.{Text, text}
use pg_tide.Foreign.{Foreign}
use pg_tide.Errors.{Result, ok, >>=-eq-ok, ◌>>=◌}
use pg_tide.Envelope.{
  OutboxBatch, outbox_offset, RelayMessage, dedup_key_of, render_subject, into_messages,
  messages_of, new_forward,
}
use pg_tide.Source.Rows.{
  Row, plain, decode_claim, claimed_oid, decode_payload, claim_check, claim_oid,
}
use pg_tide.Source.Poll.{row_messages, rows_messages}

module _ {F : Foreign} where
  -- The rows have increasing ids, all above a bound.
  abbrev pub Above : ℕ → List (Row F) → Type 0
  Above d [] = Unit
  Above d (r ∷ rs) = (d < r.id) × Above r.id rs

  abbrev pub last_id : ℕ → List (Row F) → ℕ
  last_id d [] = d
  last_id d (r ∷ rs) = last_id r.id rs

  pub Above-mono : (c d : ℕ) (rs : List (Row F)) → c ≤ d → Above d rs → Above c rs
  Above-mono c d [] h a = tt
  Above-mono c d (r ∷ rs) h a = (omega arith, a.1)

  Above-All : (d : ℕ) (rs : List (Row F)) → Above d rs → All (λ r. d < r.id) rs
  Above-All d [] a = tt
  Above-All d (r ∷ rs) a = (a.0, Above-All d rs (Above-mono d r.id rs (omega arith) a.1))

  beyond {ℓ} :
      (P : Row F → Type ℓ) (q : Row F → Bool) (d : ℕ) (rs : List (Row F))
      → All (λ r. d < r.id) rs
      → All (λ r. q r ≡ true → r.id ≤ d → P r) rs
  beyond P q d [] h = tt
  beyond P q d (r ∷ rs) h = ((λ k le. absurd (omega (arith, h.0))), beyond P q d rs h.1)

  -- What the batch has in common, every row that passes the test up to its last one has.
  abbrev pub Covered {ℓ} :
      (Row F → Type ℓ) → (Row F → Bool) → ℕ → List (Row F) → List (Row F) → Type ℓ
  Covered P q d rs batch = All (λ r. q r ≡ true → r.id ≤ last_id d batch → P r) rs

  -- Whatever holds of the first `n` rows that pass a test holds of every row that passes it up to
  -- the last of those.
  pub take-covers {ℓ} :
      (P : Row F → Type ℓ) (q : Row F → Bool) (n d : ℕ) (rs : List (Row F))
      → Above d rs
      → All P (take n (filter q rs))
      → Covered P q d rs (take n (filter q rs))
  take-covers P q n d [] a h = tt
  take-covers P q zero d (r ∷ rs) a h = beyond P q d (r ∷ rs) (Above-All d (r ∷ rs) a)
  take-covers P q (suc n) d (r ∷ rs) a h = elim (Bool-cases (q r)) [
    | inl hit ↦
        let e : take (suc n) (filter q (r ∷ rs)) ≡ r ∷ take n (filter q rs) = rw hit in
        let batch : All P (r ∷ take n (filter q rs)) = subst (All P) e h in
        subst (Covered P q d (r ∷ rs)) (sym e)
          ((λ k le. batch.0), take-covers P q n r.id rs a.1 batch.1)
    | inr miss ↦
        let e : take (suc n) (filter q (r ∷ rs)) ≡ take (suc n) (filter q rs) = rw miss in
        subst (Covered P q d (r ∷ rs)) (sym e) (
          (λ k le. cc miss),
          take-covers P q (suc n) d rs (Above-mono d r.id rs (omega (arith, a.0)) a.1)
              (subst (All P) e h),
        )
  ]

  -- Decoding keeps one value of the row, whether it stands there or is claimed.
  decode_claim-plain :
      (large_object : ℤ → Result F F.Value) (payload : F.Value) (id : ℤ) (b : OutboxBatch F)
      → decode_claim large_object payload id ≡ ok b
      → (v : F.Value) × (b ≡ plain v id)
  unfolding decode_claim
  decode_claim-plain large_object payload id b h =
      let (oid, _, fetched) =
        >>=-eq-ok (claimed_oid (claim_oid F payload))
          (λ oid. large_object oid >>= λ v. ok (plain v id)) h in
      let (v, _, done) = >>=-eq-ok (large_object oid) (λ v. ok (plain v id)) fetched in (v, cc done)

  decode_payload-plain :
      (large_object : ℤ → Result F F.Value) (payload : F.Value) (id : ℤ) (b : OutboxBatch F)
      → decode_payload large_object payload id ≡ ok b
      → (v : F.Value) × (b ≡ plain v id)
  unfolding decode_payload
  decode_payload-plain large_object payload id b h =
      elim (Bool-cases (unwrap_or (claim_check F payload) false)) [
        | inl claimed ↦
            let claim : decode_claim large_object payload id ≡ ok b = rw claimed at h in
            decode_claim-plain large_object payload id b claim
        | inr inline ↦ (payload, cc (rw inline at h))
      ]

  -- The message of a row whose payload decodes to a value.
  abbrev pub message_of : Text → Text → Row F → F.Value → RelayMessage F
  message_of outbox_name template row v = record {
    dedup_key = dedup_key_of (text "outbox_" ++ outbox_name) (pos row.id) 0;
    subject =
        render_subject F template (text "outbox_" ++ outbox_name) (text "insert") (pos row.id) none;
    payload = v;
    op = text "insert";
    is_full_refresh = false;
    outbox_id = some (pos row.id);
    refresh_id = none;
    outbox_name = some outbox_name;
    headers = row.headers;
    created_at = row.created_at;
    ack_token = outbox_offset (pos row.id);
  }

  -- Each row gives one message.
  abbrev pub AreMessagesOf : Text → Text → List (Row F) → List (RelayMessage F) → Type 0
  AreMessagesOf name template [] ms = ms ≡ []
  AreMessagesOf name template (row ∷ rows) ms =
      (v : F.Value) × (rest : List (RelayMessage F)) × (ms ≡ message_of name template row v ∷ rest)
      × AreMessagesOf name template rows rest

  row_messages_lem :
      (large_object : ℤ → Result F F.Value) (name template : Text) (row : Row F)
      (ms : List (RelayMessage F))
      → row_messages large_object name template row ≡ ok ms
      → (v : F.Value) × (ms ≡ message_of name template row v ∷ [])
  unfolding row_messages into_messages messages_of new_forward plain
  row_messages_lem large_object name template row ms h =
      let (b, decoded, done) =
        >>=-eq-ok (decode_payload large_object row.payload (pos row.id)) _ h in
      let (v, e) = decode_payload-plain large_object row.payload (pos row.id) b decoded in
      (v, cc (rw e at done))

  pub rows_messages-AreMessagesOf :
      (large_object : ℤ → Result F F.Value) (name template : Text) (rows : List (Row F))
      (ms : List (RelayMessage F))
      → rows_messages large_object name template rows ≡ ok ms
      → AreMessagesOf name template rows ms
  unfolding rows_messages
  rows_messages-AreMessagesOf large_object name template [] ms h = cc
  rows_messages-AreMessagesOf large_object name template (row ∷ rows) ms h =
      let (first, one, more) = >>=-eq-ok (row_messages large_object name template row) _ h in
      let (rest, others, done) =
        >>=-eq-ok (rows_messages large_object name template rows) (λ rest. ok (first ++ rest))
          more in
      let (v, e) = row_messages_lem large_object name template row first one in
      (
        v,
        rest,
        cc (rw e at done),
        rows_messages-AreMessagesOf large_object name template rows rest others,
      )
