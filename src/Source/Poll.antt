-- ===== src/Source/Poll.antt =====
-- pg-tide-relay/src/source/outbox.rs: the source, its poll and the start of a replay.
use pg_tide.Prelude.{
  Bool, true, Option, none, some, List, [], ◌∷◌, ◌++◌, if◌then◌else◌, take, filter, map,
}
use pg_tide.Prelude.Int.{ℤ, pos, negsuc, ltb_ℤ, saturating_pred}
use pg_tide.Prelude.Text.{Text, text}
use pg_tide.Foreign.{Foreign}
use pg_tide.Errors.{Result, ok, err, postgres, other, invalid_config, ◌>>=◌, ◌>>◌}
use pg_tide.Envelope.{outbox_offset, RelayMessage, into_messages}
use pg_tide.Source.Rows.{
  Row, PollAnswers, or_postgres, parsed, pending_of, claim_check, claim_oid, decode_payload,
}

pub record OutboxPollerSource : Type 0 where
  pub outbox_name : Text
  pub subject_template : Text
  pub pipeline_id : Text
  pub last_offset : ℤ
  pub pending_cc_oids : List ℤ
  pub replay_mode : Bool

module _ {F : Foreign} where
  open F use {Value, Error, error_text}

  abbrev pub or_fence : Option Error → Result F (Unit {0})
  or_fence none = ok tt
  or_fence (some e) = err (other (text "acquire outbox fence failed: " ++ error_text e))

  -- `WHERE id > $2 ORDER BY id LIMIT $3`.
  unfoldable pub select_after : PollAnswers F → List (Row F) → ℤ → ℤ → Result F (List (Row F))
  select_after answers table last_offset (pos n) =
      ok (take n (filter (λ r. ltb_ℤ last_offset (pos r.id)) table))
  select_after answers table last_offset (negsuc n) = err (postgres answers.negative_limit)

  -- The rows of one poll: the fence is taken in a transaction around the query.
  unfoldable pub fenced_native_rows : PollAnswers F → List (Row F) → ℤ → ℤ → Result F (List (Row F))
  fenced_native_rows answers table last_offset batch_size = do
    or_postgres answers.begin_fault
    or_fence answers.lock_fault
    or_postgres answers.query_fault
    rows ← select_after answers table last_offset batch_size
    or_postgres answers.commit_fault
    ok rows

  -- `last.ack_token = …` on the last message of a row.
  unfoldable pub set_last_token : ℤ → List (RelayMessage F) → List (RelayMessage F)
  set_last_token id [] = []
  set_last_token id (m ∷ []) = record m { ack_token = outbox_offset id } ∷ []
  set_last_token id (m ∷ n ∷ ms) = m ∷ set_last_token id (n ∷ ms)

  stamp : Text → Row F → RelayMessage F → RelayMessage F
  stamp outbox_name row m = record m {
    outbox_name = some outbox_name;
    headers = row.headers;
    created_at = row.created_at;
  }

  -- The body of the loop of `poll_simple_native`, without the pending list.
  unfoldable pub row_messages :
      (ℤ → Result F Value) → Text → Text → Row F → Result F (List (RelayMessage F))
  unfolding stamp set_last_token
  row_messages large_object outbox_name subject_template row = do
    batch ← decode_payload large_object row.payload (pos row.id)
    ok (
        set_last_token (pos row.id) (
          map (stamp outbox_name row)
            (into_messages batch (text "outbox_" ++ outbox_name) subject_template)))

  unfoldable pub rows_messages :
      (ℤ → Result F Value) → Text → Text → List (Row F) → Result F (List (RelayMessage F))
  rows_messages large_object outbox_name subject_template [] = ok []
  rows_messages large_object outbox_name subject_template (row ∷ rows) = do
    messages ← row_messages large_object outbox_name subject_template row
    rest ← rows_messages large_object outbox_name subject_template rows
    ok (messages ++ rest)

  -- The pending list after the loop, which stops at the first row that fails to decode.
  unfoldable pub rows_pending : (ℤ → Result F Value) → List (Row F) → List ℤ
  rows_pending large_object [] = []
  rows_pending large_object (row ∷ rows) =
      pending_of (parsed (claim_oid F row.payload)) (claim_check F row.payload)
      ++ elim (decode_payload large_object row.payload (pos row.id)) [
        | ok batch ↦ rows_pending large_object rows
        | err e ↦ []
      ]

  abbrev pub pending_after : (ℤ → Result F Value) → Result F (List (Row F)) → List ℤ
  pending_after large_object (ok rows) = rows_pending large_object rows
  pending_after large_object (err e) = []

  -- `Source::poll`, by way of `poll_simple_native`.
  unfoldable pub poll :
      OutboxPollerSource
      → PollAnswers F
      → List (Row F)
      → ℤ
      → Result F (List (RelayMessage F)) × OutboxPollerSource
  unfolding rows_messages
  poll source answers table batch_size =
      let rows = fenced_native_rows answers table source.last_offset batch_size in
      (
        rows >>= (rows_messages answers.large_object source.outbox_name source.subject_template),
        record source { pending_cc_oids = pending_after answers.large_object rows },
      )

  -- `Source::configure_replay`.
  unfoldable pub configure_replay :
      OutboxPollerSource → ℤ → Result F (Unit {0}) × OutboxPollerSource
  configure_replay source from_offset =
      if ltb_ℤ from_offset (pos 0)
      then (
        err (invalid_config source.pipeline_id (text "replay from_offset must be non-negative")),
        source,
      )
      else (ok tt, record source { replay_mode = true; last_offset = saturating_pred from_offset })
