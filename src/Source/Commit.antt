-- ===== src/Source/Commit.antt =====
-- pg-tide-relay/src/source/outbox.rs: the stored offset and the acknowledgment of a batch.
use pg_tide.Prelude.{false, Option, none, some, List, [], ◌++◌, if◌then◌else◌, unwrap_or}
use pg_tide.Prelude.Int.{ℤ, pos, ltb_ℤ, leb_ℤ, max_ℤ}
use pg_tide.Prelude.Text.{Text, text}
use pg_tide.Foreign.{Foreign}
use pg_tide.Errors.{Result, ok, err, postgres, other, ◌>>=◌}
use pg_tide.Envelope.{AckToken, no_token, outbox_offset, RelayMessage}
use pg_tide.Source.Poll.{OutboxPollerSource}

-- What the database answers to the statement that commits an offset: an error can come before the
-- upsert took effect or after.
pub data OffsetAnswer (F : Foreign) : Type 0 where
  written zero_rows : OffsetAnswer F
  lost_before lost_after : F.Error → OffsetAnswer F

-- The row of `tide.relay_consumer_offsets` for this group, pipeline and outbox.
abbrev pub StoredOffset : Type 0
StoredOffset = Option ℤ

-- `INSERT … ON CONFLICT … DO UPDATE SET last_change_id = GREATEST(…)`.
abbrev pub upsert_offset : StoredOffset → ℤ → ℤ
upsert_offset none v = v
upsert_offset (some old) v = max_ℤ old v

module _ {F : Foreign} where
  -- The test of the row that the upsert returns.
  unfoldable pub confirm_offset : Option ℤ → ℤ → Result F (Unit {0})
  confirm_offset none v = err (other (text "offset commit wrote zero rows"))
  confirm_offset (some stored) v =
      if leb_ℤ v stored then ok tt else err (other (text "offset commit moved backwards"))

  unfoldable pub write_offset :
      OffsetAnswer F → StoredOffset → ℤ → Result F (Unit {0}) × StoredOffset
  unfolding confirm_offset
  write_offset written stored v =
      (confirm_offset (some (upsert_offset stored v)) v, some (upsert_offset stored v))
  write_offset zero_rows stored v = (confirm_offset none v, stored)
  write_offset (lost_before e) stored v = (err (postgres e), stored)
  write_offset (lost_after e) stored v = (err (postgres e), some (upsert_offset stored v))

  unfoldable pub update_simple_offset :
      OffsetAnswer F → Text → StoredOffset → ℤ → Result F (Unit {0}) × StoredOffset
  unfolding write_offset
  update_simple_offset answer pipeline_id stored v =
      if ltb_ℤ v (pos 0)
      then (
        err (
            other (
              text "relay offset for pipeline '"
              ++ (pipeline_id ++ text "' must be non-negative"))),
        stored,
      )
      else write_offset answer stored v

module _ {F : Foreign} where
  -- `load_offset`, with the fault of its query.
  abbrev pub load_offset : Option F.Error → StoredOffset → Result F ℤ
  load_offset (some e) stored = err (postgres e)
  load_offset none stored = ok (unwrap_or stored (pos 0))

  -- `OutboxPollerSource::new_simple_native`.
  unfoldable pub new_simple_native :
      Text → Text → Text → Option F.Error → StoredOffset → Result F OutboxPollerSource
  new_simple_native outbox_name subject_template pipeline_id fault stored = do
    last_offset ← load_offset fault stored
    ok (record {
      outbox_name = outbox_name;
      subject_template = subject_template;
      pipeline_id = pipeline_id;
      last_offset = last_offset;
      pending_cc_oids = [];
      replay_mode = false;
    })

-- The source with what its acknowledgments wrote: the stored offset and the large objects whose
-- unlinking was asked for (a failure of that is only logged).
pub record Acked : Type 0 where
  pub source : OutboxPollerSource
  pub stored : StoredOffset
  pub unlinked : List ℤ

-- The second half of `acknowledge`.
abbrev pub release_claims : Acked → Acked
release_claims a =
    if a.source.replay_mode
    then record a { source = record a.source { pending_cc_oids = [] } }
    else record a {
      source = record a.source { pending_cc_oids = [] };
      unlinked = a.unlinked ++ a.source.pending_cc_oids;
    }

abbrev pub advance : Acked → ℤ → Acked
advance a offset = record a {
  source = record a.source { last_offset = max_ℤ a.source.last_offset offset };
}

module _ {F : Foreign} where
  abbrev pub after_write :
      Acked → ℤ → Result F (Unit {0}) × StoredOffset → Result F (Unit {0}) × Acked
  after_write a offset (ok _, stored) =
      (ok tt, release_claims (advance (record a { stored = stored }) offset))
  after_write a offset (err e, stored) = (err e, record a { stored = stored })

  unfoldable pub acknowledge_token : OffsetAnswer F → Acked → AckToken → Result F (Unit {0}) × Acked
  acknowledge_token answer a no_token = (ok tt, release_claims a)
  acknowledge_token answer a (outbox_offset offset) =
      if a.source.replay_mode
      then (ok tt, release_claims (advance a offset))
      else after_write a offset (update_simple_offset answer a.source.pipeline_id a.stored offset)

  -- `Source::acknowledge`.
  unfoldable pub acknowledge : OffsetAnswer F → Acked → RelayMessage F → Result F (Unit {0}) × Acked
  unfolding acknowledge_token
  acknowledge answer a last_message = acknowledge_token answer a last_message.ack_token
