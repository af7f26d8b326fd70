-- ===== src/Source/Offsets.antt =====
-- Offsets only move forward, and a replay leaves the stored one alone.
use pg_tide.Prelude.{
  ◌≡◌, refl, sym, ◌∙◌, subst, Bool, true, false, none, some, arith, ◌⊎◌, inl, inr, if◌then◌else◌,
  Bool-cases,
}
use pg_tide.Prelude.Int.{ℤ, pos, ltb_ℤ, max_ℤ, ◌≤ℤ◌}
use pg_tide.Prelude.Text.{Text}
use pg_tide.Foreign.{Foreign}
use pg_tide.Errors.{Result, ok, err}
use pg_tide.Envelope.{outbox_offset, RelayMessage}
use pg_tide.Source.Commit.{
  OffsetAnswer, written, zero_rows, lost_before, lost_after, StoredOffset, upsert_offset,
  update_simple_offset, write_offset, acknowledge_token, Acked, release_claims, advance,
  acknowledge, after_write,
}

-- The stored offset is kept or grows.
abbrev pub Grows : StoredOffset → StoredOffset → Type 0
Grows none new = Unit
Grows (some u) none = ⊥
Grows (some u) (some w) = u ≤ℤ w

pub Grows-refl : (s : StoredOffset) → Grows s s
Grows-refl none = tt
Grows-refl (some u) = omega arith

Grows-upsert : (s : StoredOffset) (v : ℤ) → Grows s (some (upsert_offset s v))
Grows-upsert none v = tt
Grows-upsert (some u) v = ground arith

upsert_covers : (s : StoredOffset) (v : ℤ) → v ≤ℤ upsert_offset s v
upsert_covers none v = omega arith
upsert_covers (some u) v = ground arith

-- Releasing the claims changes neither offset, and unlinks nothing in a replay.
pub record IsRelease (a b : Acked) : Type 0 where
  pub stored : b.stored ≡ a.stored
  pub offset : b.source.last_offset ≡ a.source.last_offset
  pub mode : b.source.replay_mode ≡ a.source.replay_mode
  pub unlinked : a.source.replay_mode ≡ true → b.unlinked ≡ a.unlinked
  pub names :
      (b.source.outbox_name ≡ a.source.outbox_name)
      × (b.source.subject_template ≡ a.source.subject_template)

pub release_claims-IsRelease : (a : Acked) → IsRelease a (release_claims a)
release_claims-IsRelease a = elim (Bool-cases a.source.replay_mode) [
  | inl replay ↦ record {
    stored = ground arith;
    offset = ground arith;
    mode = ground arith;
    unlinked = λ r. ground arith;
    names = ground arith;
  }
  | inr live ↦ record {
    stored = ground arith;
    offset = ground arith;
    mode = ground arith;
    unlinked = λ r. ground arith;
    names = ground arith;
  }
]

module _ {F : Foreign} where
  -- Writing an offset.
  pub record IsWrite (stored : StoredOffset) (v : ℤ) (r : Result F (Unit {0}) × StoredOffset)
      : Type 0 where
    pub forward : Grows stored r.1
    pub exact : (r.1 ≡ stored) ⊎ (r.1 ≡ some (upsert_offset stored v))
    pub covers : r.0 ≡ ok tt → (r.1 ≡ some (upsert_offset stored v))

  write_offset-IsWrite :
      (answer : OffsetAnswer F) (stored : StoredOffset) (v : ℤ)
      → IsWrite stored v (write_offset answer stored v)
  unfolding write_offset
  write_offset-IsWrite written stored v = record {
    forward = Grows-upsert stored v;
    exact = inr refl;
    covers = λ h. refl;
  }
  write_offset-IsWrite zero_rows stored v = record {
    forward = Grows-refl stored;
    exact = inl refl;
    covers = λ h. cc h;
  }
  write_offset-IsWrite (lost_before e) stored v = record {
    forward = Grows-refl stored;
    exact = inl refl;
    covers = λ h. cc h;
  }
  write_offset-IsWrite (lost_after e) stored v = record {
    forward = Grows-upsert stored v;
    exact = inr refl;
    covers = λ h. refl;
  }

  -- Whatever the database answers, a commit of an offset leaves the stored one as it was or sets it
  -- to the greater of the two, so it never moves back; and a commit that succeeds has set it.
  pub update_simple_offset-IsWrite :
      (answer : OffsetAnswer F) (pipeline_id : Text) (stored : StoredOffset) (v : ℤ)
      → IsWrite stored v (update_simple_offset answer pipeline_id stored v)
  unfolding update_simple_offset
  update_simple_offset-IsWrite answer pipeline_id stored v = elim (Bool-cases (ltb_ℤ v (pos 0))) [
    | inl negative ↦
        rw negative (record { forward = Grows-refl stored; exact = inl refl; covers = λ h. cc h })
    | inr fine ↦ rw fine (write_offset-IsWrite answer stored v)
  ]

  -- What an acknowledgment of offset `v` does to the source and to what is stored.
  pub record IsAck (a : Acked) (v : ℤ) (r : Result F (Unit {0}) × Acked) : Type 0 where
    pub stored_forward : Grows a.stored r.1.stored
    pub stored_exact : (r.1.stored ≡ a.stored) ⊎ (r.1.stored ≡ some (upsert_offset a.stored v))
    pub offset_exact :
        (r.1.source.last_offset ≡ a.source.last_offset)
        ⊎ (r.1.source.last_offset ≡ max_ℤ a.source.last_offset v)
    pub done : r.0 ≡ ok tt → r.1.source.last_offset ≡ max_ℤ a.source.last_offset v
    pub stored_done :
        a.source.replay_mode ≡ false → r.0 ≡ ok tt → r.1.stored ≡ some (upsert_offset a.stored v)
    pub same_mode : r.1.source.replay_mode ≡ a.source.replay_mode
    pub same_names :
        (r.1.source.outbox_name ≡ a.source.outbox_name)
        × (r.1.source.subject_template ≡ a.source.subject_template)
    pub replay_neutral :
        a.source.replay_mode ≡ true → (r.1.stored ≡ a.stored) × (r.1.unlinked ≡ a.unlinked)

  after_write-IsAck :
      (a : Acked) (v : ℤ) (r : Result F (Unit {0}) × StoredOffset)
      → a.source.replay_mode ≡ false
      → IsWrite a.stored v r
      → IsAck a v (after_write a v r)
  after_write-IsAck a v (ok x, stored) live w =
      let k = release_claims-IsRelease (advance (record a { stored = stored }) v) in
      record {
        stored_forward = subst (Grows a.stored) (sym k.stored) w.forward;
        stored_exact = ground (arith, w.exact);
        offset_exact = inr k.offset;
        done = λ h. k.offset;
        stored_done = λ on h. k.stored ∙ w.covers refl;
        same_mode = k.mode;
        same_names = k.names;
        replay_neutral = λ h. cc;
      }
  after_write-IsAck a v (err e, stored) live w = record {
    stored_forward = w.forward;
    stored_exact = w.exact;
    offset_exact = inl refl;
    done = λ h. cc;
    stored_done = λ on h. cc;
    same_mode = refl;
    same_names = (refl, refl);
    replay_neutral = λ h. cc;
  }

  by_mode :
      (answer : OffsetAnswer F) (a : Acked) (v : ℤ) (replay : Bool)
      → a.source.replay_mode ≡ replay
      → IsAck a v (
          if replay
          then (ok tt, release_claims (advance a v))
          else after_write a v (update_simple_offset answer a.source.pipeline_id a.stored v))
  by_mode answer a v true mode =
      let k = release_claims-IsRelease (advance a v) in
      record {
        stored_forward = subst (Grows a.stored) (sym k.stored) (Grows-refl a.stored);
        stored_exact = inl k.stored;
        offset_exact = inr k.offset;
        done = λ h. k.offset;
        stored_done = λ on h. cc;
        same_mode = k.mode;
        same_names = k.names;
        replay_neutral = λ h. (k.stored, k.unlinked h);
      }
  by_mode answer a v false mode =
      after_write-IsAck a v (update_simple_offset answer a.source.pipeline_id a.stored v) mode
        (update_simple_offset-IsWrite answer a.source.pipeline_id a.stored v)

  -- Acknowledging an offset, whatever the database answers: the source's own offset is kept or
  -- moves to the greater of the two, and has moved if the acknowledgment succeeds; the stored one
  -- likewise, if the source does not replay. In a replay the stored offset and the large objects
  -- are left alone.
  pub acknowledge-IsAck :
      (answer : OffsetAnswer F) (a : Acked) (m : RelayMessage F) (v : ℤ)
      → m.ack_token ≡ outbox_offset v
      → IsAck a v (acknowledge answer a m)
  unfolding acknowledge acknowledge_token
  acknowledge-IsAck answer a m v e = rw e (by_mode answer a v a.source.replay_mode refl)
