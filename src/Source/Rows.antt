-- ===== src/Source/Rows.antt =====
-- pg-tide-relay/src/source/outbox.rs: rows of the outbox table and the decoding of their payloads.
use pg_tide.Prelude.{
  ℕ, zero, suc, ◌+◌, ◌-◌, ◌*◌, Bool, true, false, Option, none, some, List, [], ◌∷◌, ◌++◌, ◌&&◌,
  if◌then◌else◌, unwrap_or, and_then, leb, ltb, ◌==◌,
}
use pg_tide.Prelude.Int.{ℤ, pos, negsuc}
use pg_tide.Prelude.Text.{Text, text}
use pg_tide.Foreign.{Foreign}
use pg_tide.Errors.{Result, ok, err, postgres, other, ◌>>=◌}
use pg_tide.Envelope.{OutboxBatch}

-- `outbox_fence_lock_key`.
unfoldable pub outbox_fence_lock_key : Text → Text
outbox_fence_lock_key outbox_name = text "pg_tide:outbox:" ++ outbox_name

-- `tide.tide_outbox_messages` of one outbox; the identity column starts at 1.
pub record Row (F : Foreign) : Type 0 where
  pub id : ℕ
  pub payload : F.Value
  pub headers : Option F.Value
  pub created_at : Option F.DateTime

-- What the database answers to the statements of one poll.
pub record PollAnswers (F : Foreign) : Type 0 where
  pub begin_fault : Option F.Error
  pub lock_fault : Option F.Error
  pub query_fault : Option F.Error
  pub negative_limit : F.Error
  pub commit_fault : Option F.Error
  -- The JSON value of a claim check: `lo_get` and `serde_json::from_slice`.
  pub large_object : ℤ → Result F F.Value

-- `str::parse::<i64>`: an optional sign, then at least one digit, and the value in range.
unfoldable pub parse_digits : ℕ → Text → Option ℕ
parse_digits acc [] = some acc
parse_digits acc (c ∷ s) =
    let rest = parse_digits (acc * 10 + (c - 48)) s in if leb 48 c && leb c 57 then rest else none

unfoldable pub parse_unsigned : Text → Option ℕ
unfolding parse_digits
parse_unsigned [] = none
parse_unsigned (c ∷ s) = parse_digits 0 (c ∷ s)

in_i64 : ℤ → Option ℤ
in_i64 (pos n) = if ltb n 9223372036854775808 then some (pos n) else none
in_i64 (negsuc n) = if ltb n 9223372036854775808 then some (negsuc n) else none

negate : ℕ → ℤ
negate zero = pos 0
negate (suc n) = negsuc n

unfoldable pub parse_i64 : Text → Option ℤ
unfolding parse_unsigned in_i64 negate
parse_i64 [] = none
parse_i64 (c ∷ s) =
    if c == 45
    then and_then (parse_unsigned s) (λ n. in_i64 (negate n))
    else if c == 43
    then and_then (parse_unsigned s) (λ n. in_i64 (pos n))
    else and_then (parse_unsigned (c ∷ s)) (λ n. in_i64 (pos n))

abbrev pub parsed : Option Text → Option (Option ℤ)
parsed none = none
parsed (some t) = some (parse_i64 t)

-- The large objects to unlink once the row is acknowledged.
abbrev pub pending_of : Option (Option ℤ) → Option Bool → List ℤ
pending_of (some (some oid)) (some true) = oid ∷ []
pending_of _ _ = []

module _ (F : Foreign) where
  open F use {Value, get, as_bool, as_str}

  -- `payload["_cc"]` as a flag.
  unfoldable pub claim_check : Value → Option Bool
  claim_check payload = and_then (get payload "_cc") as_bool

  unfoldable pub claim_oid : Value → Option Text
  claim_oid payload = and_then (get payload "oid") as_str

module _ {F : Foreign} where
  open F use {Value, Error, error_text}

  abbrev pub or_postgres : Option Error → Result F (Unit {0})
  or_postgres none = ok tt
  or_postgres (some e) = err (postgres e)

  abbrev pub ok_or : Option ℤ → Text → Result F ℤ
  ok_or none message = err (other message)
  ok_or (some v) message = ok v

  unfoldable pub plain : Value → ℤ → OutboxBatch F
  plain payload outbox_id = record {
    batch_id = outbox_id;
    batch_refresh = none;
    full_refresh = false;
    inserted = payload ∷ [];
    deleted = [];
  }

  unfoldable pub claimed_oid : Option Text → Result F ℤ
  claimed_oid none = err (other (text "native claim-check missing 'oid'"))
  claimed_oid (some t) = ok_or (parse_i64 t) (text "native claim-check 'oid' is invalid")

  unfoldable pub decode_claim : (ℤ → Result F Value) → Value → ℤ → Result F (OutboxBatch F)
  unfolding plain claimed_oid claim_oid
  decode_claim large_object payload outbox_id = do
    oid ← claimed_oid (claim_oid F payload)
    full_payload ← large_object oid
    ok (plain full_payload outbox_id)

  unfoldable pub decode_payload : (ℤ → Result F Value) → Value → ℤ → Result F (OutboxBatch F)
  unfolding decode_claim plain claim_check
  decode_payload large_object payload outbox_id =
      if unwrap_or (claim_check F payload) false
      then decode_claim large_object payload outbox_id
      else ok (plain payload outbox_id)
