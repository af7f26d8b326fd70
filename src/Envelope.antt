-- ===== src/Envelope.antt =====
-- pg-tide-relay/src/envelope.rs: the relay's message, and the messages of one outbox row.
pub mod Keys
pub mod Batches
mod Examples
use pg_tide.Prelude.{
  ℕ, zero, suc, ◌+◌, Bool, true, false, Option, none, some, List, [], ◌∷◌, ◌++◌, length, ◌==◌,
  if◌then◌else◌,
}
use pg_tide.Prelude.Int.{ℤ}
use pg_tide.Prelude.Text.{Text, text, decimal, decimal_ℤ}
use pg_tide.Foreign.{Foreign}

pub data AckToken : Type 0 where
  no_token : AckToken
  outbox_offset : ℤ → AckToken

pub record RelayMessage (F : Foreign) : Type 0 where
  pub dedup_key : Text
  pub subject : Text
  pub payload : F.Value
  pub op : Text
  pub is_full_refresh : Bool
  pub outbox_id : Option ℤ
  pub refresh_id : Option F.Uuid
  pub outbox_name : Option Text
  pub headers : Option F.Value
  pub created_at : Option F.DateTime
  pub ack_token : AckToken

-- `format!("{outbox_table}:{outbox_id}:{row_index}")`.
unfoldable pub dedup_key_of : Text → ℤ → ℕ → Text
dedup_key_of outbox_table outbox_id row_index =
    (outbox_table ++ 58 ∷ decimal_ℤ outbox_id) ++ 58 ∷ decimal row_index

-- Whether a text begins with the pattern, and what follows it.
strip_prefix : Text → Text → Option Text
strip_prefix [] s = some s
strip_prefix (p ∷ ps) [] = none
strip_prefix (p ∷ ps) (c ∷ s) = let rest = strip_prefix ps s in if p == c then rest else none

-- `str::replace` of a pattern that is not empty; a text has no more matches than characters.
replace_from : ℕ → Text → Text → Text → Text
unfolding strip_prefix
replace_from zero pattern to s = s
replace_from (suc f) pattern to [] = []
replace_from (suc f) pattern to (c ∷ s) = elim (strip_prefix pattern (c ∷ s)) [
  | none ↦ c ∷ replace_from f pattern to s
  | some rest ↦ to ++ replace_from f pattern to rest
]

unfoldable pub replace : Text → Text → Text → Text
unfolding replace_from
replace pattern to s = replace_from (length s) pattern to s

module _ {F : Foreign} where
  open F use {Value, Uuid}

  unfoldable pub new_forward :
      Text → ℤ → ℕ → Text → Value → Bool → Option Uuid → Text → RelayMessage F
  new_forward outbox_table outbox_id row_index op payload is_full_refresh refresh_id subject =
      record {
        dedup_key = dedup_key_of outbox_table outbox_id row_index;
        subject = subject;
        payload = payload;
        op = op;
        is_full_refresh = is_full_refresh;
        outbox_id = some outbox_id;
        refresh_id = refresh_id;
        outbox_name = none;
        headers = none;
        created_at = none;
        ack_token = no_token;
      }

module _ (F : Foreign) where
  open F use {Uuid, uuid_text}

  uuid_or_empty : Option Uuid → Text
  uuid_or_empty none = []
  uuid_or_empty (some u) = uuid_text u

  unfoldable pub render_subject : Text → Text → Text → ℤ → Option Uuid → Text
  unfolding replace uuid_or_empty
  render_subject template stream_table op outbox_id refresh_id =
      replace (text "{refresh_id}") (uuid_or_empty refresh_id) (
        replace (text "{outbox_id}") (decimal_ℤ outbox_id)
          (replace (text "{op}") op (replace (text "{stream_table}") stream_table template)))

pub record OutboxBatch (F : Foreign) : Type 0 where
  pub batch_id : ℤ  -- `outbox_id`
  pub batch_refresh : Option F.Uuid  -- `refresh_id`
  pub full_refresh : Bool  -- `is_full_refresh`
  pub inserted : List F.Value
  pub deleted : List F.Value

module _ {F : Foreign} (b : OutboxBatch F) (outbox_table subject_template : Text) where
  open F use {Value}

  -- The two loops of `into_messages`, from the given row index on.
  unfoldable pub messages_of : Text → Bool → ℕ → List Value → List (RelayMessage F)
  messages_of op full i [] = []
  messages_of op full i (row ∷ rows) =
      new_forward outbox_table b.batch_id i op row full b.batch_refresh
        (render_subject F subject_template outbox_table op b.batch_id b.batch_refresh)
      ∷ messages_of op full (i + 1) rows

  unfoldable pub into_messages : List (RelayMessage F)
  unfolding messages_of
  into_messages =
      messages_of (text "insert") b.full_refresh 0 b.inserted
      ++ messages_of (text "delete") false (length b.inserted) b.deleted
