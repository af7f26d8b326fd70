-- ===== src/Dlq/Examples.antt =====
-- Inserts of one and of two dead letters.
use pg_tide.Prelude.{ℕ, ◌≡◌, refl, true, false, Option, none, some, List, [], ◌∷◌, All}
use pg_tide.Prelude.Text.{Text, text}
use pg_tide.Foreign.Samples.{sample}
use pg_tide.Errors.{ok}
use pg_tide.Dlq.{
  DlqEntry, DlqRow, InsertFaults, committed, lost_after, insert_batch, has_key, sink_permanent,
}
use pg_tide.Dlq.Insert.{IsAtomic, insert_batch-IsAtomic, insert_batch_retry}

abbrev letter : ℕ → DlqEntry sample
letter n = record {
  relay_mode = text "forward";
  pipeline_name = text "orders";
  source_name = text "outbox";
  sink_name = text "nats";
  dedup_key = n ∷ [];
  subject = none;
  payload = n;
  error_message = text "unavailable: gone";
  error_kind = sink_permanent;
}

abbrev lost_answer : InsertFaults sample
lost_answer = record {
  begin_fault = none;
  insert_fault = λ i. none;
  rollback_fault = none;
  commit = lost_after (text "08006");
}

abbrev calm : InsertFaults sample
calm = record lost_answer { commit = committed }

insert_batch-IsAtomic_example :
    IsAtomic lost_answer
      (letter 1 ∷ letter 2 ∷ [])
      []
      (insert_batch (λ e. []) lost_answer (letter 1 ∷ letter 2 ∷ []) [])
insert_batch-IsAtomic_example =
    insert_batch-IsAtomic (λ e. []) lost_answer (letter 1 ∷ letter 2 ∷ []) []

abbrev buried : List (DlqRow sample)
buried = record { entry = letter 1; resolved = false } ∷ []

insert_batch_retry_example : insert_batch (λ e. []) calm (letter 1 ∷ []) buried ≡ (ok tt, buried)
unfolding has_key pg_tide.Prelude.Text.text_eq text
insert_batch_retry_example =
    insert_batch_retry (λ e. []) calm (letter 1 ∷ []) buried refl (λ j. refl) refl (refl, tt)
