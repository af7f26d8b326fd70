-- ===== src/Envelope/Examples.antt =====
-- Keys and subjects of one row.
use pg_tide.Prelude.{
  ℕ, ◌+◌, ◌≡◌, refl, Bool, true, false, Option, none, some, List, [], ◌∷◌, ◌++◌, map, All,
}
use pg_tide.Prelude.Int.{pos}
use pg_tide.Prelude.Text.{Text, text, decimal}
use pg_tide.Foreign.Samples.{sample}
use pg_tide.Envelope.Keys.{dedup_key_of-injective}
use pg_tide.Envelope.Batches.{
  IsDistinct, keys_from, keys, changes, change_of, IsOfRow, into_messages-changes,
}
use pg_tide.Envelope.{RelayMessage, OutboxBatch, dedup_key_of, render_subject, into_messages}

ten_three : dedup_key_of (text "outbox_orders") (pos 10) 3 ≡ text "outbox_orders:10:3"
unfolding dedup_key_of text decimal
ten_three = unfold pg_tide.Prelude.Text.decimal_ℤ in refl

subject_rendered :
    render_subject sample
      (text "pgtrickle.{stream_table}.{op}")
      (text "orders")
      (text "insert")
      (pos 42)
      none
    ≡ text "pgtrickle.orders.insert"
unfolding render_subject text
subject_rendered = unfold pg_tide.Prelude.Text.decimal_ℤ pg_tide.Prelude.Text.decimal in refl

dedup_key_of-injective_example :
    (text "outbox_orders" ≡ text "outbox_orders") × (pos 10 ≡ pos 10) × (◌≡◌ {A = ℕ} 3 3)
dedup_key_of-injective_example =
    dedup_key_of-injective (text "outbox_orders") (text "outbox_orders") (pos 10) (pos 10) 3 3 refl

abbrev three_values : OutboxBatch sample
three_values = record {
  batch_id = pos 5;
  batch_refresh = none;
  full_refresh = false;
  inserted = 1 ∷ 2 ∷ [];
  deleted = 0 ∷ [];
}

abbrev orders_messages : List (RelayMessage sample)
orders_messages = into_messages three_values (text "outbox_orders") (text "s")

into_messages-changes_example :
    (map (change_of three_values (text "outbox_orders") (text "s")) orders_messages
      ≡ changes three_values (text "outbox_orders") (text "s"))
    × All (IsOfRow three_values (text "outbox_orders") (text "s")) orders_messages
    × (keys three_values (text "outbox_orders") (text "s") orders_messages
        ≡ keys_from (text "outbox_orders") (pos 5) 0 (2 + 1))
    × IsDistinct (keys three_values (text "outbox_orders") (text "s") orders_messages)
into_messages-changes_example = into_messages-changes three_values (text "outbox_orders") (text "s")

-- `render_subject` of the source leaves a placeholder that it does not know.
unknown_placeholder :
    render_subject sample (text "{outbox}.{op}") (text "outbox_orders") (text "insert") (pos 7) none
    ≡ text "{outbox}.insert"
unfolding render_subject text
unknown_placeholder = refl
