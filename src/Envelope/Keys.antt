-- ===== src/Envelope/Keys.antt =====
-- The deduplication key identifies a message.
use pg_tide.Prelude.{ℕ, ◌≡◌, ◌∷◌, ◌++◌}
use pg_tide.Prelude.Int.{ℤ}
use pg_tide.Prelude.Text.{
  Text, decimal, decimal_ℤ, decimal-injective, decimal_ℤ-injective, decimal-IsDigit,
  digits-IsNumeric, decimal_ℤ-IsNumeric, split_last,
}
use pg_tide.Envelope.{dedup_key_of}

-- Two messages have the same key only if they come from the same outbox table, the same row and
-- the same place in it, whatever characters the names of the tables contain.
pub dedup_key_of-injective :
    (t u : Text) (id jd : ℤ) (row col : ℕ)
    → dedup_key_of t id row ≡ dedup_key_of u jd col
    → (t ≡ u) × (id ≡ jd) × (row ≡ col)
unfolding dedup_key_of
dedup_key_of-injective t u id jd row col e =
    let (p, q) =
      split_last (t ++ 58 ∷ decimal_ℤ id) (u ++ 58 ∷ decimal_ℤ jd) (decimal row) (decimal col)
        (digits-IsNumeric (decimal row) (decimal-IsDigit row))
        (digits-IsNumeric (decimal col) (decimal-IsDigit col)) e in
    let (r, s) =
      split_last t u (decimal_ℤ id) (decimal_ℤ jd) (decimal_ℤ-IsNumeric id) (decimal_ℤ-IsNumeric jd)
        p in
    (r, decimal_ℤ-injective id jd s, decimal-injective row col q)
