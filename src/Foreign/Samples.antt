-- ===== src/Foreign/Samples.antt =====
-- Concrete stand-ins for the foreign types, for the examples: numbers for JSON values, objects
-- without members, and an error that is its SQLSTATE.
use pg_tide.Prelude.{ℕ, none, some, [], ◌∷◌}
use pg_tide.Prelude.Int.{pos}
use pg_tide.Prelude.Text.{Text}
use pg_tide.Foreign.{Foreign}

abbrev pub sample : Foreign
sample = record {
  Value = ℕ;
  get = λ v key. none;
  as_bool = λ v. none;
  as_u64 = λ v. some v;
  as_i64 = λ v. some (pos v);
  as_str = λ v. none;
  Uuid = ℕ;
  uuid_text = λ u. u ∷ [];
  DateTime = ℕ;
  Error = Text;
  error_text = λ e. e;
  sql_state = λ e. some e;
}
