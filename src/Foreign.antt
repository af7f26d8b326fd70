-- ===== src/Foreign.antt =====
-- What the relay uses of other packages, as a parameter of the model: `serde_json::Value` with
-- member access and conversions, `uuid::Uuid` with its text, `chrono`'s timestamps, and the error
-- values of `tokio_postgres` and the others, of which only the SQLSTATE is read.
pub mod Samples
use pg_tide.Prelude.{ℕ, ◌%◌, Bool, Option, String}
use pg_tide.Prelude.Int.{ℤ}
use pg_tide.Prelude.Text.{Text}

pub record Foreign : Type 1 where
  pub Value : Type 0
  pub get : Value → String → Option Value
  pub as_bool : Value → Option Bool
  pub as_u64 : Value → Option ℕ
  pub as_i64 : Value → Option ℤ
  pub as_str : Value → Option Text
  pub Uuid : Type 0
  pub uuid_text : Uuid → Text
  pub DateTime : Type 0
  pub Error : Type 0
  pub error_text : Error → Text
  pub sql_state : Error → Option Text

-- An `as u32` cast of an unsigned number keeps its low 32 bits.
abbrev pub as_u32 : ℕ → ℕ
as_u32 n = n % 4294967296
