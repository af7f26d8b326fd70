-- ===== src/Extension/Validation.antt =====
-- pg-tide-ext/src/validation.rs: names of outboxes, inboxes and roles.
use pg_tide.Prelude.{
  ℕ, Bool, ◌∷◌, ◌++◌, ◌||◌, ◌==◌, ltb, find, Option, none, some, if◌then◌else◌, is_empty,
}
use pg_tide.Prelude.Text.{Text, text, byte_len}
use pg_tide.Extension.Failures.{PgResult, ok, err, invalid_argument}

-- `c == '"' || c == '\0'`.
abbrev pub is_invalid_char : ℕ → Bool
is_invalid_char c = c == 34 || c == 0

abbrev pub check_chars : Text → Option ℕ → PgResult (Unit {0})
check_chars name none = ok tt
check_chars name (some c) = err (
    invalid_argument
      (text "identifier '" ++ name ++ text "' contains invalid character '" ++ c ∷ text "'"))

unfoldable pub validate_identifier : Text → PgResult (Unit {0})
validate_identifier name =
    if is_empty name
    then err (invalid_argument (text "identifier must not be empty"))
    else if ltb 63 (byte_len name)
    then err (invalid_argument (text "identifier '" ++ name ++ text "' exceeds 63 bytes"))
    else check_chars name (find is_invalid_char name)
