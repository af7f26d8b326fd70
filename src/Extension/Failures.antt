-- ===== src/Extension/Failures.antt =====
-- pg-tide-ext/src/error.rs: the extension's errors, their text and their stable codes.
use pg_tide.Prelude.{subst, ◌≡◌, refl, Option, none, some, [], ◌∷◌, ◌++◌, if◌then◌else◌, ◌==◌}
use pg_tide.Prelude.Text.{Text, text}
use pg_tide.Foreign.{Foreign}

pub data PgTideError : Type 0 where
  unsupported_surface : Text → Text → Text → PgTideError
  outbox_already_exists : Text → PgTideError
  outbox_not_found : Text → PgTideError
  inbox_already_exists : Text → PgTideError
  inbox_not_found : Text → PgTideError
  relay_not_found : Text → PgTideError
  invalid_argument : Text → PgTideError
  sweep_failed : Text → Text → PgTideError
  publish_denied : Text → Text → PgTideError
  authorization_error : Text → Text → PgTideError
  spi_error : Text → PgTideError

unfoldable pub code_of : PgTideError → Text
code_of (unsupported_surface s c a) = text "PGTIDE_CONFIG_UNSUPPORTED_SURFACE"
code_of (outbox_already_exists n) = text "PGTIDE_OUTBOX_ALREADY_EXISTS"
code_of (outbox_not_found n) = text "PGTIDE_OUTBOX_NOT_FOUND"
code_of (inbox_already_exists n) = text "PGTIDE_INBOX_ALREADY_EXISTS"
code_of (inbox_not_found n) = text "PGTIDE_INBOX_NOT_FOUND"
code_of (relay_not_found n) = text "PGTIDE_RELAY_NOT_FOUND"
code_of (invalid_argument m) = text "PGTIDE_INVALID_ARGUMENT"
code_of (sweep_failed o d) = text "PGTIDE_SWEEP_FAILED"
code_of (publish_denied r o) = text "PGTIDE_PUBLISH_DENIED"
code_of (authorization_error o d) = text "PGTIDE_AUTHORIZATION_FAILED"
code_of (spi_error m) = text "PGTIDE_SPI_ERROR"

-- The `Display` of the errors.
unfoldable pub display : PgTideError → Text
display (unsupported_surface s c a) =
    text "PGTIDE_CONFIG_UNSUPPORTED_SURFACE: "
    ++ s
    ++ text "; context="
    ++ c
    ++ text "; last_version=0.48.0; alternative="
    ++ a
display (outbox_already_exists n) =
    text "PGTIDE_OUTBOX_ALREADY_EXISTS: outbox already exists: " ++ n
display (outbox_not_found n) = text "PGTIDE_OUTBOX_NOT_FOUND: outbox not found: " ++ n
display (inbox_already_exists n) = text "PGTIDE_INBOX_ALREADY_EXISTS: inbox already exists: " ++ n
display (inbox_not_found n) = text "PGTIDE_INBOX_NOT_FOUND: inbox not found: " ++ n
display (relay_not_found n) = text "PGTIDE_RELAY_NOT_FOUND: relay pipeline not found: " ++ n
display (invalid_argument m) = text "PGTIDE_INVALID_ARGUMENT: invalid argument: " ++ m
display (sweep_failed o d) =
    text "PGTIDE_SWEEP_FAILED: outbox sweep failed for '" ++ o ++ text "': " ++ d
display (publish_denied r o) =
    text "PGTIDE_PUBLISH_DENIED: role '"
    ++ r
    ++ text "' is not authorized to publish to outbox '"
    ++ o
    ++ text "'"
display (authorization_error o d) =
    text "PGTIDE_AUTHORIZATION_FAILED: authorization check failed for outbox '"
    ++ o
    ++ text "': "
    ++ d
display (spi_error m) = text "PGTIDE_SPI_ERROR: SPI error: " ++ m

-- `Result<T, PgTideError>`.
pub data PgResult {ℓ} (A : Type ℓ) : Type ℓ where
  ok : A → PgResult A
  err : PgTideError → PgResult A

infixl 5 ◌>>=◌ ◌>>◌
abbrev pub ◌>>=◌ {ℓ κ} : {A : Type ℓ} {B : Type κ} → PgResult A → (A → PgResult B) → PgResult B
ok value >>= rest = rest value
err error >>= rest = err error

abbrev pub ◌>>◌ {ℓ} : {B : Type ℓ} → PgResult (Unit {0}) → PgResult B → PgResult B
first >> second = first >>= λ done. second

pub PgResult-ok-injective {ℓ} :
    {A : Type ℓ} (a b : A) → (let r : PgResult A = ok a in r ≡ ok b) → a ≡ b
PgResult-ok-injective a b h = cc h

-- If what follows a `?` returns, so did the operation before it.
pub >>=-eq-ok {ℓ κ} :
    {A : Type ℓ} {B : Type κ} (first : PgResult A) (rest : A → PgResult B) {returned : B}
    → first >>= rest ≡ ok returned
    → (value : A) × (first ≡ ok value) × (rest value ≡ ok returned)
>>=-eq-ok (err error) rest returns = cc
>>=-eq-ok (ok value) rest returns = (value, refl, returns)

pub >>-eq-ok {ℓ} :
    {B : Type ℓ} (first : PgResult (Unit {0})) (second : PgResult B) {returned : B}
    → first >> second ≡ ok returned
    → second ≡ ok returned
>>-eq-ok (err error) second returns = cc
>>-eq-ok (ok done) second returns = returns

-- What is returned, if anything is, has the property.
abbrev pub Returns {ℓ} : {A : Type ℓ} → (A → Type 0) → PgResult A → Type 0
Returns Q (ok a) = Q a
Returns Q (err e) = Unit

pub Returns-bind {ℓ κ} :
    {A : Type ℓ} {B : Type κ} (Q : B → Type 0) (first : PgResult A) (rest : A → PgResult B)
    → ((a : A) → first ≡ ok a → Returns Q (rest a))
    → Returns Q (first >>= rest)
Returns-bind Q (ok a) rest h = h a refl
Returns-bind Q (err e) rest h = tt

pub Returns-ok {ℓ} :
    {A : Type ℓ} (Q : A → Type 0) (r : PgResult A) (a : A) → r ≡ ok a → Returns Q r → Q a
Returns-ok Q (ok b) a e h = subst Q (PgResult-ok-injective b a e) h
Returns-ok Q (err x) a e h = cc e

-- A statement that PostgreSQL refuses, with the text of the context.
abbrev pub run_spi : (F : Foreign) → Option F.Error → Text → PgResult (Unit {0})
run_spi F none context = ok tt
run_spi F (some e) context = err (spi_error (context ++ F.error_text e))

-- What stands before the first colon.
unfoldable pub before_colon : Text → Text
before_colon [] = []
before_colon (c ∷ s) = let rest = before_colon s in if c == 58 then [] else c ∷ rest

-- The code of an error is what its text has before the first colon, whatever its arguments.
pub display-code_of : (e : PgTideError) → before_colon (display e) ≡ code_of e
unfolding before_colon display code_of text
display-code_of (unsupported_surface s c a) = refl
display-code_of (outbox_already_exists n) = refl
display-code_of (outbox_not_found n) = refl
display-code_of (inbox_already_exists n) = refl
display-code_of (inbox_not_found n) = refl
display-code_of (relay_not_found n) = refl
display-code_of (invalid_argument m) = refl
display-code_of (sweep_failed o d) = refl
display-code_of (publish_denied r o) = refl
display-code_of (authorization_error o d) = refl
display-code_of (spi_error m) = refl
