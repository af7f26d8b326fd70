-- ===== src/Extension/Publish.antt =====
-- pg-tide-ext/src/outbox.rs, `outbox_publish`: authorization, which denies on any doubt, and the
-- insert of a message.
pub mod Authority
pub mod Outcomes
use pg_tide.Prelude.{
  ℕ, ◌+◌, Bool, true, false, not, Option, none, some, List, [], ◌∷◌, ◌++◌, ◌||◌, ◌&&◌, any,
  if◌then◌else◌,
}
use pg_tide.Prelude.Text.{Text, text, text_eq}
use pg_tide.Foreign.{Foreign}
use pg_tide.Extension.Failures.{
  PgTideError, PgResult, ok, err, ◌>>=◌, ◌>>◌, run_spi, invalid_argument, outbox_not_found,
  publish_denied, authorization_error,
}
use pg_tide.Extension.Database.{Outbox, Message, Publisher, Database, Faults, Clock, is_outbox}

-- What PostgreSQL knows of roles. `is_member u r` is `pg_has_role(u, r, 'member')`.
pub record Roles : Type 0 where
  pub session_user : Option Text
  pub is_superuser : Text → Option Bool
  pub is_extension_owner : Text → Option Bool
  pub is_member : Text → Text → Bool
  -- The role `tide_publisher` exists.
  pub has_publisher_role : Bool

-- `SELECT enabled … WHERE outbox_name = $1`.
unfoldable pub enabled_of : Text → List Outbox → Option Bool
enabled_of name [] = none
enabled_of name (o ∷ os) =
    let rest = enabled_of name os in if is_outbox name o then some o.enabled else rest

unfoldable pub check_enabled : Option Bool → Text → PgResult (Unit {0})
check_enabled none name = err (outbox_not_found name)
check_enabled (some false) name =
    err (invalid_argument (text "outbox '" ++ name ++ text "' is disabled"))
check_enabled (some true) name = ok tt

abbrev pub ok_or_else {ℓ} : {A : Type ℓ} → Option A → PgTideError → PgResult A
ok_or_else none e = err e
ok_or_else (some a) e = ok a

-- A lookup of which a failure or a missing row denies.
abbrev pub look_up {ℓ} :
    {A : Type ℓ} (F : Foreign) → Option F.Error → Text → Text → Option A → Text → PgResult A
look_up F none name context answer missing = ok_or_else answer (authorization_error name missing)
look_up F (some e) name context answer missing =
    err (authorization_error name (context ++ F.error_text e))

unfoldable pub is_publisher_of : Text → Publisher → Bool
is_publisher_of name p = text_eq name p.outbox

-- The `CASE` of the query.
unfoldable pub acl_verdict : Roles → Text → Text → Bool → Bool → List Publisher → Option Text
unfolding is_publisher_of
acl_verdict roles name user superuser owner publishers =
    if superuser
    then some (text "superuser")
    else if owner
    then some (text "extension_owner")
    else if not (roles.has_publisher_role && roles.is_member user (text "tide_publisher"))
    then some (text "denied")
    else if not (any (is_publisher_of name) publishers)
    then some (text "denied")
    else if any (λ p. is_publisher_of name p && roles.is_member user p.role) publishers
    then some (text "allowed")
    else some (text "denied")

unexpected : Text → PgResult (Unit {0})
unexpected name = err (authorization_error name (text "unexpected ACL verdict"))

unfoldable pub accept_verdict : Option Text → Text → Text → PgResult (Unit {0})
unfolding unexpected
accept_verdict none user name = unexpected name
accept_verdict (some verdict) user name =
    if text_eq verdict (text "superuser")
      || text_eq verdict (text "extension_owner")
      || text_eq verdict (text "allowed")
    then ok tt
    else if text_eq verdict (text "denied")
    then err (publish_denied user name)
    else unexpected name

module _ {F : Foreign} where
  abbrev pub session_of : Faults F → Roles → Text → PgResult Text
  session_of faults roles name =
      look_up F (faults.fault 1) name (text "session_user lookup failed: ") roles.session_user
        (text "session_user lookup returned no row")

  abbrev pub superuser_of : Faults F → Roles → Text → Text → PgResult Bool
  superuser_of faults roles name user =
      look_up F (faults.fault 2) name (text "superuser lookup failed: ") (roles.is_superuser user)
        (text "role '" ++ user ++ text "' was not found")

  abbrev pub owner_of : Faults F → Roles → Text → Text → PgResult Bool
  owner_of faults roles name user =
      look_up F (faults.fault 3) name (text "extension-owner lookup failed: ")
        (roles.is_extension_owner user) (text "extension-owner lookup returned no row")

  abbrev pub verdict_of : Faults F → Text → Option Text → PgResult (Option Text)
  verdict_of faults name verdict =
      look_up F (faults.fault 4) name (text "ACL verdict query failed: ") (some verdict) []

  unfoldable pub authorize : Faults F → Roles → Text → Database F → PgResult (Unit {0})
  authorize faults roles name db = do
    user ← session_of faults roles name
    superuser ← superuser_of faults roles name user
    owner ← owner_of faults roles name user
    verdict ← verdict_of faults name (acl_verdict roles name user superuser owner db.publishers)
    accept_verdict verdict user name

  -- The message gets the next value of the identity column, after those that went to
  -- transactions that were rolled back.
  unfoldable pub insert_message : Clock F → ℕ → Text → F.Value → F.Value → Database F → Database F
  insert_message clock gap name payload headers db = record db {
    messages =
        db.messages
        ++ record {
          outbox = name;
          row = record {
            id = db.next_id + gap;
            payload = payload;
            headers = some headers;
            created_at = some clock.now;
          };
        }
          ∷ [];
    next_id = db.next_id + gap + 1;
  }

  -- The fence, the two texts of JSON, the insert and the notification.
  unfoldable pub publish_statements : Faults F → Text → PgResult (Unit {0})
  publish_statements faults name =
      run_spi F (faults.fault 5) (text "outbox fence for '" ++ name ++ text "': ")
      >> run_spi F (faults.fault 6) (text "payload serialize: ")
      >> run_spi F (faults.fault 7) (text "headers serialize: ")
      >> run_spi F (faults.fault 8) (text "INSERT outbox_messages: ")
      >> run_spi F (faults.fault 9) (text "notify outbox '" ++ name ++ text "': ")

  unfoldable pub outbox_publish :
      Faults F
      → Roles
      → Clock F
      → ℕ
      → Text
      → F.Value
      → F.Value
      → Database F
      → PgResult (Unit {0} × Database F)
  unfolding check_enabled authorize insert_message publish_statements
  outbox_publish faults roles clock gap name payload headers db = do
    run_spi F (faults.fault 0) (text "outbox_publish existence check for '" ++ name ++ text "': ")
    check_enabled (enabled_of name db.outboxes) name
    authorize faults roles name db
    publish_statements faults name
    ok (tt, insert_message clock gap name payload headers db)
