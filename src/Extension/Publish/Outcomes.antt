-- ===== src/Extension/Publish/Outcomes.antt =====
-- What a publish does: it denies on any doubt, and else inserts one message.
use pg_tide.Prelude.{ℕ, ◌≡◌, refl, sym, subst, Bool, true, false, Option, none, some, []}
use pg_tide.Prelude.Text.{Text}
use pg_tide.Foreign.{Foreign}
use pg_tide.Extension.Failures.{ok, run_spi, ◌>>◌, >>=-eq-ok, >>-eq-ok}
use pg_tide.Extension.Database.{Database, Faults, Clock}
use pg_tide.Extension.Publish.{
  Roles, enabled_of, check_enabled, look_up, session_of, superuser_of, owner_of, verdict_of,
  acl_verdict, accept_verdict, authorize, insert_message, publish_statements, outbox_publish,
}
use pg_tide.Extension.Publish.Authority.{MayPublish, accept-MayPublish, MayPublish-accept}

pub check_enabled-eq-ok :
    (answer : Option Bool) (name : Text) → check_enabled answer name ≡ ok tt → answer ≡ some true
unfolding check_enabled
check_enabled-eq-ok none name h = cc h
check_enabled-eq-ok (some false) name h = cc h
check_enabled-eq-ok (some true) name h = refl

look_up-eq-ok {ℓ} :
    {A : Type ℓ} (F : Foreign) (fault : Option F.Error) (name context : Text) (answer : Option A)
    (missing : Text) (value : A)
    → look_up F fault name context answer missing ≡ ok value
    → answer ≡ some value
look_up-eq-ok F none name context none missing value h = cc h
look_up-eq-ok F none name context (some a) missing value h = cc h
look_up-eq-ok F (some e) name context answer missing value h = cc h

module _ {F : Foreign} (faults : Faults F) (roles : Roles) (clock : Clock F) (gap : ℕ) (name : Text)
    (payload headers : F.Value) (db : Database F) where
  -- Who published, and what it left.
  pub record IsPublished (new : Database F) : Type 0 where
    pub enabled : enabled_of name db.outboxes ≡ some true
    pub user : Text
    pub is_user : roles.session_user ≡ some user
    pub may_publish : MayPublish roles user name db.publishers
    pub inserted : new ≡ insert_message clock gap name payload headers db

  authorize-MayPublish :
      authorize faults roles name db ≡ ok tt
      → (user : Text) × (roles.session_user ≡ some user) × MayPublish roles user name db.publishers
  unfolding authorize
  authorize-MayPublish h =
      let (user, known, h1) = >>=-eq-ok (session_of faults roles name) _ h in
      let (superuser, ranked, h2) = >>=-eq-ok (superuser_of faults roles name user) _ h1 in
      let (owner, owned, h3) = >>=-eq-ok (owner_of faults roles name user) _ h2 in
      let verdict = acl_verdict roles name user superuser owner db.publishers in
      let (v, judged, h4) =
        >>=-eq-ok (verdict_of faults name verdict) (λ v. accept_verdict v user name) h3 in
      let is_verdict = look_up-eq-ok F (faults.fault 4) name _ (some verdict) [] v judged in
      let same : verdict ≡ v = cc is_verdict in
      (
        user,
        look_up-eq-ok F (faults.fault 1) name _ roles.session_user _ user known,
        accept-MayPublish roles user name db.publishers superuser owner
            (look_up-eq-ok F (faults.fault 2) name _ (roles.is_superuser user) _ superuser ranked)
            (look_up-eq-ok F (faults.fault 3) name _ (roles.is_extension_owner user) _ owner owned)
            (subst (λ x. accept_verdict x user name ≡ ok tt) (sym same) h4),
      )

  -- Publishing is closed by default. A publish that returns, whatever statement may have failed,
  -- found the outbox enabled and its session's user a superuser, the owner of the extension, or a
  -- member of the publishers' role and of a role that is granted on the outbox; and it inserted just
  -- the one message.
  pub outbox_publish-IsPublished :
      (new : Database F)
      → outbox_publish faults roles clock gap name payload headers db ≡ ok (tt, new)
      → IsPublished new
  unfolding outbox_publish
  outbox_publish-IsPublished new h =
      let writes =
        publish_statements faults name
        >> ok (tt, insert_message clock gap name payload headers db) in
      let checked = >>-eq-ok (run_spi F (faults.fault 0) _) _ h in
      let (x1, is_on, authorized) =
        >>=-eq-ok (check_enabled (enabled_of name db.outboxes) name)
          (λ x. authorize faults roles name db >> writes) checked in
      let (x2, is_authorized, written) =
        >>=-eq-ok (authorize faults roles name db) (λ x. writes) authorized in
      let (user, is_user, may) = authorize-MayPublish (is_authorized) in
      let inserted = >>-eq-ok (publish_statements faults name) (ok _) written in
      record {
        enabled = check_enabled-eq-ok _ name is_on;
        user = user;
        is_user = is_user;
        may_publish = may;
        inserted = cc inserted;
      }

  -- Whoever may publish can. If no statement fails and the roles are known, an enabled outbox takes
  -- the message of a user who may publish.
  pub MayPublish-outbox_publish :
      (user : Text) (superuser owner : Bool)
      → ((i : ℕ) → faults.fault i ≡ none)
      → roles.session_user ≡ some user
      → roles.is_superuser user ≡ some superuser
      → roles.is_extension_owner user ≡ some owner
      → enabled_of name db.outboxes ≡ some true
      → MayPublish roles user name db.publishers
      → outbox_publish faults roles clock gap name payload headers db
        ≡ ok (tt, insert_message clock gap name payload headers db)
  unfolding outbox_publish authorize publish_statements check_enabled accept_verdict acl_verdict
  MayPublish-outbox_publish user superuser owner calm is_user is_super is_owner enabled may =
      let accepts =
        MayPublish-accept roles user name db.publishers superuser owner is_super is_owner may in
      rw
        (
          calm 0,
          enabled,
          calm 1,
          is_user,
          calm 2,
          is_super,
          calm 3,
          is_owner,
          calm 4,
          accepts,
          calm 5,
          calm 6,
          calm 7,
          calm 8,
          calm 9,
        )
        refl
