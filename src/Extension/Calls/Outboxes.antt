-- ===== src/Extension/Calls/Outboxes.antt =====
-- Calls on outboxes and publishes keep the tables consistent.
use pg_tide.Prelude.{
  ℕ, ◌+◌, ◌≡◌, refl, ◌∙◌, Bool, true, false, Option, some, List, [], ◌∷◌, ◌||◌, arith, All-map,
  All-append, map, any, if◌then◌else◌,
}
use pg_tide.Prelude.Int.{ℤ}
use pg_tide.Prelude.Text.{text, Text}
use pg_tide.Foreign.{Foreign}
use pg_tide.Extension.Failures.{ok, ◌>>◌, run_spi}
use pg_tide.Extension.Database.{Outbox, Database, Faults, Clock, is_outbox}
use pg_tide.Extension.Outboxes.{
  check_outbox, outbox_exists, insert_outbox, outbox_create, outbox_create_if_not_exists,
  outbox_drop, drop_existing, set_enabled, switch, with_outbox, trim_quotes,
}
use pg_tide.Extension.Publish.{
  Roles, enabled_of, check_enabled, authorize, publish_statements, insert_message, outbox_publish,
}
use pg_tide.Extension.Publish.Outcomes.{check_enabled-eq-ok}
use pg_tide.Extension.Calls.Tables.{any-append_left, any-map, Within-append}
use pg_tide.Extension.Calls.Consistency.{
  HasOutbox, IsConsistent, Holds, Holds-then, Holds-bind, Holds-if, delete_outbox-IsConsistent,
}

HasOutbox-set_enabled :
    (name : Text) (enabled : Bool) (outboxes : List Outbox) (other : Text)
    → HasOutbox outboxes other
    → HasOutbox (map (set_enabled name enabled) outboxes) other
HasOutbox-set_enabled name enabled outboxes other h =
    any-map (is_outbox other) (set_enabled name enabled) outboxes
      (λ o. by_case o (is_outbox name o))
    ∙ h
  where
    by_case :
        (o : Outbox) (b : Bool)
        → is_outbox other (if b then record o { enabled = enabled } else o) ≡ is_outbox other o
    by_case o true = refl
    by_case o false = refl

enabled_of-HasOutbox :
    (name : Text) (outboxes : List Outbox) (on : Bool)
    → enabled_of name outboxes ≡ some on
    → HasOutbox outboxes name
unfolding enabled_of
enabled_of-HasOutbox name [] on h = cc h
enabled_of-HasOutbox name (o ∷ os) on h =
    by_case (is_outbox name o) (enabled_of-HasOutbox name os on) h
  where
    by_case :
        (b : Bool)
        → (enabled_of name os ≡ some on → HasOutbox os name)
        → (if b then some o.enabled else enabled_of name os) ≡ some on
        → (b || any (is_outbox name) os) ≡ true
    by_case true rest h = refl
    by_case false rest h = rest h

module _ {F : Foreign} where
  with_outbox-IsConsistent :
      (name : Text) (hours threshold : ℤ) (strategy : Text) (db : Database F)
      → IsConsistent db
      → IsConsistent (with_outbox name hours threshold strategy db)
  unfolding with_outbox
  with_outbox-IsConsistent name hours threshold strategy db c = record {
    messages =
        All-map _ _ db.messages (λ m h. any-append_left (is_outbox m.outbox) db.outboxes _ h)
          c.messages;
    groups =
        All-map _ _ db.groups (λ g h. any-append_left (is_outbox g.outbox) db.outboxes _ h)
          c.groups;
    publishers =
        All-map _ _ db.publishers (λ p h. any-append_left (is_outbox p.outbox) db.outboxes _ h)
          c.publishers;
    offsets = c.offsets;
    leases = c.leases;
    in_order = c.in_order;
  }

  insert_outbox-Holds {ℓ} :
      {A : Type ℓ} (faults : Faults F) (name : Text) (hours threshold : ℤ) (strategy : Text)
      (returned : A) (db : Database F)
      → IsConsistent db
      → Holds IsConsistent (insert_outbox faults name hours threshold strategy returned db)
  unfolding insert_outbox
  insert_outbox-Holds faults name hours threshold strategy returned db c =
      Holds-then IsConsistent
        (run_spi F (faults.fault 1) (text "INSERT tide_outbox_config: ")
          >> run_spi F (faults.fault 2) (text "INSERT outbox_cleanup_state: "))
        (ok (returned, with_outbox name hours threshold strategy db))
        (with_outbox-IsConsistent name hours threshold strategy db c)

  pub outbox_create-Holds :
      (faults : Faults F) (name : Text) (hours threshold : ℤ) (strategy : Text) (db : Database F)
      → IsConsistent db
      → Holds IsConsistent (outbox_create faults name hours threshold strategy db)
  unfolding outbox_create
  outbox_create-Holds faults name hours threshold strategy db c =
      Holds-then IsConsistent (check_outbox name (trim_quotes strategy)) _ (
        Holds-bind IsConsistent (outbox_exists (faults.fault 0) name db) _ (λ exists e.
          Holds-if IsConsistent exists _ _ (λ here. tt)
            (λ missing.
              insert_outbox-Holds faults name hours threshold (trim_quotes strategy) tt db c)))

  pub outbox_create_if_not_exists-Holds :
      (faults : Faults F) (name : Text) (hours threshold : ℤ) (strategy : Text) (db : Database F)
      → IsConsistent db
      → Holds IsConsistent (outbox_create_if_not_exists faults name hours threshold strategy db)
  unfolding outbox_create_if_not_exists
  outbox_create_if_not_exists-Holds faults name hours threshold strategy db c =
      Holds-then IsConsistent (check_outbox name (trim_quotes strategy)) _ (
        Holds-bind IsConsistent (outbox_exists (faults.fault 0) name db) _ (λ exists e.
          Holds-if IsConsistent exists _ _ (λ here. c)
            (λ missing.
              insert_outbox-Holds faults name hours threshold (trim_quotes strategy) true db c)))

  pub outbox_drop-Holds :
      (faults : Faults F) (name : Text) (if_exists : Bool) (db : Database F)
      → IsConsistent db
      → Holds IsConsistent (outbox_drop faults name if_exists db)
  unfolding outbox_drop
  outbox_drop-Holds faults name if_exists db c =
      Holds-bind IsConsistent (outbox_exists (faults.fault 0) name db) _
        (λ exists e. by_exists exists)
    where
      by_exists : (b : Bool) → Holds IsConsistent (drop_existing b faults name if_exists db)
      by_exists false = Holds-if IsConsistent if_exists _ _ (λ e. c) (λ e. tt)
      by_exists true = Holds-then IsConsistent (run_spi F (faults.fault 1) _) _ (
          Holds-then IsConsistent (run_spi F (faults.fault 2) _) _ (
            Holds-then IsConsistent (run_spi F (faults.fault 3) _) _ (
              Holds-then IsConsistent (run_spi F (faults.fault 4) _) _
                (delete_outbox-IsConsistent name db c))))

  pub switch-Holds :
      (fault : Option F.Error) (name : Text) (enabled : Bool) (context : Text) (db : Database F)
      → IsConsistent db
      → Holds IsConsistent (switch fault name enabled context db)
  switch-Holds fault name enabled context db c =
      Holds-then IsConsistent (run_spi F fault context) _ (
        Holds-if IsConsistent (any (is_outbox name) db.outboxes) _ _
          (λ here. record {
            messages =
                All-map _ _ db.messages
                  (λ m h. HasOutbox-set_enabled name enabled db.outboxes m.outbox h) c.messages;
            groups =
                All-map _ _ db.groups
                  (λ g h. HasOutbox-set_enabled name enabled db.outboxes g.outbox h) c.groups;
            publishers =
                All-map _ _ db.publishers
                  (λ p h. HasOutbox-set_enabled name enabled db.outboxes p.outbox h) c.publishers;
            offsets = c.offsets;
            leases = c.leases;
            in_order = c.in_order;
          })
          (λ missing. tt))

  pub outbox_publish-Holds :
      (faults : Faults F) (roles : Roles) (clock : Clock F) (gap : ℕ) (name : Text)
      (payload headers : F.Value) (db : Database F)
      → IsConsistent db
      → Holds IsConsistent (outbox_publish faults roles clock gap name payload headers db)
  unfolding outbox_publish insert_message
  outbox_publish-Holds faults roles clock gap name payload headers db c =
      Holds-then IsConsistent (run_spi F (faults.fault 0) _) _ (
        Holds-bind IsConsistent (check_enabled (enabled_of name db.outboxes) name) _ (λ x on.
          Holds-then IsConsistent (authorize faults roles name db) _ (
            Holds-then IsConsistent (publish_statements faults name) _ (record {
              messages =
                  All-append _ db.messages _
                    (enabled_of-HasOutbox name db.outboxes true (check_enabled-eq-ok _ name on), tt)
                    c.messages;
              groups = c.groups;
              publishers = c.publishers;
              offsets = c.offsets;
              leases = c.leases;
              in_order =
                  Within-append 0 db.next_id (db.next_id + gap + 1) db.messages _ (omega arith)
                    (omega arith) c.in_order;
            }))))
