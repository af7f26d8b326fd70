-- ===== src/Extension/Groups.antt =====
-- pg-tide-ext/src/outbox.rs: consumer groups with their offsets, and the publishers of an outbox.
pub mod Registers
pub mod Commits
use pg_tide.Prelude.{
  Bool, false, not, Option, none, some, List, [], ◌∷◌, ◌++◌, map, ◌||◌, ◌&&◌, any, filter,
  if◌then◌else◌,
}
use pg_tide.Prelude.Int.{ℤ, pos, ltb_ℤ, leb_ℤ}
use pg_tide.Prelude.Text.{Text, text, text_eq, decimal_ℤ}
use pg_tide.Foreign.{Foreign}
use pg_tide.Extension.Failures.{
  PgResult, ok, err, ◌>>=◌, ◌>>◌, run_spi, invalid_argument, outbox_not_found,
}
use pg_tide.Extension.Validation.{validate_identifier}
use pg_tide.Extension.Database.{
  ConsumerOffset, Publisher, Database, Faults, Clock, is_group, is_offset_of, is_lease_of,
}
use pg_tide.Extension.Outboxes.{outbox_exists}

unfoldable pub is_reset : Text → Bool
is_reset s = text_eq s (text "earliest") || text_eq s (text "latest") || text_eq s (text "none")

abbrev pub is_publisher : Text → Text → Publisher → Bool
is_publisher outbox role p = text_eq outbox p.outbox && text_eq role p.role

-- `INSERT … ON CONFLICT (outbox_name, role_name) DO NOTHING`.
abbrev pub insert_publisher : Text → Text → List Publisher → List Publisher
insert_publisher outbox role publishers =
    if any (is_publisher outbox role) publishers
    then publishers
    else publishers ++ record { outbox = outbox; role = role } ∷ []

-- A query of which a failure counts as false: `.unwrap_or(None).unwrap_or(false)`.
abbrev pub or_false {ℓ} : {E : Type ℓ} → Option E → Bool → Bool
or_false none b = b
or_false (some e) b = false

module _ {F : Foreign} where
  -- The insert of a group, whose name is the primary key.
  abbrev pub insert_group :
      Faults F → Text → Text → Text → Database F → PgResult (Unit {0} × Database F)
  insert_group faults name outbox reset db =
      run_spi F
        (if any (is_group name) db.groups then some faults.duplicate_key else faults.fault 2)
        (text "INSERT consumer_groups: ")
      >> ok (
        tt,
        record db {
          groups =
              db.groups ++ record { name = name; outbox = outbox; auto_offset_reset = reset } ∷ [];
        },
      )

  unfoldable pub add_group :
      Faults F → Text → Text → Text → Bool → Database F → PgResult (Unit {0} × Database F)
  unfolding is_reset
  add_group faults name outbox reset if_not_exists db =
      if or_false (faults.fault 1) (any (is_group name) db.groups)
      then (if if_not_exists
          then ok (tt, db)
          else err (invalid_argument (text "consumer group '" ++ name ++ text "' already exists")))
      else if is_reset reset
      then insert_group faults name outbox reset db
      else err (
          invalid_argument (
            text "auto_offset_reset must be one of: earliest, latest, none; got '"
            ++ reset
            ++ text "'"))

  unfoldable pub create_consumer_group :
      Faults F → Text → Text → Text → Bool → Database F → PgResult (Unit {0} × Database F)
  unfolding outbox_exists add_group
  create_consumer_group faults name outbox reset if_not_exists db = do
    exists ← outbox_exists (faults.fault 0) outbox db
    if exists
        then add_group faults name outbox reset if_not_exists db
        else err (outbox_not_found outbox)

  -- The deletion of a group cascades to its offsets and leases.
  unfoldable pub delete_group : Text → Database F → Database F
  delete_group name db = record db {
    groups = filter (λ g. not (is_group name g)) db.groups;
    offsets = filter (λ o. not (text_eq name o.group)) db.offsets;
    leases = filter (λ l. not (text_eq name l.group)) db.leases;
  }

  unfoldable pub drop_consumer_group :
      Faults F → Text → Bool → Database F → PgResult (Unit {0} × Database F)
  unfolding delete_group
  drop_consumer_group faults name if_exists db =
      run_spi F (faults.fault 0) (text "drop consumer group '" ++ name ++ text "': ")
      >> (if any (is_group name) db.groups || if_exists
          then ok (tt, delete_group name db)
          else err (invalid_argument (text "consumer group '" ++ name ++ text "' not found")))

  -- The row of the consumer before the upsert.
  unfoldable pub committed : Text → Text → List (ConsumerOffset F) → Option ℤ
  committed group consumer [] = none
  committed group consumer (o ∷ os) =
      let rest = committed group consumer os in
      if is_offset_of group consumer o then some o.committed_offset else rest

  unfoldable pub set_offset :
      Clock F → Text → Text → ℤ → List (ConsumerOffset F) → List (ConsumerOffset F)
  set_offset clock group consumer offset [] = []
  set_offset clock group consumer offset (o ∷ os) =
      let rest = set_offset clock group consumer offset os in
      if is_offset_of group consumer o
      then record o { committed_offset = offset; last_heartbeat = clock.now } ∷ rest
      else o ∷ rest

  -- `INSERT … ON CONFLICT DO UPDATE … WHERE old <= new RETURNING`: no row is returned when the
  -- stored offset is greater. The group must exist.
  abbrev pub upsert :
      Faults F
      → Clock F
      → Text
      → Text
      → ℤ
      → Option ℤ
      → Database F
      → PgResult (Option (List (ConsumerOffset F)))
  upsert faults clock group consumer offset none db =
      if any (is_group group) db.groups
      then ok (
          some (
            db.offsets
            ++ record {
              group = group;
              consumer = consumer;
              committed_offset = offset;
              last_heartbeat = clock.now;
            }
              ∷ []))
      else run_spi F (some faults.missing_key) (text "commit_offset: ") >> ok none
  upsert faults clock group consumer offset (some old) db =
      if leb_ℤ old offset
      then ok (some (set_offset clock group consumer offset db.offsets))
      else ok none

  unfoldable pub clear_lease :
      Faults F
      → Text
      → Text
      → ℤ
      → Option (List (ConsumerOffset F))
      → Database F
      → PgResult (Unit {0} × Database F)
  clear_lease faults group consumer offset none db = err (
      invalid_argument
        (text "consumer offset " ++ decimal_ℤ offset ++ text " is lower than the committed offset"))
  clear_lease faults group consumer offset (some offsets) db =
      run_spi F (faults.fault 1) (text "clear consumer lease: ")
      >> ok (
        tt,
        record db {
          offsets = offsets;
          leases = filter (λ l. not (is_lease_of group consumer l)) db.leases;
        },
      )

  unfoldable pub commit_offset :
      Faults F → Clock F → Text → Text → ℤ → Database F → PgResult (Unit {0} × Database F)
  unfolding clear_lease
  commit_offset faults clock group consumer offset db =
      if ltb_ℤ offset (pos 0)
      then err (invalid_argument (text "consumer offset must be non-negative"))
      else run_spi F (faults.fault 0) (text "commit_offset: ")
        >> (upsert faults clock group consumer offset (committed group consumer db.offsets) db
            >>= λ offsets. clear_lease faults group consumer offset offsets db)

  unfoldable pub consumer_heartbeat :
      Faults F → Clock F → Text → Text → Database F → PgResult (Unit {0} × Database F)
  consumer_heartbeat faults clock group consumer db =
      run_spi F (faults.fault 0) (text "consumer heartbeat: ")
      >> ok (
        tt,
        record db {
          offsets =
              map
                (λ o.
                  if is_offset_of group consumer o
                  then record o { last_heartbeat = clock.now }
                  else o)
                db.offsets;
        },
      )

  unfoldable pub outbox_grant_publish :
      Faults F → Text → Text → Database F → PgResult (Unit {0} × Database F)
  unfolding outbox_exists
  outbox_grant_publish faults outbox role db = do
    validate_identifier outbox
    validate_identifier role
    exists ← outbox_exists (faults.fault 0) outbox db
    (if exists then ok tt else err (outbox_not_found outbox))
    run_spi F (faults.fault 1) (text "outbox_grant_publish: ")
    ok (tt, record db { publishers = insert_publisher outbox role db.publishers })

  unfoldable pub outbox_revoke_publish :
      Faults F → Text → Text → Database F → PgResult (Unit {0} × Database F)
  outbox_revoke_publish faults outbox role db = do
    validate_identifier outbox
    validate_identifier role
    run_spi F (faults.fault 0) (text "outbox_revoke_publish: ")
    ok (tt, record db { publishers = filter (λ p. not (is_publisher outbox role p)) db.publishers })
