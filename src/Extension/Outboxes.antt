-- ===== src/Extension/Outboxes.antt =====
-- pg-tide-ext/src/outbox.rs: creating, dropping, enabling and disabling outboxes.
use pg_tide.Prelude.{
  ℕ, ◌+◌, Bool, true, false, not, Option, none, List, [], ◌∷◌, ◌++◌, map, ◌||◌, ◌&&◌, ◌==◌, ltb,
  any, filter, if◌then◌else◌,
}
use pg_tide.Prelude.Int.{ℤ, pos}
use pg_tide.Prelude.Text.{Text, text, text_eq, byte_len, decimal}
use pg_tide.Foreign.{Foreign}
use pg_tide.Extension.Failures.{
  PgResult, ok, err, ◌>>=◌, ◌>>◌, run_spi, invalid_argument, outbox_already_exists,
  outbox_not_found,
}
use pg_tide.Extension.Validation.{validate_identifier}
use pg_tide.Extension.Database.{Outbox, Cleanup, Group, Database, Faults, is_outbox}

-- `trim_matches('\'')`.
drop_quotes : Text → Text
drop_quotes [] = []
drop_quotes (c ∷ s) = let rest = drop_quotes s in if c == 39 then rest else c ∷ s

-- The quotes at the end.
drop_last_quotes : Text → Text
drop_last_quotes [] = []
drop_last_quotes (c ∷ s) = keep c (drop_last_quotes s)
  where
    keep : ℕ → Text → Text
    keep c [] = if c == 39 then [] else c ∷ []
    keep c (d ∷ s) = c ∷ d ∷ s

unfoldable pub trim_quotes : Text → Text
unfolding drop_quotes drop_last_quotes
trim_quotes s = drop_last_quotes (drop_quotes s)

unfoldable pub is_strategy : Text → Bool
is_strategy s =
    text_eq s (text "none")
    || text_eq s (text "daily")
    || text_eq s (text "weekly")
    || text_eq s (text "monthly")

-- `name.replace('-', "_")`.
abbrev pub fragment_of : Text → Text
fragment_of name = map (λ c. if c == 45 then 95 else c) name

-- The name of a partition's backup table must not be longer than an identifier.
abbrev pub is_too_long : Text → Text → Bool
is_too_long name strategy =
    not (text_eq strategy (text "none"))
    && ltb 63 (byte_len (text "tide_outbox_messages_backup_") + byte_len (fragment_of name))

too_long : Text → Text
too_long name =
    text "outbox name '"
    ++ name
    ++ text
        "' is too long for partitioned outbox table naming (backup prefix is 29 bytes, max name fragment is 34 bytes, got "
    ++ decimal (byte_len (fragment_of name))
    ++ text " bytes). Shorten the outbox name to at most 34 characters."

unfoldable pub check_outbox : Text → Text → PgResult (Unit {0})
unfolding too_long
check_outbox name strategy =
    validate_identifier name
    >> (if is_strategy strategy
        then if is_too_long name strategy then err (invalid_argument (too_long name)) else ok tt
        else err (
            invalid_argument (
              text "partition_strategy must be 'none', 'daily', 'weekly', or 'monthly'; got '"
              ++ strategy
              ++ text "'")))

-- A new row of `tide.outbox_cleanup_state`; ON CONFLICT DO NOTHING.
abbrev pub new_cleanup : Text → Cleanup
new_cleanup name = record {
  outbox = name;
  last_safe_offset = none;
  highest_deleted_id = pos 0;
  last_batch_rows = 0;
  total_rows_deleted = 0;
}

abbrev pub insert_cleanup : Text → List Cleanup → List Cleanup
insert_cleanup name cleanups =
    if any (λ c. text_eq name c.outbox) cleanups
    then cleanups
    else cleanups ++ new_cleanup name ∷ []

-- The deletion of groups cascades to their offsets and leases.
abbrev pub in_dropped_group : List Group → Text → Text → Bool
in_dropped_group groups outbox name =
    any (λ g. text_eq outbox g.outbox && text_eq name g.name) groups

abbrev pub set_enabled : Text → Bool → Outbox → Outbox
set_enabled name enabled o = if is_outbox name o then record o { enabled = enabled } else o

-- `WITH u AS (UPDATE … RETURNING 1) SELECT COUNT(*)`, which is never NULL.
module _ {F : Foreign} where
  unfoldable pub outbox_exists : Option F.Error → Text → Database F → PgResult Bool
  outbox_exists fault name db = do
    run_spi F fault (text "outbox_exists SPI error: ")
    ok (any (is_outbox name) db.outboxes)

  -- The new rows of an outbox.
  unfoldable pub with_outbox : Text → ℤ → ℤ → Text → Database F → Database F
  with_outbox name retention_hours inline_threshold strategy db = record db {
    outboxes =
        db.outboxes
        ++ record {
          name = name;
          retention_hours = retention_hours;
          inline_threshold = inline_threshold;
          partition_strategy = strategy;
          enabled = true;
        }
          ∷ [];
    cleanups = insert_cleanup name db.cleanups;
  }

  -- The two inserts, with what the function then returns.
  unfoldable pub insert_outbox {ℓ} :
      {A : Type ℓ} → Faults F → Text → ℤ → ℤ → Text → A → Database F → PgResult (A × Database F)
  unfolding with_outbox
  insert_outbox faults name retention_hours inline_threshold strategy returned db =
      run_spi F (faults.fault 1) (text "INSERT tide_outbox_config: ")
      >> run_spi F (faults.fault 2) (text "INSERT outbox_cleanup_state: ")
      >> ok (returned, with_outbox name retention_hours inline_threshold strategy db)

  unfoldable pub outbox_create :
      Faults F → Text → ℤ → ℤ → Text → Database F → PgResult (Unit {0} × Database F)
  unfolding check_outbox outbox_exists insert_outbox
  outbox_create faults name retention_hours inline_threshold partition_strategy db =
      let strategy = trim_quotes partition_strategy in
      check_outbox name strategy
      >> (outbox_exists (faults.fault 0) name db >>= λ exists.
          if exists
          then err (outbox_already_exists name)
          else insert_outbox faults name retention_hours inline_threshold strategy tt db)

  unfoldable pub outbox_create_if_not_exists :
      Faults F → Text → ℤ → ℤ → Text → Database F → PgResult (Bool × Database F)
  unfolding check_outbox outbox_exists insert_outbox
  outbox_create_if_not_exists faults name retention_hours inline_threshold partition_strategy db =
      let strategy = trim_quotes partition_strategy in
      check_outbox name strategy
      >> (outbox_exists (faults.fault 0) name db >>= λ exists.
          if exists
          then ok (false, db)
          else insert_outbox faults name retention_hours inline_threshold strategy true db)

  -- `DELETE FROM` the messages, the groups and the configuration, which cascades to the cleanup
  -- state and the publishers.
  unfoldable pub delete_outbox : Text → Database F → Database F
  delete_outbox name db = record db {
    outboxes = filter (λ o. not (is_outbox name o)) db.outboxes;
    messages = filter (λ m. not (text_eq name m.outbox)) db.messages;
    cleanups = filter (λ c. not (text_eq name c.outbox)) db.cleanups;
    groups = filter (λ g. not (text_eq name g.outbox)) db.groups;
    offsets = filter (λ o. not (in_dropped_group db.groups name o.group)) db.offsets;
    leases = filter (λ l. not (in_dropped_group db.groups name l.group)) db.leases;
    publishers = filter (λ p. not (text_eq name p.outbox)) db.publishers;
  }

  abbrev pub drop_existing :
      Bool → Faults F → Text → Bool → Database F → PgResult (Unit {0} × Database F)
  drop_existing false faults name if_exists db =
      if if_exists then ok (tt, db) else err (outbox_not_found name)
  drop_existing true faults name if_exists db = do
    run_spi F (faults.fault 1) (text "outbox fence for '" ++ name ++ text "': ")
    run_spi F (faults.fault 2) (text "DELETE outbox_messages: ")
    run_spi F (faults.fault 3) (text "DELETE consumer_groups: ")
    run_spi F (faults.fault 4) (text "DELETE tide_outbox_config: ")
    ok (tt, delete_outbox name db)

  unfoldable pub outbox_drop :
      Faults F → Text → Bool → Database F → PgResult (Unit {0} × Database F)
  unfolding outbox_exists delete_outbox
  outbox_drop faults name if_exists db = do
    exists ← outbox_exists (faults.fault 0) name db
    drop_existing exists faults name if_exists db

  abbrev pub switch :
      Option F.Error → Text → Bool → Text → Database F → PgResult (Unit {0} × Database F)
  switch fault name enabled context db =
      run_spi F fault context
      >> (if any (is_outbox name) db.outboxes
          then ok (tt, record db { outboxes = map (set_enabled name enabled) db.outboxes })
          else err (outbox_not_found name))

  unfoldable pub outbox_disable : Faults F → Text → Database F → PgResult (Unit {0} × Database F)
  outbox_disable faults name db =
      switch (faults.fault 0) name false (text "disable outbox '" ++ name ++ text "': ") db

  unfoldable pub outbox_enable : Faults F → Text → Database F → PgResult (Unit {0} × Database F)
  outbox_enable faults name db =
      switch (faults.fault 0) name true (text "enable outbox '" ++ name ++ text "': ") db
