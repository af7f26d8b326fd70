-- ===== src/Extension/Calls/Grouping.antt =====
-- Calls on consumer groups and publishers keep the tables consistent.
use pg_tide.Prelude.{
  ◌≡◌, refl, ◌∙◌, subst, Bool, true, false, not, Option, none, some, List, [], ◌∷◌, ◌++◌, ◌||◌, All,
  All-map, All-append, map, any, if◌then◌else◌,
}
use pg_tide.Prelude.Int.{ℤ, pos, ltb_ℤ, leb_ℤ}
use pg_tide.Prelude.Text.{text, Text}
use pg_tide.Foreign.{Foreign}
use pg_tide.Extension.Failures.{
  ok, err, ◌>>◌, run_spi, >>-eq-ok, outbox_not_found, PgResult-ok-injective,
}
use pg_tide.Extension.Validation.{validate_identifier}
use pg_tide.Extension.Database.{
  Group, ConsumerOffset, Publisher, Database, Faults, Clock, is_outbox, is_group, is_offset_of,
  is_lease_of,
}
use pg_tide.Extension.Outboxes.{outbox_exists}
use pg_tide.Extension.Groups.{
  add_group, insert_group, create_consumer_group, drop_consumer_group, committed, set_offset,
  upsert, clear_lease, commit_offset, consumer_heartbeat, insert_publisher, is_publisher,
  outbox_grant_publish, outbox_revoke_publish, or_false, is_reset,
}
use pg_tide.Extension.Calls.Tables.{any-append_left, All-filter, any-map}
use pg_tide.Extension.Calls.Consistency.{
  HasOutbox, HasGroup, IsConsistent, Holds, Holds-then, Holds-bind, Holds-if,
  delete_group-IsConsistent, set_offset-All, any-set_offset,
}

module _ {F : Foreign} where
  pub outbox_exists-eq-ok :
      (fault : Option F.Error) (name : Text) (db : Database F) (b : Bool)
      → outbox_exists fault name db ≡ ok b
      → any (is_outbox name) db.outboxes ≡ b
  unfolding outbox_exists
  outbox_exists-eq-ok fault name db b h =
      let e = >>-eq-ok (run_spi F fault (text "outbox_exists SPI error: ")) (ok _) h in cc e

  with_group-IsConsistent :
      (db : Database F) (g : Group)
      → HasOutbox db.outboxes g.outbox
      → IsConsistent db
      → IsConsistent (record db { groups = db.groups ++ g ∷ [] })
  with_group-IsConsistent db g has c = record {
    messages = c.messages;
    groups = All-append _ db.groups (g ∷ []) (has, tt) c.groups;
    publishers = c.publishers;
    offsets =
        All-map _ _ db.offsets (λ o h. any-append_left (is_group o.group) db.groups (g ∷ []) h)
          c.offsets;
    leases = c.leases;
    in_order = c.in_order;
  }

  insert_group-Holds :
      (faults : Faults F) (name outbox reset : Text) (db : Database F)
      → HasOutbox db.outboxes outbox
      → IsConsistent db
      → Holds IsConsistent (insert_group faults name outbox reset db)
  insert_group-Holds faults name outbox reset db has c =
      let g : Group = record { name = name; outbox = outbox; auto_offset_reset = reset } in
      let added : Database F = record db { groups = db.groups ++ g ∷ [] } in
      Holds-then IsConsistent
        (run_spi F
          (if any (is_group name) db.groups then some faults.duplicate_key else faults.fault 2)
          (text "INSERT consumer_groups: "))
        (ok (tt, added)) (with_group-IsConsistent db g has c)

  add_group-Holds :
      (faults : Faults F) (name outbox reset : Text) (if_not_exists : Bool) (db : Database F)
      → HasOutbox db.outboxes outbox
      → IsConsistent db
      → Holds IsConsistent (add_group faults name outbox reset if_not_exists db)
  unfolding add_group
  add_group-Holds faults name outbox reset if_not_exists db has c =
      Holds-if IsConsistent (or_false (faults.fault 1) (any (is_group name) db.groups)) _ _
        (λ here. Holds-if IsConsistent if_not_exists _ _ (λ e. c) (λ e. tt))
        (λ missing.
          Holds-if IsConsistent (is_reset reset) _ _
            (λ e. insert_group-Holds faults name outbox reset db has c) (λ e. tt))

  pub create_consumer_group-Holds :
      (faults : Faults F) (name outbox reset : Text) (if_not_exists : Bool) (db : Database F)
      → IsConsistent db
      → Holds IsConsistent (create_consumer_group faults name outbox reset if_not_exists db)
  unfolding create_consumer_group
  create_consumer_group-Holds faults name outbox reset if_not_exists db c =
      Holds-bind IsConsistent (outbox_exists (faults.fault 0) outbox db) _ (λ exists e.
        Holds-if IsConsistent exists _ _
          (λ here.
            add_group-Holds faults name outbox reset if_not_exists db
              (outbox_exists-eq-ok (faults.fault 0) outbox db exists e ∙ here) c)
          (λ missing. tt))

  pub drop_consumer_group-Holds :
      (faults : Faults F) (name : Text) (if_exists : Bool) (db : Database F)
      → IsConsistent db
      → Holds IsConsistent (drop_consumer_group faults name if_exists db)
  unfolding drop_consumer_group
  drop_consumer_group-Holds faults name if_exists db c =
      Holds-then IsConsistent (run_spi F (faults.fault 0) _) _ (
        Holds-if IsConsistent (any (is_group name) db.groups || if_exists) _ _
          (λ e. delete_group-IsConsistent name db c) (λ e. tt))

  -- The offsets after an upsert, which keep what refers to them and refer to groups.
  record IsUpsert (db : Database F) (offsets : List (ConsumerOffset F)) : Type 0 where
    groups : All (λ (o : ConsumerOffset F). HasGroup db.groups o.group) offsets
    keeps :
        (g c : Text)
        → any (is_offset_of g c) db.offsets ≡ true
        → any (is_offset_of g c) offsets ≡ true

  IsUpsertIf : Database F → Option (List (ConsumerOffset F)) → Type 0
  IsUpsertIf db none = Unit
  IsUpsertIf db (some offsets) = IsUpsert db offsets

  upsert-IsUpsert :
      (faults : Faults F) (clock : Clock F) (group consumer : Text) (v : ℤ) (old : Option ℤ)
      (db : Database F) (r : Option (List (ConsumerOffset F)))
      → IsConsistent db
      → upsert faults clock group consumer v old db ≡ ok r
      → IsUpsertIf db r
  unfolding IsUpsertIf
  upsert-IsUpsert faults clock group consumer v none db r c h =
      by_group (any (is_group group) db.groups) refl h
    where
      by_group :
          (b : Bool)
          → any (is_group group) db.groups ≡ b
          → (if b
              then ok (
                  some (
                    db.offsets
                    ++ record {
                      group = group;
                      consumer = consumer;
                      committed_offset = v;
                      last_heartbeat = clock.now;
                    }
                      ∷ []))
              else run_spi F (some faults.missing_key) (text "commit_offset: ") >> ok none)
            ≡ ok r
          → IsUpsertIf db r
      by_group false e h = cc h
      by_group true e h =
          let same = PgResult-ok-injective _ r h in
          subst (IsUpsertIf db) same (record {
            groups = All-append _ db.offsets _ (e, tt) c.offsets;
            keeps = λ g d found. any-append_left (is_offset_of g d) db.offsets _ found;
          })
  upsert-IsUpsert faults clock group consumer v (some old) db r c h = by_order (leb_ℤ old v) h
    where
      by_order :
          (b : Bool)
          → (if b then ok (some (set_offset clock group consumer v db.offsets)) else ok none) ≡ ok r
          → IsUpsertIf db r
      by_order false h = subst (IsUpsertIf db) (PgResult-ok-injective none r h) tt
      by_order true h = subst (IsUpsertIf db) (PgResult-ok-injective _ r h) (record {
        groups = set_offset-All (HasGroup db.groups) clock group consumer v db.offsets c.offsets;
        keeps = λ g d found. any-set_offset clock group consumer v g d db.offsets ∙ found;
      })

  clear_lease-Holds :
      (faults : Faults F) (group consumer : Text) (v : ℤ) (r : Option (List (ConsumerOffset F)))
      (db : Database F)
      → IsConsistent db
      → IsUpsertIf db r
      → Holds IsConsistent (clear_lease faults group consumer v r db)
  unfolding clear_lease IsUpsertIf
  clear_lease-Holds faults group consumer v none db c u = tt
  clear_lease-Holds faults group consumer v (some offsets) db c u =
      Holds-then IsConsistent (run_spi F (faults.fault 1) _) _ (record {
        messages = c.messages;
        groups = c.groups;
        publishers = c.publishers;
        offsets = u.groups;
        leases =
            All-filter _ _ (λ l. not (is_lease_of group consumer l)) db.leases
              (λ l stays h. u.keeps l.group l.consumer h) c.leases;
        in_order = c.in_order;
      })

  pub commit_offset-Holds :
      (faults : Faults F) (clock : Clock F) (group consumer : Text) (v : ℤ) (db : Database F)
      → IsConsistent db
      → Holds IsConsistent (commit_offset faults clock group consumer v db)
  unfolding commit_offset
  commit_offset-Holds faults clock group consumer v db c =
      Holds-if IsConsistent (ltb_ℤ v (pos 0)) _ _ (λ e. tt)
        (λ e. Holds-then IsConsistent (run_spi F (faults.fault 0) _) _ (
          Holds-bind IsConsistent
            (upsert faults clock group consumer v (committed group consumer db.offsets) db) _
            (λ r k.
              clear_lease-Holds faults group consumer v r db c
                (upsert-IsUpsert faults clock group consumer v _ db r c k))))

  beat : Clock F → Text → Text → ConsumerOffset F → ConsumerOffset F
  beat clock group consumer o =
      if is_offset_of group consumer o then record o { last_heartbeat = clock.now } else o

  beat-All :
      (clock : Clock F) (group consumer : Text) (Q : Text → Type 0) (os : List (ConsumerOffset F))
      → All (λ (o : ConsumerOffset F). Q o.group) os
      → All (λ (o : ConsumerOffset F). Q o.group) (map (beat clock group consumer) os)
  unfolding beat
  beat-All clock group consumer Q [] h = tt
  beat-All clock group consumer Q (o ∷ os) h =
      (by_case (is_offset_of group consumer o), beat-All clock group consumer Q os h.1)
    where
      by_case :
          (b : Bool)
          → Q (
              let beaten : ConsumerOffset F =
                if b then record o { last_heartbeat = clock.now } else o in
              beaten.group)
      by_case true = h.0
      by_case false = h.0

  beat-is_offset_of :
      (clock : Clock F) (group consumer g c : Text) (o : ConsumerOffset F)
      → is_offset_of g c (beat clock group consumer o) ≡ is_offset_of g c o
  unfolding beat
  beat-is_offset_of clock group consumer g c o = by_case (is_offset_of group consumer o)
    where
      by_case :
          (b : Bool)
          → is_offset_of g c (if b then record o { last_heartbeat = clock.now } else o)
            ≡ is_offset_of g c o
      by_case true = refl
      by_case false = refl

  pub consumer_heartbeat-Holds :
      (faults : Faults F) (clock : Clock F) (group consumer : Text) (db : Database F)
      → IsConsistent db
      → Holds IsConsistent (consumer_heartbeat faults clock group consumer db)
  unfolding consumer_heartbeat beat
  consumer_heartbeat-Holds faults clock group consumer db c =
      Holds-then IsConsistent (run_spi F (faults.fault 0) _) _ (record {
        messages = c.messages;
        groups = c.groups;
        publishers = c.publishers;
        offsets = beat-All clock group consumer (HasGroup db.groups) db.offsets c.offsets;
        leases =
            All-map _ _ db.leases
              (λ l h.
                any-map (is_offset_of l.group l.consumer) (beat clock group consumer) db.offsets
                  (beat-is_offset_of clock group consumer l.group l.consumer)
                ∙ h)
              c.leases;
        in_order = c.in_order;
      })

  with_publishers-IsConsistent :
      (db : Database F) (publishers : List Publisher)
      → All (λ (p : Publisher). HasOutbox db.outboxes p.outbox) publishers
      → IsConsistent db
      → IsConsistent (record db { publishers = publishers })
  with_publishers-IsConsistent db publishers h c = record {
    messages = c.messages;
    groups = c.groups;
    publishers = h;
    offsets = c.offsets;
    leases = c.leases;
    in_order = c.in_order;
  }

  pub outbox_grant_publish-Holds :
      (faults : Faults F) (outbox role : Text) (db : Database F)
      → IsConsistent db
      → Holds IsConsistent (outbox_grant_publish faults outbox role db)
  unfolding outbox_grant_publish
  outbox_grant_publish-Holds faults outbox role db c =
      Holds-then IsConsistent (validate_identifier outbox) _ (
        Holds-then IsConsistent (validate_identifier role) _ (
          Holds-bind IsConsistent (outbox_exists (faults.fault 0) outbox db) _ (λ exists e.
            by_exists exists (outbox_exists-eq-ok (faults.fault 0) outbox db exists e))))
    where
      by_inserted :
          (b : Bool)
          → HasOutbox db.outboxes outbox
          → All
              (λ (p : Publisher). HasOutbox db.outboxes p.outbox)
              (if b
                then db.publishers
                else db.publishers ++ record { outbox = outbox; role = role } ∷ [])
      by_inserted true has = c.publishers
      by_inserted false has = All-append _ db.publishers _ (has, tt) c.publishers

      by_exists :
          (b : Bool)
          → any (is_outbox outbox) db.outboxes ≡ b
          → Holds {0} IsConsistent (
              (if b then ok tt else err (outbox_not_found outbox))
              >> (run_spi F (faults.fault 1) (text "outbox_grant_publish: ")
                  >> ok
                      (tt, record db { publishers = insert_publisher outbox role db.publishers })))
      by_exists false has = tt
      by_exists true has =
          Holds-then IsConsistent (run_spi F (faults.fault 1) (text "outbox_grant_publish: ")) _ (
            with_publishers-IsConsistent db _
              (by_inserted (any (is_publisher outbox role) db.publishers) has) c)

  pub outbox_revoke_publish-Holds :
      (faults : Faults F) (outbox role : Text) (db : Database F)
      → IsConsistent db
      → Holds IsConsistent (outbox_revoke_publish faults outbox role db)
  unfolding outbox_revoke_publish
  outbox_revoke_publish-Holds faults outbox role db c =
      Holds-then IsConsistent (validate_identifier outbox) _ (
        Holds-then IsConsistent (validate_identifier role) _ (
          Holds-then IsConsistent (run_spi F (faults.fault 0) _) _ (
            with_publishers-IsConsistent db _
              (All-filter _ _ (λ p. not (is_publisher outbox role p)) db.publishers (λ p e h. h)
                c.publishers)
              c)))
