-- ===== src/Extension/Calls/Consistency.antt =====
-- The references between the tables, and what keeps them.
use pg_tide.Prelude.{
  Occurs, ◌≡◌, refl, ap, ◌∙◌, Bool, true, false, not, List, [], ◌∷◌, ◌&&◌, ◌||◌, All, any, filter,
  if◌then◌else◌,
}
use pg_tide.Prelude.Int.{ℤ}
use pg_tide.Prelude.Text.{Text, text_eq}
use pg_tide.Foreign.{Foreign}
use pg_tide.Extension.Failures.{PgResult, ok, err, ◌>>=◌, ◌>>◌}
use pg_tide.Extension.Database.{
  Outbox, Message, Group, ConsumerOffset, Lease, Publisher, Database, Clock, is_outbox, is_group,
  is_offset_of, or_abort,
}
use pg_tide.Extension.Candidates.Removal.{Occurs-any, and_left}
use pg_tide.Extension.Outboxes.{delete_outbox, in_dropped_group}
use pg_tide.Extension.Groups.{delete_group, set_offset}
use pg_tide.Extension.Calls.Tables.{
  any-filter, All-filter, false_of_not, same_name, Within, Within-filter,
}

abbrev pub HasOutbox : List Outbox → Text → Type 0
HasOutbox outboxes name = any (is_outbox name) outboxes ≡ true

abbrev pub HasGroup : List Group → Text → Type 0
HasGroup groups name = any (is_group name) groups ≡ true

-- An outbox of another name outlives a drop.
HasOutbox-drop :
    (name other : Text) (outboxes : List Outbox)
    → not (text_eq name other) ≡ true
    → HasOutbox outboxes other
    → HasOutbox (filter (λ o. not (is_outbox name o)) outboxes) other
HasOutbox-drop name other outboxes apart h =
    any-filter (is_outbox other) (λ o. not (is_outbox name o)) outboxes
      (λ o at same. same_name (λ n. not (text_eq name n)) other o.name same apart) h

module _ {F : Foreign} where
  abbrev pub HasOffset : List (ConsumerOffset F) → Lease F → Type 0
  HasOffset offsets l = any (is_offset_of l.group l.consumer) offsets ≡ true

  -- Every message, group and publisher is of an outbox that is there, every offset of a group that
  -- is there, every lease of an offset that is there; and the messages stand in the order of their
  -- ids, all below the next one.
  pub record IsConsistent (db : Database F) : Type 0 where
    pub messages : All (λ (m : Message F). HasOutbox db.outboxes m.outbox) db.messages
    pub groups : All (λ (g : Group). HasOutbox db.outboxes g.outbox) db.groups
    pub publishers : All (λ (p : Publisher). HasOutbox db.outboxes p.outbox) db.publishers
    pub offsets : All (λ (o : ConsumerOffset F). HasGroup db.groups o.group) db.offsets
    pub leases : All (HasOffset db.offsets) db.leases
    pub in_order : Within 0 db.next_id db.messages

  -- What a call that returns leaves has the property.
  abbrev pub Holds {ℓ} : {A : Type ℓ} → (Database F → Type 0) → PgResult (A × Database F) → Type 0
  Holds Q (ok (a, new)) = Q new
  Holds Q (err e) = Unit

  pub Holds-or_abort {ℓ} :
      {A : Type ℓ} (Q : Database F → Type 0) (r : PgResult (A × Database F)) (db : Database F)
      → Holds Q r
      → Q db
      → Q (or_abort r db)
  Holds-or_abort Q (ok (a, new)) db h old = h
  Holds-or_abort Q (err e) db h old = old

  pub Holds-then {ℓ} :
      {A : Type ℓ} (Q : Database F → Type 0) (first : PgResult (Unit {0}))
      (r : PgResult (A × Database F))
      → Holds Q r
      → Holds Q (first >> r)
  Holds-then Q (ok x) r h = h
  Holds-then Q (err e) r h = tt

  pub Holds-bind {ℓ κ} :
      {A : Type ℓ} {B : Type κ} (Q : Database F → Type 0) (first : PgResult B)
      (rest : B → PgResult (A × Database F))
      → ((b : B) → first ≡ ok b → Holds Q (rest b))
      → Holds Q (first >>= rest)
  Holds-bind Q (ok b) rest h = h b refl
  Holds-bind Q (err e) rest h = tt

  pub Holds-if {ℓ} :
      {A : Type ℓ} (Q : Database F → Type 0) (b : Bool) (x y : PgResult (A × Database F))
      → (b ≡ true → Holds Q x)
      → (b ≡ false → Holds Q y)
      → Holds Q (if b then x else y)
  Holds-if Q true x y h k = h refl
  Holds-if Q false x y h k = k refl

  pub delete_outbox-IsConsistent :
      (name : Text) (db : Database F) → IsConsistent db → IsConsistent (delete_outbox name db)
  unfolding delete_outbox
  delete_outbox-IsConsistent name db c = record {
    messages =
        All-filter _ _ (λ m. not (text_eq name m.outbox)) db.messages
          (λ m apart h. HasOutbox-drop name m.outbox db.outboxes apart h) c.messages;
    groups =
        All-filter _ _ (λ g. not (text_eq name g.outbox)) db.groups
          (λ g apart h. HasOutbox-drop name g.outbox db.outboxes apart h) c.groups;
    publishers =
        All-filter _ _ (λ p. not (text_eq name p.outbox)) db.publishers
          (λ p apart h. HasOutbox-drop name p.outbox db.outboxes apart h) c.publishers;
    offsets =
        All-filter _ _ (λ o. not (in_dropped_group db.groups name o.group)) db.offsets
          (λ o stays h.
            any-filter (is_group o.group) (λ g. not (text_eq name g.outbox)) db.groups
              (λ g at same. kept_group o.group stays g at same) h)
          c.offsets;
    leases =
        All-filter _ _ (λ l. not (in_dropped_group db.groups name l.group)) db.leases
          (λ l stays h.
            any-filter (is_offset_of l.group l.consumer)
              (λ o. not (in_dropped_group db.groups name o.group)) db.offsets
              (λ o at same.
                same_name (λ n. not (in_dropped_group db.groups name n)) l.group o.group
                  (and_left (text_eq l.group o.group) _ same) stays)
              h)
          c.leases;
    in_order = Within-filter (λ m. not (text_eq name m.outbox)) 0 db.next_id db.messages c.in_order;
  }
    where
      kept_group :
          (group : Text)
          → not (in_dropped_group db.groups name group) ≡ true
          → (g : Group) → Occurs g db.groups
          → is_group group g ≡ true
          → not (text_eq name g.outbox) ≡ true
      kept_group group stays g at same = by_case (text_eq name g.outbox) refl
        where
          by_case : (b : Bool) → text_eq name g.outbox ≡ b → not b ≡ true
          by_case false e = refl
          by_case true e =
              let dropped : in_dropped_group db.groups name group ≡ true =
                Occurs-any (λ k. text_eq name k.outbox && text_eq group k.name) db.groups g at
                  (ap (λ b. b && text_eq group g.name) e ∙ same) in
              absurd (cc (dropped, false_of_not _ stays))

  pub delete_group-IsConsistent :
      (name : Text) (db : Database F) → IsConsistent db → IsConsistent (delete_group name db)
  unfolding delete_group
  delete_group-IsConsistent name db c = record {
    messages = c.messages;
    groups = All-filter _ _ (λ g. not (is_group name g)) db.groups (λ g apart h. h) c.groups;
    publishers = c.publishers;
    offsets =
        All-filter _ _ (λ o. not (text_eq name o.group)) db.offsets
          (λ o apart h.
            any-filter (is_group o.group) (λ g. not (is_group name g)) db.groups
              (λ g at same. same_name (λ n. not (text_eq name n)) o.group g.name same apart) h)
          c.offsets;
    leases =
        All-filter _ _ (λ l. not (text_eq name l.group)) db.leases
          (λ l apart h.
            any-filter (is_offset_of l.group l.consumer) (λ o. not (text_eq name o.group))
              db.offsets
              (λ o at same.
                same_name (λ n. not (text_eq name n)) l.group o.group
                  (and_left (text_eq l.group o.group) _ same) apart)
              h)
          c.leases;
    in_order = c.in_order;
  }

  -- A write to an offset keeps whose it is.
  pub set_offset-All :
      (Q : Text → Type 0) (clock : Clock F) (group consumer : Text) (v : ℤ)
      (offsets : List (ConsumerOffset F))
      → All (λ (o : ConsumerOffset F). Q o.group) offsets
      → All (λ (o : ConsumerOffset F). Q o.group) (set_offset clock group consumer v offsets)
  unfolding set_offset
  set_offset-All Q clock group consumer v [] h = tt
  set_offset-All Q clock group consumer v (o ∷ os) h =
      by_case (is_offset_of group consumer o) (set_offset-All Q clock group consumer v os h.1)
    where
      by_case :
          (b : Bool)
          → All (λ (o : ConsumerOffset F). Q o.group) (set_offset clock group consumer v os)
          → All
              (λ (o : ConsumerOffset F). Q o.group)
              (if b
                then record o { committed_offset = v; last_heartbeat = clock.now }
                  ∷ set_offset clock group consumer v os
                else o ∷ set_offset clock group consumer v os)
      by_case true rest = (h.0, rest)
      by_case false rest = (h.0, rest)

  pub any-set_offset :
      (clock : Clock F) (group consumer : Text) (v : ℤ) (g c : Text)
      (offsets : List (ConsumerOffset F))
      → any (is_offset_of g c) (set_offset clock group consumer v offsets)
        ≡ any (is_offset_of g c) offsets
  unfolding set_offset
  any-set_offset clock group consumer v g c [] = refl
  any-set_offset clock group consumer v g c (o ∷ os) =
      by_case (is_offset_of group consumer o) (any-set_offset clock group consumer v g c os)
    where
      by_case :
          (b : Bool)
          → any (is_offset_of g c) (set_offset clock group consumer v os)
            ≡ any (is_offset_of g c) os
          → any (is_offset_of g c) (
              if b
              then record o { committed_offset = v; last_heartbeat = clock.now }
                ∷ set_offset clock group consumer v os
              else o ∷ set_offset clock group consumer v os)
            ≡ any (is_offset_of g c) (o ∷ os)
      by_case true rest = ap (λ b. is_offset_of g c o || b) rest
      by_case false rest = ap (λ b. is_offset_of g c o || b) rest
