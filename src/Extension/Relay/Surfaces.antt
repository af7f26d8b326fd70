-- ===== src/Extension/Relay/Surfaces.antt =====
-- A pipeline that the catalog takes can be enabled.
use pg_tide.Prelude.{
  ℕ, ◌≡◌, refl, subst, Bool, true, false, none, some, List, [], ◌∷◌, ◌&&◌, arith, Bool-cases, inl,
  inr, any, find, if◌then◌else◌, unwrap_or,
}
use pg_tide.Prelude.Int.{ℤ, pos, leb_ℤ, ◌≤ℤ◌}
use pg_tide.Prelude.Text.{text_eq, text_eq_refl}
use pg_tide.Foreign.{Foreign}
use pg_tide.Extension.Failures.{
  PgTideError, PgResult, ok, err, >>=-eq-ok, >>-eq-ok, Returns, Returns-bind, Returns-ok,
}
use pg_tide.Extension.Validation.{validate_identifier}
use pg_tide.Extension.Database.{Pipeline, Database, Faults}
use pg_tide.Extension.Outboxes.{outbox_exists}
use pg_tide.Extension.Relay.{
  validate_outbox_surface, required, text_at, pipeline_of, check_source_mode, check_batch_size,
  batch_size_of, surface_checked, read_config, is_pipeline, upsert_pipeline, set_statements,
  store_pipeline, relay_set_outbox_v2, relay_exists, switched, relay_enable,
}

-- What is known of a pipeline that was read from a configuration.
pub record IsRead {F : Foreign} (p : Pipeline F) : Type 0 where
  pub surface : validate_outbox_surface p.name p.source_type p.sink_type p.wire_format ≡ ok tt
  pub in_range : (size : ℤ) × (p.batch_size ≡ some size) × (pos 1 ≤ℤ size) × (size ≤ℤ pos 10000)

check_batch_size-eq-ok : (n : ℤ) → check_batch_size n ≡ ok tt → (pos 1 ≤ℤ n) × (n ≤ℤ pos 10000)
check_batch_size-eq-ok n h = by_test (leb_ℤ (pos 1) n) refl (leb_ℤ n (pos 10000)) refl _ h
  where
    by_test :
        (low : Bool)
        → leb_ℤ (pos 1) n ≡ low
        → (high : Bool) → leb_ℤ n (pos 10000) ≡ high
        → (e : PgTideError)
        → (let r : PgResult (Unit {0}) = if low && high then ok tt else err e in r ≡ ok tt)
        → (pos 1 ≤ℤ n) × (n ≤ℤ pos 10000)
    by_test true e true f x h = (ground (arith, e), ground (arith, f))
    by_test true e false f x h = cc h
    by_test false e high f x h = cc h

surface_checked-IsRead :
    {F : Foreign} (p : Pipeline F) (size : ℤ)
    → p.batch_size ≡ some size
    → (pos 1 ≤ℤ size) × (size ≤ℤ pos 10000)
    → Returns IsRead (surface_checked p)
surface_checked-IsRead p size e range =
    Returns-bind IsRead (validate_outbox_surface p.name p.source_type p.sink_type p.wire_format)
      (λ x. ok p) (λ x valid. record { surface = valid; in_range = (size, e, range.0, range.1) })

module _ (F : Foreign) where
  read_config-IsRead : (config : F.Value) → Returns IsRead (read_config {F = F} config)
  unfolding read_config pipeline_of
  read_config-IsRead config = Returns-bind (IsRead {F = F}) (required F config "name") _ (λ name e1.
      Returns-bind (IsRead {F = F}) (required F config "outbox") _ (λ outbox e2.
        Returns-bind (IsRead {F = F}) (required F config "sink_type") _ (λ sink_type e3.
          Returns-bind (IsRead {F = F}) (check_source_mode name (text_at F config "source_mode")) _
            (λ x4 e4.
              Returns-bind (IsRead {F = F}) (check_batch_size (batch_size_of F config)) _ (λ x5 e5.
                Returns-bind (IsRead {F = F}) (validate_identifier name) _ (λ x6 e6.
                  Returns-bind (IsRead {F = F}) (validate_identifier outbox) _ (λ x7 e7.
                    surface_checked-IsRead {F = F} (pipeline_of config name outbox sink_type)
                      (batch_size_of F config) refl (check_batch_size-eq-ok _ e5))))))))

module _ {F : Foreign} where
  find-upsert_pipeline :
      (p : Pipeline F) (ps : List (Pipeline F))
      → find (is_pipeline p.name) (upsert_pipeline p ps) ≡ some p
  unfolding upsert_pipeline
  find-upsert_pipeline p [] = rw (text_eq_refl p.name) refl
  find-upsert_pipeline p (q ∷ qs) = elim (Bool-cases (text_eq p.name q.name)) [
    | inl same ↦ rw (same, text_eq_refl p.name) refl
    | inr other ↦ rw (other, other) (find-upsert_pipeline p qs)
  ]

  any-upsert_pipeline :
      (p : Pipeline F) (ps : List (Pipeline F))
      → any (is_pipeline p.name) (upsert_pipeline p ps) ≡ true
  unfolding upsert_pipeline
  any-upsert_pipeline p [] = rw (text_eq_refl p.name) refl
  any-upsert_pipeline p (q ∷ qs) = elim (Bool-cases (text_eq p.name q.name)) [
    | inl same ↦ rw (same, text_eq_refl p.name) refl
    | inr other ↦ rw (other, other) (any-upsert_pipeline p qs)
  ]

  -- What the catalog holds after a pipeline is stored, and that it can be enabled.
  pub record IsStored (calm : Faults F) (config : F.Value) (db new : Database F) : Type 0 where
    pub pipeline : Pipeline F
    pub is_read : read_config config ≡ ok pipeline
    pub in_range :
        (size : ℤ) × (pipeline.batch_size ≡ some size) × (pos 1 ≤ℤ size) × (size ≤ℤ pos 10000)
    pub is_stored : new ≡ record db { pipelines = upsert_pipeline pipeline db.pipelines }
    pub is_found : find (is_pipeline pipeline.name) new.pipelines ≡ some pipeline
    pub can_enable :
        relay_enable calm pipeline.name new ≡ ok (true, switched pipeline.name true new)

  can_enable-stored :
      (calm : Faults F) (p : Pipeline F) (db : Database F)
      → ((i : ℕ) → calm.fault i ≡ none)
      → validate_outbox_surface p.name p.source_type p.sink_type p.wire_format ≡ ok tt
      → (let new : Database F = record db { pipelines = upsert_pipeline p db.pipelines } in
          relay_enable calm p.name new ≡ ok (true, switched p.name true new))
  unfolding relay_enable relay_exists
  can_enable-stored calm p db well surface =
      rw
        (
          well 0,
          well 1,
          any-upsert_pipeline p db.pipelines,
          well 2,
          find-upsert_pipeline p db.pipelines,
          surface,
          well 3,
          well 4,
        )
        refl

  -- The catalog takes only pipelines that it can enable. If storing a configuration returns, the
  -- configuration was read to a pipeline whose batch size is between 1 and 10000, the catalog finds
  -- that pipeline under its name, and enabling it, when no statement fails, returns true.
  pub relay_set_outbox_v2-IsStored :
      (faults calm : Faults F) (config : F.Value) (db new : Database F)
      → ((i : ℕ) → calm.fault i ≡ none)
      → relay_set_outbox_v2 faults config db ≡ ok (tt, new)
      → IsStored calm config db new
  unfolding relay_set_outbox_v2 store_pipeline
  relay_set_outbox_v2-IsStored faults calm config db new well h =
      let (p, is_read, checked) = >>=-eq-ok (read_config config) _ h in
      let read = Returns-ok IsRead (read_config config) p is_read (read_config-IsRead F config) in
      let (exists, e, stored) =
        >>=-eq-ok (outbox_exists (faults.fault 0) (unwrap_or p.source_outbox []) db)
          (λ exists. store_pipeline faults p exists db) checked in
      by_exists p is_read read exists stored
    where
      by_exists :
          (p : Pipeline F)
          → read_config config ≡ ok p
          → IsRead p
          → (exists : Bool) → store_pipeline faults p exists db ≡ ok (tt, new)
          → IsStored calm config db new
      by_exists p is_read read false h = cc h
      by_exists p is_read read true h =
          let with_p : Database F = record db { pipelines = upsert_pipeline p db.pipelines } in
          let same = >>-eq-ok (set_statements faults p.name) (ok (tt, with_p)) h in
          let is_new : with_p ≡ new = cc same in
          subst (IsStored calm config db) is_new (record {
            pipeline = p;
            is_read = is_read;
            in_range = read.in_range;
            is_stored = refl;
            is_found = find-upsert_pipeline p db.pipelines;
            can_enable = can_enable-stored calm p db well read.surface;
          })
