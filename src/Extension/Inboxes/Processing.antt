-- ===== src/Extension/Inboxes/Processing.antt =====
-- What the calls on inboxes keep: a message that is processed stays processed.
use pg_tide.Prelude.{
  Occurs, ◌≡◌, refl, ap, ◌∙◌, Bool, true, false, not, Option, none, some, List, [], ◌∷◌, ◌++◌, map,
  ◌&&◌, ◌+◌, if◌then◌else◌, inl, inr, is_some,
}
use pg_tide.Prelude.Text.{Text, text_eq}
use pg_tide.Foreign.{Foreign}
use pg_tide.Extension.Inboxes.{
  InboxMessage, InboxTable, Inboxes, is_table, set_messages, update_rows, mark_row, fail_row,
  replay_row,
}

-- The same message, which is still processed at its time if it was.
pub record IsLater {F : Foreign} (m n : InboxMessage F) : Type 0 where
  pub same_event : n.event_id ≡ m.event_id
  pub stays : (t : F.DateTime) → m.processed_at ≡ some t → n.processed_at ≡ some t

-- The table is there with each of its messages.
pub record IsKept {F : Foreign} (t u : InboxTable F) : Type 0 where
  pub same_schema : u.schema ≡ t.schema
  pub same_table : u.table ≡ t.table
  pub keeps :
      (m : InboxMessage F)
      → Occurs m t.messages
      → (n : InboxMessage F) × Occurs n u.messages × IsLater m n

unfoldable pub Kept : {F : Foreign} → Inboxes F → Inboxes F → Type 0
Kept {F} s r =
    (t : InboxTable F) → Occurs t s.tables → (u : InboxTable F) × Occurs u r.tables × IsKept t u

pub Occurs-mapped {ℓ} :
    {A : Type ℓ} (f : A → A) (xs : List A) (x : A) → Occurs x xs → Occurs (f x) (map f xs)
Occurs-mapped f [] x o = absurd (o tt)
Occurs-mapped f (y ∷ ys) x (inl same) = inl (ap f same)
Occurs-mapped f (y ∷ ys) x (inr later) = inr (Occurs-mapped f ys x later)

pub Occurs-left {ℓ} : {A : Type ℓ} (xs ys : List A) (x : A) → Occurs x xs → Occurs x (xs ++ ys)
Occurs-left [] ys x o = absurd (o tt)
Occurs-left (z ∷ zs) ys x (inl same) = inl same
Occurs-left (z ∷ zs) ys x (inr later) = inr (Occurs-left zs ys x later)

module _ {F : Foreign} where
  IsLater-refl : (m : InboxMessage F) → IsLater m m
  IsLater-refl m = record { same_event = refl; stays = λ t e. e }

  pub IsKept-refl : (t : InboxTable F) → IsKept t t
  IsKept-refl t = record {
    same_schema = refl;
    same_table = refl;
    keeps = λ m o. (m, o, IsLater-refl m);
  }

  pub Kept-refl : (s : Inboxes F) → Kept s s
  unfolding Kept
  Kept-refl s t o = (t, o, IsKept-refl t)

  pub Kept-trans : (s r q : Inboxes F) → Kept s r → Kept r q → Kept s q
  unfolding Kept
  Kept-trans s r q first second t o =
      let (u, on_r, a) = first t o in
      let (v, on_q, b) = second u on_r in
      (
        v,
        on_q,
        record {
          same_schema = b.same_schema ∙ a.same_schema;
          same_table = b.same_table ∙ a.same_table;
          keeps = λ m on_t.
              (let (n, on_u, c) = a.keeps m on_t in
                let (p, on_v, d) = b.keeps n on_u in
                (
                  p,
                  on_v,
                  record {
                    same_event = d.same_event ∙ c.same_event;
                    stays = λ w e. d.stays w (c.stays w e);
                  },
                ));
        },
      )

  -- An update of the rows of a table that keeps each processed row.
  pub Kept-update_rows :
      (f : InboxMessage F → InboxMessage F) (schema table : Text) (s : Inboxes F)
      → ((m : InboxMessage F) → IsLater m (f m))
      → Kept s (update_rows (map f) schema table s)
  unfolding Kept
  Kept-update_rows f schema table s later t o = (
    set_messages (map f) schema table t,
    Occurs-mapped (set_messages (map f) schema table) s.tables t o,
    by_table (is_table schema table t),
  )
    where
      by_table : (b : Bool) → IsKept t (if b then record t { messages = map f t.messages } else t)
      by_table false = IsKept-refl t
      by_table true = record {
        same_schema = refl;
        same_table = refl;
        keeps = λ m on. (f m, Occurs-mapped f t.messages m on, later m);
      }

  pub mark_row-IsLater :
      (event : Text) (now : F.DateTime) (m : InboxMessage F) → IsLater m (mark_row event now m)
  mark_row-IsLater event now m = by_tests (text_eq event m.event_id) m.processed_at refl
    where
      by_tests :
          (b : Bool) (p : Option F.DateTime)
          → m.processed_at ≡ p
          → IsLater m (if b && not (is_some p) then record m { processed_at = some now } else m)
      by_tests false p e = IsLater-refl m
      by_tests true (some t) e = IsLater-refl m
      by_tests true none e = record { same_event = refl; stays = λ t h. cc (e, h) }

  pub replay_row-IsLater : (event : Text) (m : InboxMessage F) → IsLater m (replay_row event m)
  replay_row-IsLater event m = by_tests (text_eq event m.event_id) m.processed_at refl
    where
      by_tests :
          (b : Bool) (p : Option F.DateTime)
          → m.processed_at ≡ p
          → IsLater m (
              if b && not (is_some p)
              then record m { retry_count = 0; last_error = none; processed_at = none }
              else m)
      by_tests false p e = IsLater-refl m
      by_tests true (some t) e = IsLater-refl m
      by_tests true none e = record { same_event = refl; stays = λ t h. cc (e, h) }

  pub fail_row-IsLater :
      (event error : Text) (m : InboxMessage F) → IsLater m (fail_row event error m)
  fail_row-IsLater event error m = by_event (text_eq event m.event_id)
    where
      by_event :
          (b : Bool)
          → IsLater m (
              if b
              then record m { retry_count = m.retry_count + 1; last_error = some error }
              else m)
      by_event true = record { same_event = refl; stays = λ t e. e }
      by_event false = IsLater-refl m
