-- ===== src/Extension/Candidates.antt =====
-- pg-tide-ext/src/outbox.rs, `sweep_one_locked`: which rows a sweep may delete, and the deletion.
pub mod Removal
use pg_tide.Prelude.{ℕ, zero, suc, Bool, true, false, Option, none, some, List, [], ◌∷◌}
use pg_tide.Prelude.Int.{ℤ, leb_ℤ}

-- LEAST on bigint.
abbrev pub min_ℤ : ℤ → ℤ → ℤ
min_ℤ a b = elim (leb_ℤ a b) [ true ↦ a | false ↦ b ]

abbrev pub least : ℤ → Option ℤ → ℤ
least a none = a
least a (some b) = min_ℤ a b

-- `SELECT MIN(safe_offset)`: NULL when there are no participants.
unfoldable pub safe_offset : List ℤ → Option ℤ
safe_offset [] = none
safe_offset (a ∷ rest) = some (least a (safe_offset rest))

-- `$2::bigint IS NULL OR id <= $2`.
abbrev pub is_below : Option ℤ → ℤ → Bool
is_below none id = true
is_below (some bound) id = leb_ℤ id bound

-- `WITH candidates AS (SELECT … ORDER BY id LIMIT n …) DELETE … USING candidates`: what is left of
-- rows in the order of their ids.
unfoldable pub delete_first {ℓ} : {A : Type ℓ} → ℕ → (A → Bool) → List A → List A
delete_first zero p rows = rows
delete_first (suc n) p [] = []
delete_first (suc n) p (r ∷ rs) = elim (p r) [
  | true ↦ delete_first n p rs
  | false ↦ r ∷ delete_first (suc n) p rs
]
