-- ===== src/Prelude/Int.antt =====
-- `i64` values: signed integers over the native numbers, ordered through their two parts. Their
-- range is stated where it matters.
use Prim.Native.Nat.{ℕ, suc, ◌+◌, ◌-◌, ◌≤◌, ◌<◌}
use mathlib.Core.Path.{◌≡◌}
use mathlib.Core.Bool.{Bool}
use native.Mathlib.Omega.{arith}
use pg_tide.Prelude.Tests.{ltb, leb, if◌then◌else◌}

-- `negsuc n` is -(n + 1).
pub data ℤ : Type 0 where
  pos : ℕ → ℤ
  negsuc : ℕ → ℤ

abbrev pub pos_part : ℤ → ℕ
pos_part (pos n) = n
pos_part (negsuc n) = 0

abbrev pub neg_part : ℤ → ℕ
neg_part (pos n) = 0
neg_part (negsuc n) = suc n

infix 50 ◌≤ℤ◌ ◌<ℤ◌
abbrev pub ◌≤ℤ◌ : ℤ → ℤ → Type 0
a ≤ℤ b = pos_part a + neg_part b ≤ pos_part b + neg_part a

abbrev pub ◌<ℤ◌ : ℤ → ℤ → Type 0
a <ℤ b = pos_part a + neg_part b < pos_part b + neg_part a

abbrev pub leb_ℤ : ℤ → ℤ → Bool
leb_ℤ a b = leb (pos_part a + neg_part b) (pos_part b + neg_part a)

abbrev pub ltb_ℤ : ℤ → ℤ → Bool
ltb_ℤ a b = ltb (pos_part a + neg_part b) (pos_part b + neg_part a)

-- `i64::max`, and PostgreSQL's GREATEST on bigint.
abbrev pub max_ℤ : ℤ → ℤ → ℤ
max_ℤ a b = if leb_ℤ a b then b else a

-- `i64::saturating_sub(1)`; `i64::MIN` is -(2 ^ 63), `negsuc 9223372036854775807`.
abbrev pub saturating_pred : ℤ → ℤ
saturating_pred (pos n) = if leb 1 n then pos (n - 1) else negsuc 0
saturating_pred (negsuc n) = if leb 9223372036854775807 n then negsuc n else negsuc (suc n)

pub eq_of_parts : (a b : ℤ) → pos_part a + neg_part b ≡ pos_part b + neg_part a → a ≡ b
eq_of_parts a b h = ground arith

pub le-max_left : (a b : ℤ) → a ≤ℤ max_ℤ a b
le-max_left a b = ground arith

pub le-max_right : (a b : ℤ) → b ≤ℤ max_ℤ a b
le-max_right a b = ground arith
