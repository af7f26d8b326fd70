-- ===== src/Prelude/Lists.antt =====
-- Lists measured by the native numbers, and a predicate on all members.
use Prim.Native.Nat.{ℕ, zero, suc, ◌+◌, ◌≤◌}
use mathlib.Core.Path.{◌≡◌, refl, subst}
use mathlib.Core.Logic.{◌⊎◌, inl, inr}
use mathlib.Core.Bool.{Bool, true, false, ◌||◌}
use mathlib.Core.Option.{Option, none, some}
use mathlib.Core.List.{List, [], ◌∷◌, ◌++◌}
use native.Mathlib.Omega.{arith}
use pg_tide.Prelude.Tests.{if◌then◌else◌}

module _ {ℓ} {A : Type ℓ} where
  abbrev pub length : List A → ℕ
  length [] = 0
  length (x ∷ xs) = suc (length xs)

  abbrev pub take : ℕ → List A → List A
  take zero xs = []
  take (suc n) [] = []
  take (suc n) (x ∷ xs) = x ∷ take n xs

  abbrev pub replicate : ℕ → A → List A
  replicate zero a = []
  replicate (suc n) a = a ∷ replicate n a

  -- `Iterator::filter`; the library's takes a decision procedure.
  abbrev pub filter : (A → Bool) → List A → List A
  filter p [] = []
  filter p (x ∷ xs) = let rest = filter p xs in if p x then x ∷ rest else rest

  -- `Iterator::any`, and SQL's EXISTS.
  abbrev pub any : (A → Bool) → List A → Bool
  any p [] = false
  any p (x ∷ xs) = p x || any p xs

  -- `Iterator::find`.
  abbrev pub find : (A → Bool) → List A → Option A
  find p [] = none
  find p (x ∷ xs) = let rest = find p xs in if p x then some x else rest

  -- `slice::last`.
  abbrev pub get_last? : List A → Option A
  get_last? [] = none
  get_last? (x ∷ []) = some x
  get_last? (x ∷ y ∷ xs) = get_last? (y ∷ xs)

  abbrev pub is_empty : List A → Bool
  is_empty [] = true
  is_empty (x ∷ xs) = false

  -- All members have the property.
  abbrev pub All {κ} : (Q : A → Type κ) (members : List A) → Type κ
  All Q (m ∷ ms) = Q m × All Q ms
  All Q [] = Unit

  pub length-append : (xs ys : List A) → length (xs ++ ys) ≡ length xs + length ys
  length-append [] ys = omega arith
  length-append (x ∷ xs) ys = omega (arith, length-append xs ys)

  pub length-take : (n : ℕ) (xs : List A) → length (take n xs) ≤ n
  length-take zero xs = omega arith
  length-take (suc n) [] = omega arith
  length-take (suc n) (x ∷ xs) = omega (arith, length-take n xs)

  pub All-append {κ} :
      (Q : A → Type κ) (front : List A) (back : List A)
      → All Q back
      → All Q front
      → All Q (front ++ back)
  All-append Q (m ∷ ms) back late early = (early.0, All-append Q ms back late early.1)
  All-append Q [] back late early = late

  pub All-take {κ} : (P : A → Type κ) (n : ℕ) (xs : List A) → All P xs → All P (take n xs)
  All-take P zero xs h = tt
  All-take P (suc n) [] h = tt
  All-take P (suc n) (x ∷ xs) h = (h.0, All-take P n xs h.1)

  pub All-map {κ ι} :
      (P : A → Type κ) (Q : A → Type ι) (xs : List A) → ((a : A) → P a → Q a) → All P xs → All Q xs
  All-map P Q [] f h = tt
  All-map P Q (x ∷ xs) f h = (f x h.0, All-map P Q xs f h.1)

  -- Membership.
  abbrev pub Occurs : A → List A → Type ℓ
  Occurs a [] = Unit {ℓ} → ⊥
  Occurs a (x ∷ xs) = (x ≡ a) ⊎ Occurs a xs

  pub Occurs-append_left : (a : A) (xs ys : List A) → Occurs a xs → Occurs a (xs ++ ys)
  Occurs-append_left a [] ys h = absurd (h tt)
  Occurs-append_left a (x ∷ xs) ys (inl h) = inl h
  Occurs-append_left a (x ∷ xs) ys (inr h) = inr (Occurs-append_left a xs ys h)

  pub Occurs-append_right : (a : A) (xs ys : List A) → Occurs a ys → Occurs a (xs ++ ys)
  Occurs-append_right a [] ys h = h
  Occurs-append_right a (x ∷ xs) ys h = inr (Occurs-append_right a xs ys h)

  -- Every member occurs.
  pub All-Occurs : (xs : List A) → All (λ a. Occurs a xs) xs
  All-Occurs [] = tt
  All-Occurs (x ∷ xs) = (inl refl, All-map _ _ xs (λ a h. inr h) (All-Occurs xs))

  -- What all members have, a member has.
  pub All-lookup {κ} : (Q : A → Type κ) (xs : List A) (a : A) → All Q xs → Occurs a xs → Q a
  All-lookup Q [] a h o = absurd (o tt)
  All-lookup Q (x ∷ xs) a h (inl e) = subst Q e h.0
  All-lookup Q (x ∷ xs) a h (inr o) = All-lookup Q xs a h.1 o
