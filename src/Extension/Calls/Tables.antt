-- ===== src/Extension/Calls/Tables.antt =====
-- Keys and references in lists of rows.
use pg_tide.Prelude.{
  Occurs, ℕ, zero, suc, ◌≤◌, ◌≡◌, refl, ap, ◌∙◌, subst, Bool, true, false, not, List, [], ◌∷◌, ◌++◌,
  ◌||◌, arith, All, map, inl, inr, any, filter, if◌then◌else◌,
}
use pg_tide.Prelude.Text.{Text, text_eq, text_eq_sound}
use pg_tide.Foreign.{Foreign}
use pg_tide.Extension.Candidates.{delete_first}
use pg_tide.Extension.Database.{Message}

module _ {ℓ} {A : Type ℓ} where
  -- A row that a deletion leaves is found again.
  pub any-filter :
      (p q : A → Bool) (xs : List A)
      → ((x : A) → Occurs x xs → p x ≡ true → q x ≡ true)
      → any p xs ≡ true
      → any p (filter q xs) ≡ true
  any-filter p q [] f h = h
  any-filter p q (x ∷ xs) f h =
      by_case (p x) refl (q x) refl (any-filter p q xs (λ y o. f y (inr o))) h
    where
      by_case :
          (hit : Bool)
          → p x ≡ hit
          → (stays : Bool) → q x ≡ stays
          → (any p xs ≡ true → any p (filter q xs) ≡ true)
          → (hit || any p xs) ≡ true
          → any p (if stays then x ∷ filter q xs else filter q xs) ≡ true
      by_case true hit true stays rest h = ap (λ b. b || any p (filter q xs)) hit
      by_case true hit false stays rest h = absurd (cc (f x (inl refl) hit, stays))
      by_case false hit true stays rest h = ap (λ b. b || any p (filter q xs)) hit ∙ rest h
      by_case false hit false stays rest h = rest h

  pub any-append_left : (p : A → Bool) (xs ys : List A) → any p xs ≡ true → any p (xs ++ ys) ≡ true
  any-append_left p [] ys h = cc h
  any-append_left p (x ∷ xs) ys h = by_case (p x) (any-append_left p xs ys) h
    where
      by_case :
          (hit : Bool)
          → (any p xs ≡ true → any p (xs ++ ys) ≡ true)
          → (hit || any p xs) ≡ true
          → (hit || any p (xs ++ ys)) ≡ true
      by_case true rest h = refl
      by_case false rest h = rest h

  pub All-filter {κ ι} :
      (Q : A → Type κ) (R : A → Type ι) (q : A → Bool) (xs : List A)
      → ((x : A) → q x ≡ true → Q x → R x)
      → All Q xs
      → All R (filter q xs)
  All-filter Q R q [] f h = tt
  All-filter Q R q (x ∷ xs) f h = by_case (q x) refl (All-filter Q R q xs f h.1)
    where
      by_case :
          (b : Bool)
          → q x ≡ b
          → All R (filter q xs)
          → All R (if b then x ∷ filter q xs else filter q xs)
      by_case true e rest = (f x e h.0, rest)
      by_case false e rest = rest

  pub All-delete_first {κ} :
      (Q : A → Type κ) (n : ℕ) (p : A → Bool) (xs : List A) → All Q xs → All Q (delete_first n p xs)
  unfolding delete_first
  All-delete_first Q zero p xs h = h
  All-delete_first Q (suc n) p [] h = h
  All-delete_first Q (suc n) p (x ∷ xs) h =
      by_case (p x) (All-delete_first Q n p xs h.1) (All-delete_first Q (suc n) p xs h.1)
    where
      by_case :
          (b : Bool)
          → All Q (delete_first n p xs)
          → All Q (delete_first (suc n) p xs)
          → (let left : List A = elim b [
            | true ↦ delete_first n p xs
            | false ↦ x ∷ delete_first (suc n) p xs
          ] in
              All Q left)
      by_case true drops keeps = drops
      by_case false drops keeps = (h.0, keeps)

pub any-map {ℓ} :
    {A : Type ℓ} (p : A → Bool) (f : A → A) (xs : List A)
    → ((x : A) → p (f x) ≡ p x)
    → any p (map f xs) ≡ any p xs
any-map p f [] same = refl
any-map p f (x ∷ xs) same =
    ap (λ b. b || any p (map f xs)) (same x) ∙ ap (λ b. p x || b) (any-map p f xs same)

pub false_of_not : (b : Bool) → not b ≡ true → b ≡ false
false_of_not true h = cc h
false_of_not false h = refl

-- Names that are the same text pass the same test.
pub same_name : (q : Text → Bool) (n m : Text) → text_eq n m ≡ true → q n ≡ true → q m ≡ true
same_name q n m same h = subst (λ x. q x ≡ true) (text_eq_sound n m same) h

module _ {F : Foreign} where
  -- In order, and below the next value of the column.
  abbrev pub Within : ℕ → ℕ → List (Message F) → Type 0
  Within d next [] = suc d ≤ next
  Within d next (m ∷ ms) = (suc d ≤ m.row.id) × Within m.row.id next ms

  pub Within-weaken :
      (c d next : ℕ) (ms : List (Message F)) → c ≤ d → Within d next ms → Within c next ms
  Within-weaken c d next [] h o = omega (arith, h, o)
  Within-weaken c d next (m ∷ ms) h o = (omega (arith, h, o.0), o.1)

  pub Within-filter :
      (q : Message F → Bool) (d next : ℕ) (ms : List (Message F))
      → Within d next ms
      → Within d next (filter q ms)
  Within-filter q d next [] h = h
  Within-filter q d next (m ∷ ms) h = by_case (q m) (Within-filter q m.row.id next ms h.1)
    where
      by_case :
          (b : Bool)
          → Within m.row.id next (filter q ms)
          → Within d next (if b then m ∷ filter q ms else filter q ms)
      by_case true rest = (h.0, rest)
      by_case false rest = Within-weaken d m.row.id next (filter q ms) (omega (arith, h.0)) rest

  pub Within-delete_first :
      (n : ℕ) (p : Message F → Bool) (d next : ℕ) (ms : List (Message F))
      → Within d next ms
      → Within d next (delete_first n p ms)
  unfolding delete_first
  Within-delete_first zero p d next ms h = h
  Within-delete_first (suc n) p d next [] h = h
  Within-delete_first (suc n) p d next (m ∷ ms) h =
      by_case (p m) (Within-delete_first n p m.row.id next ms h.1)
        (Within-delete_first (suc n) p m.row.id next ms h.1)
    where
      by_case :
          (b : Bool)
          → Within m.row.id next (delete_first n p ms)
          → Within m.row.id next (delete_first (suc n) p ms)
          → (let left : List (Message F) = elim b [
            | true ↦ delete_first n p ms
            | false ↦ m ∷ delete_first (suc n) p ms
          ] in
              Within d next left)
      by_case true drops keeps =
          Within-weaken d m.row.id next (delete_first n p ms) (omega (arith, h.0)) drops
      by_case false drops keeps = (h.0, keeps)

  pub Within-append :
      (d next id : ℕ) (ms : List (Message F)) (m : Message F)
      → next ≤ m.row.id
      → suc m.row.id ≤ id
      → Within d next ms
      → Within d id (ms ++ m ∷ [])
  Within-append d next id [] m low high h = (omega (arith, low, h), high)
  Within-append d next id (x ∷ xs) m low high h =
      (h.0, Within-append x.row.id next id xs m low high h.1)
