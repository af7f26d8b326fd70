-- ===== src/Compatibility/Search.antt =====
-- The lookup in the matrix: what `filter`, `find` and `map` keep.
use pg_tide.Prelude.{
  Occurs, ◌≡◌, refl, ap, subst, Bool, true, false, some, List, [], ◌∷◌, inl, inr, find, filter, map,
  if◌then◌else◌,
}

module _ {ℓ} {A : Type ℓ} where
  pub find-Occurs :
      (p : A → Bool) (xs : List A) (x : A) → find p xs ≡ some x → Occurs x xs × (p x ≡ true)
  find-Occurs p [] x h = cc h
  find-Occurs p (y ∷ ys) x h = by_hit (p y) refl (find-Occurs p ys x) h
    where
      by_hit :
          (b : Bool)
          → p y ≡ b
          → (find p ys ≡ some x → Occurs x ys × (p x ≡ true))
          → (if b then some y else find p ys) ≡ some x
          → Occurs x (y ∷ ys) × (p x ≡ true)
      by_hit true e rest h =
          let same : y ≡ x = some-injective h in (inl same, subst (λ z. p z ≡ true) same e)
        where
          some-injective : some y ≡ some x → y ≡ x
          some-injective e = cc e
      by_hit false e rest h = let (o, k) = rest h in (inr o, k)

  pub filter-Occurs :
      (q : A → Bool) (xs : List A) (x : A) → Occurs x (filter q xs) → Occurs x xs × (q x ≡ true)
  filter-Occurs q [] x o = absurd (o tt)
  filter-Occurs q (y ∷ ys) x o = by_stay (q y) refl (filter-Occurs q ys x) o
    where
      by_stay :
          (b : Bool)
          → q y ≡ b
          → (Occurs x (filter q ys) → Occurs x ys × (q x ≡ true))
          → Occurs x (if b then y ∷ filter q ys else filter q ys)
          → Occurs x (y ∷ ys) × (q x ≡ true)
      by_stay true e rest (inl same) = (inl same, subst (λ z. q z ≡ true) same e)
      by_stay true e rest (inr later) = let (o, k) = rest later in (inr o, k)
      by_stay false e rest o = let (o, k) = rest o in (inr o, k)

  pub Occurs-filter :
      (q : A → Bool) (xs : List A) (x : A) → Occurs x xs → q x ≡ true → Occurs x (filter q xs)
  Occurs-filter q [] x o k = o
  Occurs-filter q (y ∷ ys) x o k = by_stay (q y) refl (λ later. Occurs-filter q ys x later k) o
    where
      by_stay :
          (b : Bool)
          → q y ≡ b
          → (Occurs x ys → Occurs x (filter q ys))
          → Occurs x (y ∷ ys)
          → Occurs x (if b then y ∷ filter q ys else filter q ys)
      by_stay true e rest (inl same) = inl same
      by_stay true e rest (inr later) = inr (rest later)
      by_stay false e rest (inl same) = absurd (cc (ap q same, e, k))
      by_stay false e rest (inr later) = rest later

  pub Occurs-find :
      (p : A → Bool) (xs : List A) (x : A)
      → Occurs x xs
      → p x ≡ true
      → (y : A) × (find p xs ≡ some y)
  Occurs-find p [] x o k = absurd (o tt)
  Occurs-find p (y ∷ ys) x o k = by_hit (p y) refl (λ later. Occurs-find p ys x later k) o
    where
      by_hit :
          (b : Bool)
          → p y ≡ b
          → (Occurs x ys → (z : A) × (find p ys ≡ some z))
          → Occurs x (y ∷ ys)
          → (z : A) × ((if b then some y else find p ys) ≡ some z)
      by_hit true e rest o = (y, refl)
      by_hit false e rest (inl same) = absurd (cc (ap p same, e, k))
      by_hit false e rest (inr later) = rest later

pub Occurs-map {ℓ} :
    {A B : Type ℓ} (f : A → B) (xs : List A) (y : B)
    → Occurs y (map f xs)
    → (x : A) × Occurs x xs × (f x ≡ y)
Occurs-map f [] y o = absurd (o tt)
Occurs-map f (x ∷ xs) y (inl same) = (x, inl refl, same)
Occurs-map f (x ∷ xs) y (inr later) = let (z, o, e) = Occurs-map f xs y later in (z, inr o, e)
