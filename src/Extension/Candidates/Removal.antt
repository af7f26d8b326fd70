-- ===== src/Extension/Candidates/Removal.antt =====
-- What a deletion of the first candidates leaves of a list.
use pg_tide.Prelude.{
  Occurs, ℕ, zero, suc, ◌+◌, ◌≡◌, ◌⊎◌, refl, ap, ◌∙◌, subst, Bool, true, false, List, [], ◌∷◌,
  arith, Bool-cases, inl, inr, length, take, filter, if◌then◌else◌, any, ◌||◌, ◌&&◌,
}
use pg_tide.Extension.Candidates.{delete_first}

pub and_left : (a b : Bool) → (a && b) ≡ true → a ≡ true
and_left true b h = refl
and_left false b h = cc h

pub and_right : (a b : Bool) → (a && b) ≡ true → b ≡ true
and_right true b h = h
and_right false b h = cc h

module _ {ℓ} {A : Type ℓ} where
  pub delete_first-hit :
      (n : ℕ) (p : A → Bool) (r : A) (rs : List A)
      → p r ≡ true
      → delete_first (suc n) p (r ∷ rs) ≡ delete_first n p rs
  unfolding delete_first
  delete_first-hit n p r rs e =
      ap (λ (b : Bool). choose b (delete_first n p rs) (r ∷ delete_first (suc n) p rs)) e
    where
      choose : Bool → List A → List A → List A
      choose b xs ys = elim b [ true ↦ xs | false ↦ ys ]

  pub delete_first-miss :
      (n : ℕ) (p : A → Bool) (r : A) (rs : List A)
      → p r ≡ false
      → delete_first (suc n) p (r ∷ rs) ≡ r ∷ delete_first (suc n) p rs
  unfolding delete_first
  delete_first-miss n p r rs e =
      ap (λ (b : Bool). choose b (delete_first n p rs) (r ∷ delete_first (suc n) p rs)) e
    where
      choose : Bool → List A → List A → List A
      choose b xs ys = elim b [ true ↦ xs | false ↦ ys ]

  -- A row is a candidate, or it stays.
  pub delete_first-Occurs :
      (n : ℕ) (p : A → Bool) (rows : List A) (row : A)
      → Occurs row rows
      → (p row ≡ true) ⊎ Occurs row (delete_first n p rows)
  unfolding delete_first
  delete_first-Occurs zero p rows row h = inr h
  delete_first-Occurs (suc n) p [] row h = inr h
  delete_first-Occurs (suc n) p (r ∷ rs) row h =
      by_hit (p r) refl (delete_first-Occurs n p rs row) (delete_first-Occurs (suc n) p rs row)
    where
      by_hit :
          (b : Bool)
          → p r ≡ b
          → (Occurs row rs → (p row ≡ true) ⊎ Occurs row (delete_first n p rs))
          → (Occurs row rs → (p row ≡ true) ⊎ Occurs row (delete_first (suc n) p rs))
          → (p row ≡ true)
            ⊎ Occurs row
                (elim b [ true ↦ delete_first n p rs | false ↦ r ∷ delete_first (suc n) p rs ])
      by_hit true hit drops keeps = elim h [
        | inl same ↦ inl (subst (λ x. p x ≡ true) same hit)
        | inr later ↦ drops later
      ]
      by_hit false miss drops keeps = elim h [
        | inl same ↦ inr (inl same)
        | inr later ↦ elim (keeps later) [ inl gone ↦ inl gone | inr stays ↦ inr (inr stays) ]
      ]

  -- Nothing is invented.
  pub Occurs-delete_first :
      (n : ℕ) (p : A → Bool) (rows : List A) (row : A)
      → Occurs row (delete_first n p rows)
      → Occurs row rows
  unfolding delete_first
  Occurs-delete_first zero p rows row h = h
  Occurs-delete_first (suc n) p [] row h = h
  Occurs-delete_first (suc n) p (r ∷ rs) row h =
      by_hit (p r) (Occurs-delete_first n p rs row) (Occurs-delete_first (suc n) p rs row) h
    where
      by_hit :
          (b : Bool)
          → (Occurs row (delete_first n p rs) → Occurs row rs)
          → (Occurs row (delete_first (suc n) p rs) → Occurs row rs)
          → Occurs row
              (elim b [ true ↦ delete_first n p rs | false ↦ r ∷ delete_first (suc n) p rs ])
          → Occurs row (r ∷ rs)
      by_hit true drops keeps h = inr (drops h)
      by_hit false drops keeps (inl same) = inl same
      by_hit false drops keeps (inr later) = inr (keeps later)

  -- As many go as the batch takes of the candidates.
  pub length-delete_first :
      (n : ℕ) (p : A → Bool) (rows : List A)
      → length (delete_first n p rows) + length (take n (filter p rows)) ≡ length rows
  unfolding delete_first
  length-delete_first zero p rows = omega arith
  length-delete_first (suc n) p [] = omega arith
  length-delete_first (suc n) p (r ∷ rs) =
      by_hit (p r) (length-delete_first n p rs) (length-delete_first (suc n) p rs)
    where
      by_hit :
          (b : Bool)
          → length (delete_first n p rs) + length (take n (filter p rs)) ≡ length rs
          → length (delete_first (suc n) p rs) + length (take (suc n) (filter p rs)) ≡ length rs
          → (let left : List A = elim b [
            | true ↦ delete_first n p rs
            | false ↦ r ∷ delete_first (suc n) p rs
          ] in
              length left + length (take (suc n) (if b then r ∷ filter p rs else filter p rs))
              ≡ length (r ∷ rs))
      by_hit true drops keeps = omega (arith, drops)
      by_hit false drops keeps = omega (arith, keeps)

  pub any-Occurs :
      (p : A → Bool) (xs : List A) → any p xs ≡ true → (x : A) × Occurs x xs × (p x ≡ true)
  any-Occurs p [] h = cc h
  any-Occurs p (x ∷ xs) h = elim (Bool-cases (p x)) [
    | inl hit ↦ (x, inl refl, hit)
    | inr miss ↦
        let (y, o, e) = any-Occurs p xs (subst (λ b. (b || any p xs) ≡ true) miss h) in
        (y, inr o, e)
  ]

  pub Occurs-any : (p : A → Bool) (xs : List A) (x : A) → Occurs x xs → p x ≡ true → any p xs ≡ true
  Occurs-any p [] x o e = absurd (o tt)
  Occurs-any p (y ∷ ys) x (inl same) e = ap (λ b. b || any p ys) (ap p same ∙ e)
  Occurs-any p (y ∷ ys) x (inr later) e = elim (Bool-cases (p y)) [
    | inl hit ↦ ap (λ b. b || any p ys) hit
    | inr miss ↦ ap (λ b. b || any p ys) miss ∙ Occurs-any p ys x later e
  ]
