-- ===== src/Prelude/Text.antt =====
-- Rust strings as lists of code points, with the decimal form of the integers.
use Prim.Native.Nat.{ℕ, zero, suc, ◌+◌, ◌-◌, ◌*◌, ◌/◌, ◌%◌, ◌≤◌, ◌<◌}
use Prim.Native.Char.{code}
use Prim.Native.String.{String}
use mathlib.Core.Path.{◌≡◌, refl, ap, sym, ◌∙◌}
use mathlib.Core.Logic.{◌≢◌, inl, inr}
use mathlib.Core.Bool.{Bool, true, false, ◌&&◌}
use mathlib.Core.List.{
  List, [], ◌∷◌, ◌++◌, append_assoc, reverse, reverse-append, reverse-reverse, reverse-cons,
}
use native.Mathlib.Omega.{arith}
use pg_tide.Prelude.Tests.{ltb, ◌==◌, if◌then◌else◌, Bool-cases}
use pg_tide.Prelude.Lists.{All, All-append}
use pg_tide.Prelude.Int.{ℤ, pos, negsuc}

abbrev pub Text : Type 0
Text = List ℕ

-- The code points of a literal.
unfoldable pub text : String → Text
text String.[] = []
text (String.◌∷◌ c s) = code c ∷ text s

unfoldable pub text_eq : Text → Text → Bool
text_eq [] [] = true
text_eq (a ∷ s) (b ∷ t) = (a == b) && text_eq s t
text_eq _ _ = false

pub text_eq_sound : (s t : Text) → text_eq s t ≡ true → s ≡ t
unfolding text_eq
text_eq_sound [] [] h = refl
text_eq_sound [] (b ∷ t) h = cc
text_eq_sound (a ∷ s) [] h = cc
text_eq_sound (a ∷ s) (b ∷ t) h = ground (arith, text_eq_sound s t)

pub text_eq_refl : (s : Text) → text_eq s s ≡ true
unfolding text_eq
text_eq_refl [] = refl
text_eq_refl (a ∷ s) = ground (arith, text_eq_refl s)

-- `str::len`: the bytes of the UTF-8 form.
abbrev pub char_len : ℕ → ℕ
char_len c = if ltb c 128 then 1 else if ltb c 2048 then 2 else if ltb c 65536 then 3 else 4

unfoldable pub byte_len : Text → ℕ
byte_len [] = 0
byte_len (c ∷ s) = char_len c + byte_len s

-- The decimal digits of a number, most significant first; the first argument is fuel.
digits : ℕ → ℕ → Text
digits zero n = []
digits (suc f) n =
    let rest = digits f (n / 10) in if ltb n 10 then (48 + n) ∷ [] else rest ++ (48 + n % 10) ∷ []

-- `usize::to_string`: `n + 1` digits are enough for `n`.
unfoldable pub decimal : ℕ → Text
unfolding digits
decimal n = digits (suc n) n

-- `i64::to_string`.
unfoldable pub decimal_ℤ : ℤ → Text
decimal_ℤ (pos n) = decimal n
decimal_ℤ (negsuc n) = 45 ∷ decimal (suc n)

-- The number that digits stand for.
value : ℕ → Text → ℕ
value acc [] = acc
value acc (c ∷ s) = value (acc * 10 + (c - 48)) s

value-snoc : (acc : ℕ) (s : Text) (c : ℕ) → value acc (s ++ c ∷ []) ≡ value acc s * 10 + (c - 48)
unfolding value
value-snoc acc [] c = refl
value-snoc acc (d ∷ s) c = value-snoc (acc * 10 + (d - 48)) s c

value-digits : (f n : ℕ) → n < f → value 0 (digits f n) ≡ n
unfolding value digits
value-digits zero n h = absurd (omega arith)
value-digits (suc f) n h = elim (Bool-cases (ltb n 10)) [
  | inl small ↦ rw small (omega arith)
  | inr large ↦ rw large (
      omega (
        arith,
        value-snoc 0 (digits f (n / 10)) (48 + n % 10),
        value-digits f (n / 10) (ground arith),
      ))
]

pub decimal-injective : (m n : ℕ) → decimal m ≡ decimal n → m ≡ n
unfolding decimal
decimal-injective m n h =
    sym (value-digits (suc m) m (omega arith))
    ∙ ap (value 0) h
    ∙ value-digits (suc n) n (omega arith)

-- A digit, and a character of a signed number.
abbrev pub IsDigit : ℕ → Type 0
IsDigit c = (48 ≤ c) × (c ≤ 57)

abbrev pub IsNumeric : ℕ → Type 0
IsNumeric c = (45 ≤ c) × (c ≤ 57)

digits-IsDigit : (f n : ℕ) → All IsDigit (digits f n)
unfolding digits
digits-IsDigit zero n = tt
digits-IsDigit (suc f) n = elim (Bool-cases (ltb n 10)) [
  | inl small ↦ rw small (ground arith)
  | inr large ↦
      rw large (All-append IsDigit (digits f (n / 10)) _ (omega arith) (digits-IsDigit f (n / 10)))
]

pub decimal-IsDigit : (n : ℕ) → All IsDigit (decimal n)
unfolding decimal
decimal-IsDigit n = digits-IsDigit (suc n) n

pub digits-IsNumeric : (s : Text) → All IsDigit s → All IsNumeric s
digits-IsNumeric [] h = tt
digits-IsNumeric (c ∷ s) h = (omega arith, digits-IsNumeric s h.1)

pub decimal_ℤ-IsNumeric : (i : ℤ) → All IsNumeric (decimal_ℤ i)
unfolding decimal_ℤ
decimal_ℤ-IsNumeric (pos n) = digits-IsNumeric _ (decimal-IsDigit n)
decimal_ℤ-IsNumeric (negsuc n) = (omega arith, digits-IsNumeric _ (decimal-IsDigit (suc n)))

not_signed : (s t : Text) → All IsDigit s → s ≢ 45 ∷ t
not_signed [] t h e = cc
not_signed (c ∷ s) t h e = ground arith

pub decimal_ℤ-injective : (i j : ℤ) → decimal_ℤ i ≡ decimal_ℤ j → i ≡ j
unfolding decimal_ℤ
decimal_ℤ-injective (pos m) (pos n) h = ap pos (decimal-injective m n h)
decimal_ℤ-injective (pos m) (negsuc n) h = absurd (not_signed _ _ (decimal-IsDigit m) h)
decimal_ℤ-injective (negsuc m) (pos n) h = absurd (not_signed _ _ (decimal-IsDigit n) (sym h))
decimal_ℤ-injective (negsuc m) (negsuc n) h =
    let e : suc m ≡ suc n = decimal-injective (suc m) (suc n) (cc) in cc

-- A text splits in one way at its first colon, and so at its last.
split_first :
    (xs xs' ys ys' : Text)
    → All IsNumeric xs
    → All IsNumeric xs'
    → xs ++ 58 ∷ ys ≡ xs' ++ 58 ∷ ys'
    → (xs ≡ xs') × (ys ≡ ys')
split_first [] [] ys ys' h h' e = (refl, cc)
split_first [] (c ∷ xs') ys ys' h h' e = absurd (ground arith)
split_first (c ∷ xs) [] ys ys' h h' e = absurd (ground arith)
split_first (c ∷ xs) (d ∷ xs') ys ys' h h' e =
    let (same, rest) = split_first xs xs' ys ys' h.1 h'.1 (cc) in (ground arith, rest)

All-reverse {ℓ} : (P : ℕ → Type ℓ) (xs : Text) → All P xs → All P (reverse xs)
All-reverse P [] h = h
All-reverse P (x ∷ xs) h =
    rw (reverse-cons x xs) (All-append P (reverse xs) (x ∷ []) (h.0, tt) (All-reverse P xs h.1))

reverse_split : (xs ys : Text) → reverse (xs ++ 58 ∷ ys) ≡ reverse ys ++ 58 ∷ reverse xs
reverse_split xs ys =
    reverse-append xs (58 ∷ ys)
    ∙ ap (λ (s : Text). s ++ reverse xs) (reverse-cons 58 ys)
    ∙ append_assoc (reverse ys) (58 ∷ []) (reverse xs)

pub split_last :
    (xs xs' ys ys' : Text)
    → All IsNumeric ys
    → All IsNumeric ys'
    → xs ++ 58 ∷ ys ≡ xs' ++ 58 ∷ ys'
    → (xs ≡ xs') × (ys ≡ ys')
split_last xs xs' ys ys' h h' e =
    let (p, q) =
      split_first (reverse ys) (reverse ys') (reverse xs) (reverse xs') (All-reverse IsNumeric ys h)
        (All-reverse IsNumeric ys' h')
        (sym (reverse_split xs ys) ∙ ap reverse e ∙ reverse_split xs' ys') in
    (unreverse xs xs' q, unreverse ys ys' p)
  where
    unreverse : (s t : Text) → reverse s ≡ reverse t → s ≡ t
    unreverse s t e = sym (reverse-reverse s) ∙ ap reverse e ∙ reverse-reverse t
