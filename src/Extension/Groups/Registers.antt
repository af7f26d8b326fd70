-- ===== src/Extension/Groups/Registers.antt =====
-- The committed offsets as registers that only rise.
use pg_tide.Prelude.{
  ◌≡◌, refl, sym, ap, ◌∙◌, subst, Bool, true, false, Option, none, some, List, [], ◌∷◌, ◌++◌, ◌&&◌,
  Bool-cases, inl, inr, if◌then◌else◌,
}
use pg_tide.Prelude.Int.{ℤ, pos, ltb_ℤ, max_ℤ}
use pg_tide.Prelude.Text.{Text, text_eq, text_eq_sound, text_eq_refl}
use pg_tide.Foreign.{Foreign}
use pg_tide.Extension.Database.{ConsumerOffset, Clock, is_offset_of}
use pg_tide.Extension.Candidates.Removal.{and_left, and_right}
use pg_tide.Extension.Groups.{committed, set_offset}

-- What each consumer of each group has committed.
abbrev pub Registers : Type 0
Registers = Text → Text → Option ℤ

-- A commit raises a register that is there, and starts one only in a group that is there. A negative
-- offset does nothing.
abbrev pub raise : Bool → ℤ → Option ℤ → Option ℤ
raise is_there offset none = if is_there then some offset else none
raise is_there offset (some old) = some (max_ℤ old offset)

unfoldable pub commit_register : Bool → Text → Text → ℤ → Registers → Registers
commit_register is_there group consumer offset registers g c =
    if text_eq group g && text_eq consumer c
    then (if ltb_ℤ offset (pos 0) then registers g c else raise is_there offset (registers g c))
    else registers g c

module _ {F : Foreign} where
  committed-hit :
      (g c : Text) (o : ConsumerOffset F) (os : List (ConsumerOffset F))
      → is_offset_of g c o ≡ true
      → committed g c (o ∷ os) ≡ some o.committed_offset
  unfolding committed
  committed-hit g c o os e =
      ap (λ (b : Bool). if b then some o.committed_offset else committed g c os) e

  committed-miss :
      (g c : Text) (o : ConsumerOffset F) (os : List (ConsumerOffset F))
      → is_offset_of g c o ≡ false
      → committed g c (o ∷ os) ≡ committed g c os
  unfolding committed
  committed-miss g c o os e =
      ap (λ (b : Bool). if b then some o.committed_offset else committed g c os) e

  -- One row is not that of two consumers.
  distinct :
      (g c h d : Text) (o : ConsumerOffset F)
      → (text_eq g h && text_eq c d) ≡ false
      → is_offset_of g c o ≡ true
      → is_offset_of h d o ≡ false
  distinct g c h d o apart mine = elim (Bool-cases (is_offset_of h d o)) [
    | inr e ↦ e
    | inl theirs ↦
        let group : g ≡ h =
          text_eq_sound g o.group (and_left (text_eq g o.group) _ mine)
          ∙ sym (text_eq_sound h o.group (and_left (text_eq h o.group) _ theirs)) in
        let consumer : c ≡ d =
          text_eq_sound c o.consumer (and_right (text_eq g o.group) _ mine)
          ∙ sym (text_eq_sound d o.consumer (and_right (text_eq h o.group) _ theirs)) in
        let same : (text_eq g h && text_eq c d) ≡ true =
          subst (λ x. (text_eq g x && text_eq c d) ≡ true) group
            (ap (λ b. b && text_eq c d) (text_eq_refl g)
              ∙ subst (λ x. text_eq c x ≡ true) consumer (text_eq_refl c)) in
        absurd (cc (same, apart))
  ]

  module _ (clock : Clock F) (g c : Text) (v : ℤ) where
    written : ConsumerOffset F → ConsumerOffset F
    written o = record o { committed_offset = v; last_heartbeat = clock.now }

    set_offset-hit :
        (o : ConsumerOffset F) (os : List (ConsumerOffset F))
        → is_offset_of g c o ≡ true
        → set_offset clock g c v (o ∷ os) ≡ written o ∷ set_offset clock g c v os
    unfolding set_offset written
    set_offset-hit o os e =
        ap
          (λ (b : Bool).
            if b then written o ∷ set_offset clock g c v os else o ∷ set_offset clock g c v os)
          e

    set_offset-miss :
        (o : ConsumerOffset F) (os : List (ConsumerOffset F))
        → is_offset_of g c o ≡ false
        → set_offset clock g c v (o ∷ os) ≡ o ∷ set_offset clock g c v os
    unfolding set_offset written
    set_offset-miss o os e =
        ap
          (λ (b : Bool).
            if b then written o ∷ set_offset clock g c v os else o ∷ set_offset clock g c v os)
          e

    pub committed-set_offset :
        (os : List (ConsumerOffset F)) (old : ℤ)
        → committed g c os ≡ some old
        → committed g c (set_offset clock g c v os) ≡ some v
    unfolding committed written
    committed-set_offset [] old e = cc e
    committed-set_offset (o ∷ os) old e = elim (Bool-cases (is_offset_of g c o)) [
      | inl hit ↦ ap (committed g c) (set_offset-hit o os hit) ∙ committed-hit g c (written o) _ hit
      | inr miss ↦
          ap (committed g c) (set_offset-miss o os miss)
          ∙ committed-miss g c o _ miss
          ∙ committed-set_offset os old (sym (committed-miss g c o os miss) ∙ e)
    ]

    pub committed-set_offset_other :
        (os : List (ConsumerOffset F)) (h d : Text)
        → (text_eq g h && text_eq c d) ≡ false
        → committed h d (set_offset clock g c v os) ≡ committed h d os
    unfolding committed written set_offset
    committed-set_offset_other [] h d apart = refl
    committed-set_offset_other (o ∷ os) h d apart =
        let rest = committed-set_offset_other os h d apart in
        elim (Bool-cases (is_offset_of g c o)) [
          | inl mine ↦
              let theirs = distinct g c h d o apart mine in
              ap (committed h d) (set_offset-hit o os mine)
              ∙ committed-miss h d (written o) _ theirs
              ∙ rest
              ∙ sym (committed-miss h d o os theirs)
          | inr miss ↦
              ap (committed h d) (set_offset-miss o os miss)
              ∙ ap (λ (r : Option ℤ). if is_offset_of h d o then some o.committed_offset else r)
                  rest
        ]

    unfoldable pub new_offset : ConsumerOffset F
    new_offset = record {
      group = g;
      consumer = c;
      committed_offset = v;
      last_heartbeat = clock.now;
    }

    pub committed-append :
        (os : List (ConsumerOffset F))
        → committed g c os ≡ none
        → committed g c (os ++ new_offset ∷ []) ≡ some v
    unfolding committed new_offset
    committed-append [] e =
        ap (λ (b : Bool). if b then some v else none)
          (ap (λ b. b && text_eq c c) (text_eq_refl g) ∙ text_eq_refl c)
    committed-append (o ∷ os) e = elim (Bool-cases (is_offset_of g c o)) [
      | inl hit ↦ absurd (cc (committed-hit g c o os hit, e))
      | inr miss ↦
          committed-miss g c o _ miss ∙ committed-append os (sym (committed-miss g c o os miss) ∙ e)
    ]

    pub committed-append_other :
        (os : List (ConsumerOffset F)) (h d : Text)
        → (text_eq g h && text_eq c d) ≡ false
        → committed h d (os ++ new_offset ∷ []) ≡ committed h d os
    unfolding committed new_offset
    committed-append_other [] h d apart = committed-miss h d new_offset [] (
        distinct g c h d new_offset apart
          (ap (λ b. b && text_eq c c) (text_eq_refl g) ∙ text_eq_refl c))
    committed-append_other (o ∷ os) h d apart =
        ap (λ (r : Option ℤ). if is_offset_of h d o then some o.committed_offset else r)
          (committed-append_other os h d apart)
