-- ===== src/Compatibility/Judgments.antt =====
-- The judgment on two versions against the matrix of the policy.
use pg_tide.Prelude.{
  Occurs, ◌≡◌, refl, sym, ap, ◌∙◌, subst, Bool, true, false, Option, none, some, List, ◌&&◌, ◌==◌,
  arith, map, filter, is_some,
}
use pg_tide.Prelude.Text.{Text, text, text_eq_sound}
use pg_tide.Foreign.{Foreign}
use pg_tide.Errors.{Result, err, RelayError, ok, >>=-eq-ok}
use pg_tide.Compatibility.Search.{
  find-Occurs, filter-Occurs, Occurs-filter, Occurs-find, Occurs-map,
}
use pg_tide.Compatibility.{
  MatrixRow, Policy, CompatibilityDecision, Version, version_eq, parse_release, is_supported,
  is_version, is_row_of, or_malformed, supported_range_of, next_action_of, embedded_policy, decide,
  evaluate, policy_rows, PolicyRow, policy_row_of, is_listed,
}

and_parts : (a b : Bool) → (a && b) ≡ true → (a ≡ true) × (b ≡ true)
and_parts true b h = (refl, h)
and_parts false b h = cc h

and_both : {a b : Bool} → a ≡ true → b ≡ true → (a && b) ≡ true
and_both e f = rw (e, f) refl

is_version-some : (o : Option Version) (v : Version) → is_version o v ≡ true → o ≡ some v
is_version-some none v h = cc h
is_version-some (some u) v h =
    let (front, patch) = and_parts (u.major == v.major && u.minor == v.minor) _ h in
    let (major, minor) = and_parts (u.major == v.major) _ front in
    same (ground (arith, major)) (ground (arith, minor)) (ground (arith, patch))
  where
    same : u.major ≡ v.major → u.minor ≡ v.minor → u.patch ≡ v.patch → some u ≡ some v
    same e f g = cc (e, f, g)

is_some-some {ℓ} : {A : Type ℓ} (o : Option A) → is_some o ≡ true → (a : A) × (o ≡ some a)
is_some-some none h = cc h
is_some-some (some a) h = (a, refl)

version_eq_refl : (v : Version) → version_eq v v ≡ true
version_eq_refl v = ground arith

module _ {F : Foreign} where
  or_malformed-eq-ok {ℓ} :
      {A : Type ℓ} (o : Option A) (e : RelayError F) (a : A) → or_malformed o e ≡ ok a → o ≡ some a
  or_malformed-eq-ok none e a h = cc h
  or_malformed-eq-ok (some b) e a h = cc h

-- A row of the policy supports the two versions.
pub record Supports (policy : Policy) (relay_version : Text) (extension_version : Option Text)
    (row : MatrixRow) : Type 0 where
  pub listed : Occurs row policy.matrix
  pub supported : is_supported row ≡ true
  pub extension_text : Text
  pub is_installed : extension_version ≡ some extension_text
  pub relay : Version
  pub is_relay : parse_release relay_version ≡ some relay
  pub row_relay : parse_release row.relay ≡ some relay
  pub extension : Version
  pub is_extension : parse_release extension_text ≡ some extension
  pub row_extension : parse_release row.extension ≡ some extension

-- Both bounds of the window can be read, and the policy has the error code of the relay.
pub record IsReadable (F : Foreign) (policy : Policy) : Type 0 where
  pub is_accepted : embedded_policy {F = F} policy ≡ ok tt
  pub minimum : Version
  pub is_minimum : parse_release policy.minimum ≡ some minimum
  pub maximum : Version
  pub is_maximum : parse_release policy.maximum ≡ some maximum

decision_of : Policy → MatrixRow → CompatibilityDecision
decision_of policy row = record {
  relay_version = row.relay;
  extension_version = row.extension;
  policy_version = policy.policy_version;
  compatibility_class = row.status;
  supported_range = supported_range_of policy;
  next_action = next_action_of policy;
}

module _ {F : Foreign} where
  decide-decision_of :
      (policy : Policy) (relay extension : Text) (minimum maximum v : Version)
      (found : Option MatrixRow) (d : CompatibilityDecision)
      → decide {F = F} policy relay extension minimum maximum v found ≡ ok d
      → (row : MatrixRow) × (found ≡ some row) × (decision_of policy row ≡ d)
  unfolding decide decision_of
  decide-decision_of policy relay extension minimum maximum v (some row) d h = (row, refl, cc h)
  decide-decision_of policy relay extension minimum maximum v none d h = cc h

  -- A judgment names a row that supports the two versions, and is its decision.
  judged :
      (policy : Policy) (relay_version : Text) (extension_version : Option Text)
      (d : CompatibilityDecision)
      → evaluate {F = F} policy relay_version extension_version ≡ ok d
      → (row : MatrixRow) × Supports policy relay_version extension_version row
        × (decision_of policy row ≡ d)
  unfolding evaluate is_row_of
  judged policy relay_version extension_version d h =
      let (_, _, h1) = >>=-eq-ok (embedded_policy policy) _ h in
      let (minimum, _, h2) = >>=-eq-ok (or_malformed (parse_release policy.minimum) _) _ h1 in
      let (maximum, _, h3) = >>=-eq-ok (or_malformed (parse_release policy.maximum) _) _ h2 in
      let (relay, e4, h4) = >>=-eq-ok (or_malformed (parse_release relay_version) _) _ h3 in
      let (value, e5, h5) = >>=-eq-ok (or_malformed extension_version _) _ h4 in
      let (extension, e6, h6) = >>=-eq-ok (or_malformed (parse_release value) _) _ h5 in
      let (row, found, same) =
        decide-decision_of policy relay_version value minimum maximum extension _ d h6 in
      let (kept, both) = find-Occurs (is_row_of relay extension) _ row found in
      let (listed, supported) = filter-Occurs is_supported policy.matrix row kept in
      let (on_relay, on_extension) =
        and_parts (is_version (parse_release row.relay) relay) _ both in
      (
        row,
        record {
          listed = listed;
          supported = supported;
          extension_text = value;
          is_installed = or_malformed-eq-ok extension_version _ value e5;
          relay = relay;
          is_relay = or_malformed-eq-ok (parse_release relay_version) _ relay e4;
          row_relay = is_version-some (parse_release row.relay) relay on_relay;
          extension = extension;
          is_extension = or_malformed-eq-ok (parse_release value) _ extension e6;
          row_extension = is_version-some (parse_release row.extension) extension on_extension;
        },
        same,
      )

  -- A decision quotes a row that supports the two versions.
  pub evaluate-Supports :
      (policy : Policy) (relay_version : Text) (extension_version : Option Text)
      (d : CompatibilityDecision)
      → evaluate {F = F} policy relay_version extension_version ≡ ok d
      → (row : MatrixRow) × Supports policy relay_version extension_version row
        × (d.relay_version ≡ row.relay)
        × (d.extension_version ≡ row.extension)
        × (d.compatibility_class ≡ text "supported")
  unfolding decision_of
  evaluate-Supports policy relay_version extension_version d h =
      let (row, supports, same) = judged policy relay_version extension_version d h in
      (
        row,
        supports,
        ap (λ x. x.relay_version) (sym same),
        ap (λ x. x.extension_version) (sym same),
        ap (λ x. x.compatibility_class) (sym same)
            ∙ text_eq_sound row.status (text "supported") supports.supported,
      )

  -- Two versions that a row of a readable policy supports are judged to work together.
  Supports-evaluate :
      (policy : Policy) (relay_version extension_text : Text) (row : MatrixRow)
      → IsReadable F policy
      → Supports policy relay_version (some extension_text) row
      → (d : CompatibilityDecision) × (evaluate {F = F} policy relay_version (some extension_text)
          ≡ ok d)
  unfolding evaluate decide decision_of is_row_of
  Supports-evaluate policy relay_version extension_text row readable s =
      let kept = Occurs-filter is_supported policy.matrix row s.listed s.supported in
      let hit : is_row_of s.relay s.extension row ≡ true =
        rw (s.row_relay, s.row_extension)
          (and_both (version_eq_refl s.relay) (version_eq_refl s.extension)) in
      let (found, e) =
        Occurs-find (is_row_of s.relay s.extension) (filter is_supported policy.matrix) row kept
          hit in
      let extension : parse_release extension_text ≡ some s.extension =
        cc (s.is_installed, s.is_extension) in
      (
        decision_of policy found,
        rw
            (
              readable.is_accepted, readable.is_minimum, readable.is_maximum, s.is_relay, extension,
              e,
            )
            refl,
      )

  -- What a judgment may end with: a decision that quotes a row which supports the two versions, or
  -- an error when no row supports them.
  abbrev pub IsJudgment : Policy → Text → Option Text → Result F CompatibilityDecision → Type 0
  IsJudgment policy relay_version extension_version (ok d) =
      (row : MatrixRow) × Supports policy relay_version extension_version row
      × (d.relay_version ≡ row.relay)
      × (d.extension_version ≡ row.extension)
      × (d.compatibility_class ≡ text "supported")
  IsJudgment policy relay_version extension_version (err e) =
      ¬ ((row : MatrixRow) × Supports policy relay_version extension_version row)

  -- Under a readable policy, a judgment ends with a decision exactly when a supported row of the
  -- matrix has the two versions, both well formed and the extension installed; the decision then
  -- has the texts of such a row and the class supported. In every other case it ends with an error.
  pub evaluate-IsJudgment :
      (policy : Policy) (relay_version : Text) (extension_version : Option Text)
      → IsReadable F policy
      → IsJudgment policy relay_version extension_version
          (evaluate {F = F} policy relay_version extension_version)
  evaluate-IsJudgment policy relay_version extension_version readable =
      by_result (evaluate policy relay_version extension_version) refl
    where
      by_result :
          (r : Result F CompatibilityDecision)
          → evaluate {F = F} policy relay_version extension_version ≡ r
          → IsJudgment policy relay_version extension_version r
      by_result (ok d) h = evaluate-Supports policy relay_version extension_version d h
      by_result (err e) h = λ found.
          let (row, s) = found in
          let (d, decided) =
            Supports-evaluate policy relay_version s.extension_text row readable
              (subst (λ x. Supports policy relay_version x row) s.is_installed s) in
          let same : evaluate {F = F} policy relay_version extension_version ≡ ok d =
            subst (λ x. evaluate {F = F} policy relay_version x ≡ ok d) (sym s.is_installed)
              decided in
          cc (h, same)

  -- Every row that `policy_rows` lists is judged compatible, when the policy is readable: a judgment
  -- on its two versions ends with a decision of the class supported.
  pub policy_rows-evaluate :
      (policy : Policy) (rows : List PolicyRow) (r : PolicyRow)
      → IsReadable F policy
      → policy_rows {F = F} policy ≡ ok rows
      → Occurs r rows
      → (d : CompatibilityDecision) × (evaluate {F = F} policy r.relay_version
            (some r.extension_version)
          ≡ ok d)
        × (d.compatibility_class ≡ text "supported")
  unfolding policy_rows is_listed
  policy_rows-evaluate policy rows r readable h o =
      let (_, _, listed) = >>=-eq-ok (embedded_policy policy) _ h in
      let same : map policy_row_of (filter is_listed policy.matrix) ≡ rows = cc listed in
      let (row, kept, is_row) =
        Occurs-map policy_row_of (filter is_listed policy.matrix) r
          (subst (Occurs r) (sym same) o) in
      let (occurs, is_kept) = filter-Occurs is_listed policy.matrix row kept in
      let (front, has_relay) =
        and_parts (is_supported row && is_some (parse_release row.extension)) _ is_kept in
      let (supported, has_extension) = and_parts (is_supported row) _ front in
      let (relay, is_relay) = is_some-some (parse_release row.relay) has_relay in
      let (extension, is_extension) = is_some-some (parse_release row.extension) has_extension in
      let (d, decided) = Supports-evaluate policy row.relay row.extension row readable (record {
        listed = occurs;
        supported = supported;
        extension_text = row.extension;
        is_installed = refl;
        relay = relay;
        is_relay = is_relay;
        row_relay = is_relay;
        extension = extension;
        is_extension = is_extension;
        row_extension = is_extension;
      }) in
      let judged_row : evaluate policy r.relay_version (some r.extension_version) ≡ ok d =
        subst
          (λ (x : PolicyRow).
            evaluate {F = F} policy x.relay_version (some x.extension_version) ≡ ok d)
          is_row decided in
      let (_, _, _, _, class) =
        evaluate-Supports policy r.relay_version (some r.extension_version) d judged_row in
      (d, judged_row, class)
